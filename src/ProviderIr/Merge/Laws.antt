-- ===== src/ProviderIr/Merge/Laws.antt =====
-- What `MergeIRs` does with Gateways of the same name, with too many listeners, and with services.
use mathlib.Core.Path.{subst}
use mathlib.Core.List.{append_assoc}
use ingress2gateway.Base.{
  ◌≤◌, ◌≡◌, ◌↔◌, refl, sym, ap, ◌∙◌, Bool, true, false, ◌&&◌, Option, none, some, List, [], ◌∷◌,
  ◌++◌, ◌==◌, if◌then◌else◌, arith, Go, done, panic, ◌>>=◌, >>=-eq-done, eq_of_done-eq, length, all,
  inl, inr, Bool-cases, eq_of_some-eq,
}
use ingress2gateway.Base.Dict.{Dict, lookup, lookup-insert, copy_into}
use ingress2gateway.Api.Field.{FieldError}
use ingress2gateway.Api.Ingress.{NamespacedName, namespaced_name_comparable, same_name_iff}
use ingress2gateway.Api.Gateway.{Gateway, Listener}
use ingress2gateway.ProviderIr.{ProviderIr, GatewayContext, ServiceIr, empty_ir}
use ingress2gateway.ProviderIr.Merge.{
  Merged, name_of, extend_gateway, size_errors, add_extended, add_context, add_contexts, add_irs,
  merge_gateway_contexts, copy_services, copy_ir, copy_irs, merge_if_sound, merge_irs,
}

-- The listeners of the Gateways named `k`, the last Gateway's first.
abbrev pub listeners_in : NamespacedName → Dict NamespacedName GatewayContext → List Listener
listeners_in k [] = []
listeners_in k ((j, c) ∷ cs) =
    listeners_in k cs ++ (if name_of c.gateway == k then c.gateway.listeners else [])

abbrev pub listeners_named : NamespacedName → List ProviderIr → List Listener
listeners_named k [] = []
listeners_named k (ir ∷ irs) = listeners_named k irs ++ listeners_in k ir.gateways

abbrev pub listeners_of : Option GatewayContext → List Listener
listeners_of none = []
listeners_of (some c) = c.gateway.listeners

append_nil : (xs : List Listener) → xs ++ [] ≡ xs
append_nil [] = refl
append_nil (x ∷ xs) = ap (λ l. x ∷ l) (append_nil xs)

extend_gateway-listeners :
    (g : Gateway) (o : Option GatewayContext)
    → (extend_gateway g o).listeners ≡ g.listeners ++ listeners_of o
extend_gateway-listeners g none = sym (append_nil g.listeners)
extend_gateway-listeners g (some c) = refl

extend_gateway-name :
    (g : Gateway) (o : Option GatewayContext) → name_of (extend_gateway g o) ≡ name_of g
extend_gateway-name g none = refl
extend_gateway-name g (some c) = refl

add_context-listeners :
    (acc : Merged) (c : GatewayContext) (k : NamespacedName)
    → listeners_of (lookup k (add_context acc c).0)
      ≡ (if name_of c.gateway == k then c.gateway.listeners else [])
        ++ listeners_of (lookup k acc.0)
add_context-listeners (m, es) c k =
    let g = extend_gateway c.gateway (lookup (name_of c.gateway) m) in
    let found =
      ap listeners_of (lookup-insert (name_of g) k (record { gateway = g; gce = none }) m)
      ∙ ap
          (λ n.
            listeners_of (if n == k then some (record { gateway = g; gce = none }) else lookup k m))
          (extend_gateway-name c.gateway (lookup (name_of c.gateway) m)) in
    elim (Bool-cases (name_of c.gateway == k)) [
      | inl same ↦ rw same (
          rw same at found
          ∙ extend_gateway-listeners c.gateway (lookup (name_of c.gateway) m)
          ∙ ap (λ n. c.gateway.listeners ++ listeners_of (lookup n m))
              ((same_name_iff (name_of c.gateway) k).0 same))
      | inr other ↦ rw other (rw other at found)
    ]

add_contexts-listeners :
    (acc : Merged) (cs : Dict NamespacedName GatewayContext) (k : NamespacedName)
    → listeners_of (lookup k (add_contexts acc cs).0)
      ≡ listeners_in k cs ++ listeners_of (lookup k acc.0)
add_contexts-listeners acc [] k = refl
add_contexts-listeners acc ((j, c) ∷ cs) k =
    add_contexts-listeners (add_context acc c) cs k
    ∙ ap (λ l. listeners_in k cs ++ l) (add_context-listeners acc c k)
    ∙ sym (
        append_assoc (listeners_in k cs)
          (if name_of c.gateway == k then c.gateway.listeners else [])
          (listeners_of (lookup k acc.0)))

add_irs-listeners :
    (acc : Merged) (irs : List ProviderIr) (k : NamespacedName)
    → listeners_of (lookup k (add_irs acc irs).0)
      ≡ listeners_named k irs ++ listeners_of (lookup k acc.0)
add_irs-listeners acc [] k = refl
add_irs-listeners acc (ir ∷ irs) k =
    add_irs-listeners (add_contexts acc ir.gateways) irs k
    ∙ ap (λ l. listeners_named k irs ++ l) (add_contexts-listeners acc ir.gateways k)
    ∙ sym (
        append_assoc (listeners_named k irs) (listeners_in k ir.gateways)
          (listeners_of (lookup k acc.0)))

-- `mergeGatewayContexts` gives a name the listeners of all the Gateways of that name, in whatever
-- IR and under whatever key they stand: those of a later Gateway before those of an earlier one.
pub merge_gateway_contexts-listeners :
    (irs : List ProviderIr) (k : NamespacedName)
    → listeners_of (lookup k (merge_gateway_contexts irs).0) ≡ listeners_named k irs
unfolding merge_gateway_contexts
merge_gateway_contexts-listeners irs k =
    add_irs-listeners ([], []) irs k ∙ append_nil (listeners_named k irs)

-- A context of the result: the limits of the Gateway API, the key its name, no extension.
abbrev pub IsMerged : NamespacedName → GatewayContext → Type 0
IsMerged k c =
    (length c.gateway.listeners ≤ 64)
    × (length c.gateway.addresses ≤ 16)
    × (name_of c.gateway ≡ k)
    × (c.gce ≡ none)

abbrev AllMerged : Merged → Type 0
AllMerged acc =
    acc.1 ≡ [] → (k : NamespacedName) (c : GatewayContext) → lookup k acc.0 ≡ some c → IsMerged k c

size_errors-nil :
    (g : Gateway) → size_errors g ≡ [] → (length g.listeners ≤ 64) × (length g.addresses ≤ 16)
size_errors-nil g h = ground arith

append-nil : (xs ys : List FieldError) → xs ++ ys ≡ [] → (xs ≡ []) × (ys ≡ [])
append-nil [] ys h = (refl, h)
append-nil (x ∷ xs) ys h = cc

add_extended-AllMerged :
    (acc : Merged) (g : Gateway) → AllMerged acc → AllMerged (add_extended acc g)
add_extended-AllMerged (m, es) g h none_left k c found =
    let (before, here) = append-nil es (size_errors g) none_left in
    let (few_listeners, few_addresses) = size_errors-nil g here in
    let looked = lookup-insert (name_of g) k (record { gateway = g; gce = none }) m in
    elim (Bool-cases (name_of g == k)) [
      | inl same ↦
          subst (IsMerged k) (eq_of_some-eq (sym (rw same at looked) ∙ found))
            (few_listeners, few_addresses, (same_name_iff (name_of g) k).0 same, refl)
      | inr other ↦ h before k c (sym (rw other at looked) ∙ found)
    ]

add_contexts-AllMerged :
    (acc : Merged) (cs : Dict NamespacedName GatewayContext)
    → AllMerged acc
    → AllMerged (add_contexts acc cs)
add_contexts-AllMerged acc [] h = h
add_contexts-AllMerged acc ((j, c) ∷ cs) h =
    add_contexts-AllMerged (add_context acc c) cs
      (add_extended-AllMerged acc (extend_gateway c.gateway (lookup (name_of c.gateway) acc.0)) h)

add_irs-AllMerged :
    (acc : Merged) (irs : List ProviderIr) → AllMerged acc → AllMerged (add_irs acc irs)
add_irs-AllMerged acc [] h = h
add_irs-AllMerged acc (ir ∷ irs) h =
    add_irs-AllMerged (add_contexts acc ir.gateways) irs (add_contexts-AllMerged acc ir.gateways h)

copy_irs-gateways :
    (merged ir : ProviderIr) (irs : List ProviderIr)
    → copy_irs merged irs ≡ done ir
    → ir.gateways ≡ merged.gateways
unfolding copy_irs
copy_irs-gateways merged ir [] h = ap (λ (x : ProviderIr). x.gateways) (sym (eq_of_done-eq h))
copy_irs-gateways merged ir (i ∷ irs) h =
    let (merged', is_merged', h1) = >>=-eq-done (copy_ir merged i) _ h in
    let (services, _, h2) = >>=-eq-done (copy_services merged.services i.services) _ is_merged' in
    copy_irs-gateways merged' ir irs h1
    ∙ ap (λ (x : ProviderIr). x.gateways) (sym (eq_of_done-eq h2))

merge_if_sound-done :
    (irs : List ProviderIr) (acc : Merged) (ir : ProviderIr)
    → merge_if_sound irs acc ≡ done (ir, [])
    → (acc.1 ≡ []) × (ir.gateways ≡ acc.0)
unfolding merge_if_sound
merge_if_sound-done irs (gateways, []) ir h =
    let (r, is_r, h1) = >>=-eq-done (copy_irs (record empty_ir { gateways = gateways }) irs) _ h in
    let gateways_kept = copy_irs-gateways (record empty_ir { gateways = gateways }) r irs is_r in
    (
      refl,
      ap (λ (x : ProviderIr × List FieldError). x.0.gateways) (sym (eq_of_done-eq h1))
          ∙ gateways_kept,
    )
merge_if_sound-done irs (gateways, e ∷ errs) ir h =
    absurd (ne (ap (λ (x : ProviderIr × List FieldError). x.1) (eq_of_done-eq h)))
  where
    ne : e ∷ errs ≡ [] → ⊥
    ne q = cc

-- If `MergeIRs` returns no errors, each Gateway of the result has at most 64 listeners and at most
-- 16 addresses, stands under its own name, and has no extension of a provider.
pub merge_irs-IsMerged :
    (irs : List ProviderIr) (ir : ProviderIr) (k : NamespacedName) (c : GatewayContext)
    → merge_irs irs ≡ done (ir, [])
    → lookup k ir.gateways ≡ some c
    → IsMerged k c
unfolding merge_irs merge_gateway_contexts
merge_irs-IsMerged irs ir k c h found =
    let (none_left, same) = merge_if_sound-done irs (add_irs ([], []) irs) ir h in
    add_irs-AllMerged ([], []) irs (λ _ k c e. cc) none_left k c (ap (lookup k) (sym same) ∙ found)

abbrev pub is_empty : Option (Dict NamespacedName ServiceIr) → Bool
is_empty none = true
is_empty (some []) = true
is_empty (some (s ∷ m)) = false

-- The IR has no entry under `Services`.
abbrev pub has_no_services : ProviderIr → Bool
has_no_services ir = is_empty ir.services

copy_services_panics_iff :
    (o : Option (Dict NamespacedName ServiceIr))
    (merge : Option (Dict NamespacedName ServiceIr) → ProviderIr)
    (rest : ProviderIr → Go ProviderIr) (b : Bool)
    → (rest (merge none) ≡ panic) ↔ (b ≡ false)
    → ((copy_services none o >>= (λ services. done (merge services)) >>= rest) ≡ panic)
      ↔ ((is_empty o && b) ≡ false)
copy_services_panics_iff none merge rest b h = h
copy_services_panics_iff (some []) merge rest b h = h
copy_services_panics_iff (some (s ∷ m)) merge rest b h = (λ _. refl, λ _. refl)

copy_irs_panics_iff :
    (merged : ProviderIr) (irs : List ProviderIr)
    → merged.services ≡ none
    → (copy_irs merged irs ≡ panic) ↔ (all has_no_services irs ≡ false)
unfolding copy_irs
copy_irs_panics_iff merged [] h = ground arith
copy_irs_panics_iff merged (ir ∷ irs) h =
    let merge : Option (Dict NamespacedName ServiceIr) → ProviderIr = λ services. record merged {
      gateway_classes = copy_into merged.gateway_classes ir.gateway_classes;
      http_routes = copy_into merged.http_routes ir.http_routes;
      services = services;
      tls_routes = copy_into merged.tls_routes ir.tls_routes;
      tcp_routes = copy_into merged.tcp_routes ir.tcp_routes;
      udp_routes = copy_into merged.udp_routes ir.udp_routes;
      grpc_routes = copy_into merged.grpc_routes ir.grpc_routes;
      backend_tls_policies = copy_into merged.backend_tls_policies ir.backend_tls_policies;
      reference_grants = copy_into merged.reference_grants ir.reference_grants;
    } in
    subst
      (λ o.
        ((copy_services o ir.services
            >>= (λ services. done (merge services))
            >>= (λ m. copy_irs m irs))
          ≡ panic)
        ↔ (all has_no_services (ir ∷ irs) ≡ false))
      (sym h)
      (copy_services_panics_iff ir.services merge (λ m. copy_irs m irs) (all has_no_services irs)
        (copy_irs_panics_iff (merge none) irs refl))

merge_if_sound_panics_iff :
    (irs : List ProviderIr) (acc : Merged)
    → (merge_if_sound irs acc ≡ panic) ↔ ((acc.1 ≡ []) × (all has_no_services irs ≡ false))
unfolding merge_if_sound
merge_if_sound_panics_iff irs (gateways, []) =
    let start : ProviderIr = record empty_ir { gateways = gateways } in
    let copied = copy_irs_panics_iff start irs refl in
    (
      λ h. (refl, copied.0 (panics (copy_irs start irs) (λ ir. (ir, [])) h)),
      λ h. ap (λ m. m >>= (λ ir. done (ir, []))) (copied.1 h.1),
    )
  where
    panics :
        (m : Go ProviderIr) (f : ProviderIr → ProviderIr × List FieldError)
        → (m >>= (λ ir. done (f ir))) ≡ panic
        → m ≡ panic
    panics (done ir) f h = cc
    panics panic f h = refl
merge_if_sound_panics_iff irs (gateways, e ∷ errs) = (λ h. cc, λ h. cc)

-- `MergeIRs` panics exactly when no merged Gateway is over its limits and some IR has an entry
-- under `Services`: the `Services` of the merged IR is a nil map, into which the entry is copied.
pub merge_irs_panics_iff :
    (irs : List ProviderIr)
    → (merge_irs irs ≡ panic)
      ↔ (((merge_gateway_contexts irs).1 ≡ []) × (all has_no_services irs ≡ false))
unfolding merge_irs
merge_irs_panics_iff irs = merge_if_sound_panics_iff irs (merge_gateway_contexts irs)
