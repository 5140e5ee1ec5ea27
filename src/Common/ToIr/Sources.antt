-- ===== src/Common/ToIr/Sources.antt =====
-- In the result of `ToIR` the sources of an HTTPRoute stand beside its backends.
use mathlib.Core.Path.{subst}
use ingress2gateway.Base.{
  ℕ, ◌+◌, ◌≡◌, refl, sym, ap, ◌∙◌, Option, none, some, List, [], ◌∷◌, ◌++◌, map, String, ◌==◌,
  string_comparable, done, >>=-eq-done, eq_of_done-eq, eq_of_some-eq, All, All-append, Bool-cases,
  inl, inr, ◌⊎◌, Pointwise,
}
use ingress2gateway.Base.Dict.{Dict, lookup, insert, lookup-insert}
use ingress2gateway.Base.Text.{split}
use ingress2gateway.Api.Field.{FieldError, FieldPath, new_path, index, Result, ok, err}
use ingress2gateway.Api.Ingress.{
  Ingress, HttpIngressPath, IngressBackend, NamespacedName, namespaced_name_comparable,
}
use ingress2gateway.Api.Gateway.{Listener, Gateway, HttpRoute, HttpRouteRule, BackendRef}
use ingress2gateway.ProviderIr.{ProviderIr, BackendSource, HttpRouteContext}
use ingress2gateway.Common.Backends.{ServicePorts, to_backend_ref}
use ingress2gateway.Common.Backends.Laws.{Refers, to_backend_ref-Refers}
use ingress2gateway.Common.Paths.{IngressPath, group_ingress_paths_by_match_key}
use ingress2gateway.Common.Aggregator.{Protocol, http, grpc, RuleGroup, DefaultBackend, aggregate}
use ingress2gateway.Common.Routes.{
  PathConverter, WithSources, to_http_route, to_grpc_route, path_source,
}
use ingress2gateway.Common.Routes.Sources.{
  IsBackendOf, IsHttpRuleOf, to_http_route_sources, to_http_route_namespace, append-eq-nil,
  path_groups,
}
use ingress2gateway.Common.Listeners.{merge_listeners}
use ingress2gateway.Common.ToIr.{
  Translation, add_group_listener, add_route, translate_group, translate_groups,
  default_backend_route, error_of, add_default_backends, Gateways, two_parts, add_gateway,
  add_gateways, nothing_translated, to_routes_and_gateways, http_by_key, ir_of, to_ir, sort,
  keys_of, values_of,
}

module _ (service_ports : ServicePorts) where
  -- The source is a path or a default backend that asks for the reference.
  abbrev pub IsSourceOf : String → BackendRef → BackendSource → Type 0
  IsSourceOf namespace r s =
      ((p : HttpIngressPath) × (s.path ≡ some p) × Refers service_ports namespace p.backend r)
      ⊎ ((b : IngressBackend) × (s.default_backend ≡ some b) × Refers service_ports namespace b r)

  -- The jth source of the ith rule is the source of the jth backend of that rule.
  abbrev pub IsAligned : HttpRoute → List (List BackendSource) → Type 0
  IsAligned route sources =
      Pointwise
        (λ (rule : HttpRouteRule) (srcs : List BackendSource).
          Pointwise (IsSourceOf route.namespace) rule.backend_refs srcs)
        route.rules sources

  aligned_backends :
      (namespace : String) (paths : List IngressPath) (refs : List BackendRef)
      → Pointwise (IsBackendOf service_ports namespace) paths refs
      → Pointwise (IsSourceOf namespace) refs (map path_source paths)
  aligned_backends namespace [] [] h = tt
  aligned_backends namespace [] (r ∷ refs) h = h
  aligned_backends namespace (p ∷ paths) [] h = h
  aligned_backends namespace (p ∷ paths) (r ∷ refs) (b, h) =
      (inl (p.path, refl, b), aligned_backends namespace paths refs h)

  aligned_rules :
      (namespace : String) (convert : PathConverter) (groups : List (List IngressPath))
      (rules : List HttpRouteRule)
      → Pointwise (IsHttpRuleOf service_ports namespace convert) groups rules
      → Pointwise
          (λ (rule : HttpRouteRule) (srcs : List BackendSource).
            Pointwise (IsSourceOf namespace) rule.backend_refs srcs)
          rules
          (map (λ g. map path_source g) groups)
  aligned_rules namespace convert [] [] h = tt
  aligned_rules namespace convert [] (r ∷ rules) h = h
  aligned_rules namespace convert (g ∷ groups) [] h = h
  aligned_rules namespace convert (g ∷ groups) (r ∷ rules) (q, h) =
      let (p, others, m, _, _, _, backends) = q in
      (
        aligned_backends namespace g r.backend_refs backends,
        aligned_rules namespace convert groups rules h,
      )

  abbrev IsAlignedRoute : WithSources HttpRoute → Type 0
  IsAlignedRoute ws = IsAligned ws.route ws.sources

  to_http_route-IsAlignedRoute :
      (rg : RuleGroup) (convert : PathConverter) (ws : WithSources HttpRoute)
      → to_http_route rg service_ports convert ≡ done (ws, [])
      → IsAlignedRoute ws
  to_http_route-IsAlignedRoute rg convert ws h =
      let (rules, sources) = to_http_route_sources rg service_ports convert ws h in
      let namespace = to_http_route_namespace rg service_ports convert (ws, []) h in
      let groups = group_ingress_paths_by_match_key rg.rules in
      subst
        (λ n.
          Pointwise
            (λ (rule : HttpRouteRule) (srcs : List BackendSource).
              Pointwise (IsSourceOf n) rule.backend_refs srcs)
            ws.route.rules ws.sources)
        (sym namespace)
        (subst
          (λ l.
            Pointwise
              (λ (rule : HttpRouteRule) (srcs : List BackendSource).
                Pointwise (IsSourceOf rg.namespace) rule.backend_refs srcs)
              ws.route.rules l)
          (sym sources)
          (aligned_rules rg.namespace convert (path_groups groups groups.keys) ws.route.rules
            rules))

  -- Without errors every route is aligned.
  abbrev IsSound : Translation → Type 0
  IsSound t = t.errors ≡ [] → All IsAlignedRoute t.http_routes

  add_route-IsSound :
      (t t' : Translation) (rg : RuleGroup) (convert : PathConverter) (p : Protocol)
      → IsSound t
      → add_route t rg service_ports convert p ≡ done t'
      → IsSound t'
  unfolding add_route
  add_route-IsSound t t' rg convert http h e =
      let (r, is_r, e1) = >>=-eq-done (to_http_route rg service_ports convert) _ e in
      subst IsSound (eq_of_done-eq e1) λ none_left.
        let (before, here) = append-eq-nil t.errors r.1 none_left in
        All-append IsAlignedRoute t.http_routes (r.0 ∷ []) (h before)
          (to_http_route-IsAlignedRoute rg convert r.0 (is_r ∙ ap (λ es. done (r.0, es)) here), tt)
  add_route-IsSound t t' rg convert grpc h e =
      let (r, is_r, e1) = >>=-eq-done (to_grpc_route rg service_ports) _ e in
      subst IsSound (eq_of_done-eq e1) (λ none_left. h (append-eq-nil t.errors r.1 none_left).0)

  translate_group-IsSound :
      (t t' : Translation) (convert : PathConverter) (o : Option RuleGroup)
      → IsSound t
      → translate_group t service_ports convert o ≡ done t'
      → IsSound t'
  unfolding translate_group add_group_listener
  translate_group-IsSound t t' convert none h e = cc
  translate_group-IsSound t t' convert (some rg) h e =
      add_route-IsSound (add_group_listener t rg) t' rg convert rg.protocol h e

  translate_groups-IsSound :
      (t t' : Translation) (convert : PathConverter) (groups : Dict String RuleGroup)
      (ks : List String)
      → IsSound t
      → translate_groups t service_ports convert groups ks ≡ done t'
      → IsSound t'
  unfolding translate_groups
  translate_groups-IsSound t t' convert groups [] h e = subst IsSound (eq_of_done-eq e) h
  translate_groups-IsSound t t' convert groups (k ∷ ks) h e =
      let (u, is_u, e1) =
        >>=-eq-done (translate_group t service_ports convert (lookup k groups)) _ e in
      translate_groups-IsSound u t' convert groups ks
        (translate_group-IsSound t u convert (lookup k groups) h is_u) e1

  default_backend-IsAlignedRoute :
      (db : DefaultBackend) (path : FieldPath) (r : Result BackendRef)
      → to_backend_ref db.namespace db.backend service_ports path ≡ done r
      → error_of r ≡ []
      → IsAlignedRoute (default_backend_route db r)
  unfolding default_backend_route error_of
  default_backend-IsAlignedRoute db path (err e) q none_left = cc
  default_backend-IsAlignedRoute db path (ok r) q none_left = (
    (
      inr (db.backend, refl, to_backend_ref-Refers service_ports db.namespace db.backend path r q),
      tt,
    ),
    tt,
  )

  add_default_backends-IsSound :
      (t t' : Translation) (i : ℕ) (dbs : List DefaultBackend)
      → IsSound t
      → add_default_backends t service_ports i dbs ≡ done t'
      → IsSound t'
  unfolding add_default_backends
  add_default_backends-IsSound t t' i [] h e = subst IsSound (eq_of_done-eq e) h
  add_default_backends-IsSound t t' i (db ∷ dbs) h e =
      let path = index (new_path (db.name ∷ "paths" ∷ "backends" ∷ [])) i in
      let (r, is_r, e1) =
        >>=-eq-done (to_backend_ref db.namespace db.backend service_ports path) _ e in
      let u : Translation = record t {
        http_routes = t.http_routes ++ default_backend_route db r ∷ [];
        errors = t.errors ++ error_of r;
      } in
      add_default_backends-IsSound u t' (i + 1) dbs (sound r path is_r) e1
    where
      sound :
          (r : Result BackendRef) (path : FieldPath)
          → to_backend_ref db.namespace db.backend service_ports path ≡ done r
          → t.errors ++ error_of r ≡ []
          → All IsAlignedRoute (t.http_routes ++ default_backend_route db r ∷ [])
      sound r path is_r none_left =
          let (before, here) = append-eq-nil t.errors (error_of r) none_left in
          All-append IsAlignedRoute t.http_routes (default_backend_route db r ∷ []) (h before)
            (default_backend-IsAlignedRoute db path r is_r here, tt)

  http_by_key-IsAligned :
      (m : Dict NamespacedName HttpRouteContext) (rs : List (WithSources HttpRoute))
      → ((k : NamespacedName) (c : HttpRouteContext)
          → lookup k m ≡ some c
          → IsAligned c.route c.rule_backend_sources)
      → All IsAlignedRoute rs
      → (k : NamespacedName) (c : HttpRouteContext) → lookup k (http_by_key m rs) ≡ some c
      → IsAligned c.route c.rule_backend_sources
  unfolding http_by_key
  http_by_key-IsAligned m [] h a k c e = h k c e
  http_by_key-IsAligned m (r ∷ rs) h (q, a) k c e =
      http_by_key-IsAligned
        (insert (record { namespace = r.route.namespace; name = r.route.name })
          (record { route = r.route; rule_backend_sources = r.sources }) m)
        rs inserted a k c e
    where
      name : NamespacedName
      name = record { namespace = r.route.namespace; name = r.route.name }

      context : HttpRouteContext
      context = record { route = r.route; rule_backend_sources = r.sources }

      inserted :
          (k : NamespacedName) (c : HttpRouteContext)
          → lookup k (insert name context m) ≡ some c
          → IsAligned c.route c.rule_backend_sources
      inserted k c e = elim (Bool-cases (name == k)) [
        | inl same ↦
            subst (λ (x : HttpRouteContext). IsAligned x.route x.rule_backend_sources)
              (eq_of_some-eq (rw same at (sym (lookup-insert name k context m) ∙ e))) q
        | inr other ↦ h k c (rw other at (sym (lookup-insert name k context m) ∙ e))
      ]

-- A key that splits into two parts.
abbrev HasTwoParts : String × List Listener → Type 0
HasTwoParts e = (parts : String × String) × (two_parts (split b'/' e.0) ≡ some parts)

append_one-ne-nil {ℓ} : {A : Type ℓ} (xs : List A) (x : A) → xs ++ x ∷ [] ≡ [] → ⊥
append_one-ne-nil [] x h = cc
append_one-ne-nil (y ∷ xs) x h = cc

add_gateway-errors :
    (acc r : Gateways) (k : String) (ls : List Listener) (o : Option (String × String))
    → add_gateway acc k ls o ≡ done r
    → r.1 ≡ []
    → (acc.1 ≡ []) × ((parts : String × String) × (o ≡ some parts))
unfolding add_gateway
add_gateway-errors (m, es) r k ls none e none_left =
    absurd (append_one-ne-nil es _ (ap (λ (g : Gateways). g.1) (eq_of_done-eq e) ∙ none_left))
add_gateway-errors (m, es) r k ls (some (a, b)) e none_left =
    let (merged, _, e1) = >>=-eq-done (merge_listeners ls) _ e in
    (ap (λ (g : Gateways). g.1) (eq_of_done-eq e1) ∙ none_left, ((a, b), refl))

-- Without errors there were none before, and every key has two parts.
add_gateways-errors :
    (acc r : Gateways) (m : Dict String (List Listener))
    → add_gateways acc m ≡ done r
    → r.1 ≡ []
    → (acc.1 ≡ []) × All HasTwoParts m
unfolding add_gateways
add_gateways-errors acc r [] e none_left =
    (ap (λ (g : Gateways). g.1) (eq_of_done-eq e) ∙ none_left, tt)
add_gateways-errors acc r ((k, ls) ∷ m) e none_left =
    let (acc', is_acc, e1) = >>=-eq-done (add_gateway acc k ls (two_parts (split b'/' k))) _ e in
    let (before, later) = add_gateways-errors acc' r m e1 none_left in
    let (first, two) = add_gateway-errors acc acc' k ls (two_parts (split b'/' k)) is_acc before in
    (first, (two, later))

ir_of-http_routes :
    (t : Translation) (gateways : List Gateway) (ir : ProviderIr) (es : List FieldError)
    → t.errors ≡ es
    → ir_of (t, gateways) ≡ (ir, [])
    → (es ≡ []) × (ir.http_routes ≡ http_by_key [] t.http_routes)
unfolding ir_of
ir_of-http_routes t gateways ir [] q e =
    (refl, sym (ap (λ (x : ProviderIr × List FieldError). x.0.http_routes) (rw (q, ir_of) at e)))
ir_of-http_routes t gateways ir (x ∷ es) q e =
    absurd (ne (ap (λ (x : ProviderIr × List FieldError). x.1) (rw (q, ir_of) at e)))
  where
    ne : x ∷ es ≡ [] → ⊥
    ne h = cc

-- If `ToIR` returns no errors, each HTTPRoute of the result has the sources of its backends beside
-- them: as many rules of sources as rules, as many sources as backends in each rule, and the jth
-- source of the ith rule is a path or a default backend that asks for the jth backend of that rule.
pub to_ir-IsAligned :
    (https grpcs : List Ingress) (service_ports : ServicePorts) (convert : PathConverter)
    (ir : ProviderIr) (k : NamespacedName) (c : HttpRouteContext)
    → to_ir https grpcs service_ports convert ≡ done (ir, [])
    → lookup k ir.http_routes ≡ some c
    → IsAligned service_ports c.route c.rule_backend_sources
unfolding to_ir to_routes_and_gateways
to_ir-IsAligned https grpcs service_ports convert ir k c h found =
    let a = aggregate https grpcs in
    let (r, is_r, e) = >>=-eq-done (to_routes_and_gateways a service_ports convert) _ h in
    let (t, is_t, e1) =
      >>=-eq-done
        (translate_groups nothing_translated service_ports convert a.rule_groups
          (sort (keys_of a.rule_groups)))
        _ is_r in
    let (t', is_t', e2) =
      >>=-eq-done (add_default_backends t service_ports 0 a.default_backends) _ e1 in
    let (g, is_g, e3) = >>=-eq-done (add_gateways ([], t'.errors) t'.listeners) _ e2 in
    let u : Translation = record t' { errors = g.1 } in
    let (none_left, routes) =
      ir_of-http_routes u (values_of g.0) ir g.1 refl
        (ap ir_of (eq_of_done-eq e3) ∙ eq_of_done-eq e) in
    let sound =
      add_default_backends-IsSound service_ports t t' 0 a.default_backends
        (translate_groups-IsSound service_ports nothing_translated t convert a.rule_groups
          (sort (keys_of a.rule_groups)) (λ _. tt) is_t)
        is_t' in
    http_by_key-IsAligned service_ports [] t'.http_routes (λ k c e. cc)
      (sound (add_gateways-errors ([], t'.errors) g t'.listeners is_g none_left).0) k c
      (ap (lookup k) (sym routes) ∙ found)
