-- ===== src/Common/ToIr/Total.antt =====
-- `ToIR` returns for Ingresses that the API server would accept.
use Prim.Native.String
use Prim.Native.Nat.{Ordering}
use text.Mathlib.TextEquality.{eq_iff}
use ingress2gateway.Base.{
  ℕ, ◌+◌, ◌≡◌, refl, true, Option, none, some, List, [], ◌∷◌, ◌++◌, String, ◌==◌, string_comparable,
  arith, Returns, >>=-Returns, All, All-of_contains, contains, Bool-cases, inl, inr,
}
use ingress2gateway.Base.Dict.{Dict, lookup}
use ingress2gateway.Base.Text.{split}
use ingress2gateway.Api.Ingress.{Ingress}
use ingress2gateway.Api.Gateway.{Listener}
use ingress2gateway.Common.Backends.{ServicePorts}
use ingress2gateway.Common.Paths.Grouping.{all_paths}
use ingress2gateway.Common.Aggregator.{
  Protocol, http, grpc, RuleGroup, DefaultBackend, Aggregator, aggregate,
}
use ingress2gateway.Common.Aggregator.Valid.{IsIngress, all_paths-All, IsGood, aggregate-IsGood}
use ingress2gateway.Common.Aggregator.Grouping.{group_rules}
use ingress2gateway.Common.Routes.{PathConverter}
use ingress2gateway.Common.Routes.Complete.{
  IsBackend, IsPath, to_backend_ref-Returns, to_route-Returns,
}
use ingress2gateway.Common.Listeners.{merge_listeners}
use ingress2gateway.Common.Listeners.Unique.{merge_listeners_lem}
use ingress2gateway.Common.ToIr.{
  sort_insert, sort, Translation, add_group_listener, add_route, translate_group, translate_groups,
  default_backend_route, error_of, add_default_backends, Gateways, two_parts, add_gateway,
  add_gateways, keys_of, nothing_translated, to_routes_and_gateways, to_ir,
}

All-sort_insert :
    (P : String → Type 0) (k : String) (ks : List String)
    → P k
    → All P ks
    → All P (sort_insert k ks)
unfolding sort_insert
All-sort_insert P k [] p h = (p, tt)
All-sort_insert P k (j ∷ js) p (q, h) = by_order (String.compare k j) (All-sort_insert P k js p h)
  where
    by_order :
        (o : Ordering)
        → All P (sort_insert k js)
        → All P (elim o [ Ordering.gt ↦ j ∷ sort_insert k js | _ ↦ k ∷ j ∷ js ])
    by_order Ordering.lt r = (p, (q, h))
    by_order Ordering.eq r = (p, (q, h))
    by_order Ordering.gt r = (q, r)

All-sort : (P : String → Type 0) (ks : List String) → All P ks → All P (sort ks)
unfolding sort
All-sort P [] h = tt
All-sort P (k ∷ ks) (p, h) = All-sort_insert P k (sort ks) p (All-sort P ks h)

lookup-keys_of {ℓ} :
    {V : Type ℓ} (m : Dict String V) (k : String)
    → contains k (keys_of m) ≡ true
    → (v : V) × (lookup k m ≡ some v)
lookup-keys_of [] k h = cc
lookup-keys_of ((j, v) ∷ m) k h = elim (Bool-cases (j == k)) [
  | inl same ↦ (v, rw same)
  | inr other ↦
      let (w, e) = lookup-keys_of m k (ground (arith, eq_iff j k, eq_iff k j)) in (w, rw other e)
]

abbrev HasGroup : Dict String RuleGroup → String → Type 0
HasGroup groups k =
    (rg : RuleGroup) × (lookup k groups ≡ some rg) × All IsPath (all_paths 0 rg.rules)

module _ (service_ports : ServicePorts) (convert : PathConverter) where
  add_route-Returns :
      (t : Translation) (rg : RuleGroup) (p : Protocol)
      → All IsPath (all_paths 0 rg.rules)
      → Returns (add_route t rg service_ports convert p)
  unfolding add_route
  add_route-Returns t rg http h =
      >>=-Returns _ _ (to_route-Returns rg service_ports convert h).0 (λ r. (_, refl))
  add_route-Returns t rg grpc h =
      >>=-Returns _ _ (to_route-Returns rg service_ports convert h).1 (λ r. (_, refl))

  translate_groups-Returns :
      (t : Translation) (groups : Dict String RuleGroup) (ks : List String)
      → All (HasGroup groups) ks
      → Returns (translate_groups t service_ports convert groups ks)
  unfolding translate_groups translate_group
  translate_groups-Returns t groups [] h = (t, refl)
  translate_groups-Returns t groups (k ∷ ks) (g, h) =
      >>=-Returns _ _ (rw g.1 (add_route-Returns (add_group_listener t g.0) g.0 g.0.protocol g.2))
        (λ t'. translate_groups-Returns t' groups ks h)

  add_default_backends-Returns :
      (t : Translation) (i : ℕ) (dbs : List DefaultBackend)
      → All (λ (d : DefaultBackend). IsBackend d.backend) dbs
      → Returns (add_default_backends t service_ports i dbs)
  unfolding add_default_backends
  add_default_backends-Returns t i [] h = (t, refl)
  add_default_backends-Returns t i (db ∷ dbs) (b, h) =
      >>=-Returns _ _ (to_backend_ref-Returns db.namespace db.backend service_ports _ b) λ r.
        add_default_backends-Returns
          (record t {
            http_routes = t.http_routes ++ default_backend_route db r ∷ [];
            errors = t.errors ++ error_of r;
          })
          (i + 1) dbs h

merge_listeners-Returns : (ls : List Listener) → Returns (merge_listeners ls)
merge_listeners-Returns ls = let (m, e, _, _) = merge_listeners_lem ls in (m, e)

add_gateway-Returns :
    (acc : Gateways) (k : String) (ls : List Listener) (o : Option (String × String))
    → Returns (add_gateway acc k ls o)
unfolding add_gateway
add_gateway-Returns (m, es) k ls none = (_, refl)
add_gateway-Returns (m, es) k ls (some (a, b)) =
    >>=-Returns _ _ (merge_listeners-Returns ls) (λ r. (_, refl))

add_gateways-Returns :
    (acc : Gateways) (m : Dict String (List Listener)) → Returns (add_gateways acc m)
unfolding add_gateways
add_gateways-Returns acc [] = (acc, refl)
add_gateways-Returns acc ((k, ls) ∷ m) =
    >>=-Returns _ _ (add_gateway-Returns acc k ls (two_parts (split b'/' k)))
      (λ a. add_gateways-Returns a m)

rules_of_group :
    (a : Aggregator) (k : String) (rg : RuleGroup)
    → lookup k a.rule_groups ≡ some rg
    → group_rules k a ≡ rg.rules
rules_of_group a k rg e = ground arith

has_groups :
    (a : Aggregator) → IsGood a → All (HasGroup a.rule_groups) (sort (keys_of a.rule_groups))
has_groups a g = All-sort (HasGroup a.rule_groups) (keys_of a.rule_groups) (
    All-of_contains (HasGroup a.rule_groups) (keys_of a.rule_groups) λ k c.
      let (rg, e) = lookup-keys_of a.rule_groups k c in
      (rg, e, all_paths-All 0 rg.rules (rw (← rules_of_group a k rg e) (g.groups k))))

-- `ToIR` returns and does not panic, if every path and every default backend has a service or a
-- resource and every path type is one that the Ingress API knows, or is missing.
pub to_ir-Returns :
    (https grpcs : List Ingress) (service_ports : ServicePorts) (convert : PathConverter)
    → All IsIngress https
    → All IsIngress grpcs
    → Returns (to_ir https grpcs service_ports convert)
unfolding to_ir to_routes_and_gateways
to_ir-Returns https grpcs service_ports convert h g =
    let a = aggregate https grpcs in
    let good = aggregate-IsGood https grpcs h g in
    >>=-Returns _ _
      (>>=-Returns _ _
        (translate_groups-Returns service_ports convert nothing_translated a.rule_groups _
          (has_groups a good))
        λ t.
          >>=-Returns _ _
            (add_default_backends-Returns service_ports convert t 0 a.default_backends
              good.defaults)
            λ t'.
              >>=-Returns _ _ (add_gateways-Returns ([], t'.errors) t'.listeners)
                (λ gateways. (_, refl)))
      (λ r. (_, refl))
