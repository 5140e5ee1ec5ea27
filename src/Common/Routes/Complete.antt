-- ===== src/Common/Routes/Complete.antt =====
-- The translation of a rule group returns, where the API server would accept its Ingresses.
use text.Mathlib.TextEquality.{eq_iff}
use ingress2gateway.Base.{
  ℕ, ◌+◌, ◌≡◌, refl, ◌≢◌, Bool, Option, none, some, List, [], ◌∷◌, String, arith, ◌==◌,
  string_comparable, done, panic, Returns, >>=-Returns, Returns-of_not_panic, ◌↔◌, keep, All,
  All-of_contains, ◌⊎◌, inl, inr, Bool-cases,
}
use ingress2gateway.Base.Dict.{lookup_or}
use ingress2gateway.Api.Field.{FieldPath, Result, ok, err, not_found}
use ingress2gateway.Api.Ingress.{HttpIngressPath, IngressBackend, ServiceBackend}
use ingress2gateway.Common.Backends.{ServicePorts, to_backend_ref}
use ingress2gateway.Common.Backends.Laws.{resolved_port, missing_port, to_backend_ref_fails}
use ingress2gateway.Api.Gateway.{HttpRouteMatch, HttpRouteRule, GrpcRouteRule}
use ingress2gateway.ProviderIr.{BackendSource}
use ingress2gateway.Common.Paths.{
  RuleSource, IngressPath, OrderedPaths, get_path_match_key, group_ingress_paths_by_match_key,
}
use ingress2gateway.Common.Paths.Grouping.{
  all_paths, group_ingress_paths_entries, group_ingress_paths_nonempty,
}
use ingress2gateway.Common.Aggregator.{RuleGroup}
use ingress2gateway.Common.Routes.{
  Made, PathConverter, match_of_type, to_http_route_match, configure_backend_ref, path_field,
  backends_if_matched, http_rule_of, http_rules, to_http_route, grpc_rule_of, grpc_rules,
  to_grpc_route,
}

-- A backend has a service or a resource.
abbrev pub IsBackend : IngressBackend → Type 0
IsBackend b = (b.service ≢ none) ⊎ (b.resource ≢ none)

-- The path types that the Ingress API knows.
abbrev pub IsPathType : Option String → Type 0
IsPathType t =
    (t ≡ none) ⊎ ((t ≡ some "Prefix") ⊎ ((t ≡ some "Exact") ⊎ (t ≡ some "ImplementationSpecific")))

abbrev pub IsPath : IngressPath → Type 0
IsPath p = IsBackend p.path.backend × IsPathType p.path.path_type

pub to_backend_ref-Returns :
    (namespace : String) (b : IngressBackend) (service_ports : ServicePorts) (path : FieldPath)
    → IsBackend b
    → Returns (to_backend_ref namespace b service_ports path)
to_backend_ref-Returns namespace b service_ports path h =
    Returns-of_not_panic _ (λ p. neither h (fails.0.0 p))
  where
    fails :
        ((to_backend_ref namespace b service_ports path ≡ panic)
          ↔ ((b.service ≡ none) × (b.resource ≡ none)))
        × ((to_backend_ref namespace b service_ports path ≡ done (err (not_found path))) ↔ (
            (s : ServiceBackend) × (b.service ≡ some s)
            × (resolved_port service_ports namespace s ≡ none)
            × (not_found path ≡ missing_port s path)))
    fails = to_backend_ref_fails service_ports namespace b path (not_found path)

    neither : IsBackend b → (b.service ≡ none) × (b.resource ≡ none) → ⊥
    neither (inl s) (no_s, no_r) = s no_s
    neither (inr r) (no_s, no_r) = r no_r

match_of_type-Returns :
    (p : HttpIngressPath) (path : FieldPath) (convert : PathConverter) (t : Option String)
    → IsPathType t
    → Returns (match_of_type p path convert t)
unfolding match_of_type
match_of_type-Returns p path convert none h = (_, refl)
match_of_type-Returns p path convert (some t) h =
    Returns-of_not_panic _
      (ground (arith, eq_iff t "Prefix", eq_iff t "Exact", eq_iff t "ImplementationSpecific"))

module _ (namespace : String) (service_ports : ServicePorts) (convert : PathConverter) where
  configure_backend_ref-Returns :
      (i : ℕ) (paths : List IngressPath)
      → All IsPath paths
      → Returns (configure_backend_ref namespace service_ports i paths)
  unfolding configure_backend_ref
  configure_backend_ref-Returns i [] h = (_, refl)
  configure_backend_ref-Returns i (p ∷ paths) ((b, _), h) =
      >>=-Returns _ _ (to_backend_ref-Returns namespace p.path.backend service_ports _ b)
        λ r. >>=-Returns _ _ (configure_backend_ref-Returns (i + 1) paths h) λ rest. (_, refl)

  backends_if_matched-Returns :
      (m : Result HttpRouteMatch) (paths : List IngressPath)
      → All IsPath paths
      → Returns (backends_if_matched m namespace service_ports paths)
  unfolding backends_if_matched
  backends_if_matched-Returns (err e) paths h = (_, refl)
  backends_if_matched-Returns (ok m) paths h = configure_backend_ref-Returns 0 paths h

  http_rule_of-Returns :
      (paths : List IngressPath) (rest : Made HttpRouteRule (List BackendSource))
      → paths ≢ []
      → All IsPath paths
      → Returns (http_rule_of namespace service_ports convert paths rest)
  unfolding http_rule_of to_http_route_match
  http_rule_of-Returns [] rest h a = absurd (h refl)
  http_rule_of-Returns (p ∷ paths) rest h a =
      >>=-Returns _ _ (match_of_type-Returns p.path (path_field p) convert p.path.path_type a.0.1)
        λ m. >>=-Returns _ _ (backends_if_matched-Returns m (p ∷ paths) a) λ made. (_, refl)

  grpc_rule_of-Returns :
      (paths : List IngressPath) (rest : Made GrpcRouteRule (List BackendSource))
      → paths ≢ []
      → All IsPath paths
      → Returns (grpc_rule_of namespace service_ports paths rest)
  unfolding grpc_rule_of
  grpc_rule_of-Returns [] rest h a = absurd (h refl)
  grpc_rule_of-Returns (p ∷ paths) rest h a =
      >>=-Returns _ _ (configure_backend_ref-Returns 0 (p ∷ paths) a) λ made. (_, refl)

  -- A key has paths, all of which are good.
  abbrev IsGoodKey : OrderedPaths → String → Type 0
  IsGoodKey groups k =
      (lookup_or [] k groups.entries ≢ []) × All IsPath (lookup_or [] k groups.entries)

  http_rules-Returns :
      (groups : OrderedPaths) (keys : List String)
      → All (IsGoodKey groups) keys
      → Returns (http_rules namespace service_ports convert groups keys)
  unfolding http_rules
  http_rules-Returns groups [] h = (_, refl)
  http_rules-Returns groups (k ∷ keys) (g, h) =
      >>=-Returns _ _ (http_rules-Returns groups keys h)
        λ rest. http_rule_of-Returns (lookup_or [] k groups.entries) rest g.0 g.1

  grpc_rules-Returns :
      (groups : OrderedPaths) (keys : List String)
      → All (IsGoodKey groups) keys
      → Returns (grpc_rules namespace service_ports groups keys)
  unfolding grpc_rules
  grpc_rules-Returns groups [] h = (_, refl)
  grpc_rules-Returns groups (k ∷ keys) (g, h) =
      >>=-Returns _ _ (grpc_rules-Returns groups keys h)
        λ rest. grpc_rule_of-Returns (lookup_or [] k groups.entries) rest g.0 g.1

All-keep {ℓ} :
    {A : Type ℓ} (P : A → Type 0) (q : A → Bool) (xs : List A) → All P xs → All P (keep q xs)
All-keep P q [] h = tt
All-keep P q (x ∷ xs) (p, h) = elim (Bool-cases (q x)) [
  | inl kept ↦ rw kept (p, All-keep P q xs h)
  | inr left ↦ rw left (All-keep P q xs h)
]

good_keys :
    (namespace : String) (service_ports : ServicePorts) (convert : PathConverter)
    (rules : List RuleSource)
    → All IsPath (all_paths 0 rules)
    → All
        (IsGoodKey namespace service_ports convert (group_ingress_paths_by_match_key rules))
        (group_ingress_paths_by_match_key rules).keys
good_keys namespace service_ports convert rules h = All-of_contains _ _ λ k e. (
  group_ingress_paths_nonempty rules k e,
  rw (group_ingress_paths_entries rules k)
      (All-keep IsPath (λ p. get_path_match_key p == k) (all_paths 0 rules) h),
)

-- The translation of a group returns and does not panic, if each of its paths has a backend and
-- a path type that the Ingress API knows, or none.
pub to_route-Returns :
    (rg : RuleGroup) (service_ports : ServicePorts) (convert : PathConverter)
    → All IsPath (all_paths 0 rg.rules)
    → Returns (to_http_route rg service_ports convert) × Returns (to_grpc_route rg service_ports)
unfolding to_http_route to_grpc_route
to_route-Returns rg service_ports convert h =
    let groups = group_ingress_paths_by_match_key rg.rules in
    let keys = good_keys rg.namespace service_ports convert rg.rules h in
    (
      >>=-Returns _ _
          (http_rules-Returns rg.namespace service_ports convert groups groups.keys keys)
          (λ made. (_, refl)),
      >>=-Returns _ _
          (grpc_rules-Returns rg.namespace service_ports convert groups groups.keys keys)
          (λ made. (_, refl)),
    )
