-- ===== src/Common/Routes/Sources.antt =====
-- The sources that stand beside the rules of a route: the jth source of the ith rule is the
-- source of the jth backend of that rule, and a route without errors has them all.
use mathlib.Core.Path.{subst, ap₂}
use ingress2gateway.Base.{
  ℕ, ◌+◌, ◌≡◌, refl, sym, ap, ◌∙◌, List, [], ◌∷◌, ◌++◌, map, String, string_comparable, done,
  >>=-eq-done, eq_of_done-eq, Pointwise,
}
use ingress2gateway.Base.Dict.{lookup_or}
use ingress2gateway.Api.Field.{FieldPath, new_path, index, FieldError, Result, ok, err}
use ingress2gateway.Api.Gateway.{
  BackendRef, HttpRouteMatch, HttpRouteRule, HttpRoute, GrpcRoute, GrpcRouteRule,
}
use ingress2gateway.ProviderIr.{BackendSource}
use ingress2gateway.Common.Backends.{ServicePorts, to_backend_ref}
use ingress2gateway.Common.Backends.Laws.{Refers, to_backend_ref-Refers}
use ingress2gateway.Common.Paths.{IngressPath, OrderedPaths, group_ingress_paths_by_match_key}
use ingress2gateway.Common.Aggregator.{RuleGroup}
use ingress2gateway.Common.Routes.{
  PathConverter, to_http_route_match, to_grpc_route_match, Made, path_source, add_backend,
  configure_backend_ref, path_field, add_http_rule, backends_if_matched, http_rule_of, http_rules,
  WithSources, to_http_route, grpc_matches, add_grpc_rule, grpc_rule_of, grpc_rules, to_grpc_route,
}

module _ (service_ports : ServicePorts) (namespace : String) where
  -- The reference is the one that the backend of the path asks for.
  abbrev pub IsBackendOf : IngressPath → BackendRef → Type 0
  IsBackendOf p r = Refers service_ports namespace p.path.backend r

  abbrev BackendsDone : List IngressPath → Made BackendRef BackendSource → Type 0
  BackendsDone paths made =
      made.errors ≡ []
      → Pointwise IsBackendOf paths made.items × (made.sources ≡ map path_source paths)

  add_backend-BackendsDone :
      (p : IngressPath) (paths : List IngressPath) (path : FieldPath) (r : Result BackendRef)
      (rest : Made BackendRef BackendSource)
      → to_backend_ref namespace p.path.backend service_ports path ≡ done r
      → BackendsDone paths rest
      → BackendsDone (p ∷ paths) (add_backend p r rest)
  unfolding add_backend
  add_backend-BackendsDone p paths path (err e) rest q h none_left = cc
  add_backend-BackendsDone p paths path (ok r) rest q h none_left =
      let (refs, srcs) = h none_left in
      (
        (to_backend_ref-Refers service_ports namespace p.path.backend path r q, refs),
        ap (λ l. path_source p ∷ l) srcs,
      )

  configure_backend_ref-BackendsDone :
      (i : ℕ) (paths : List IngressPath) (made : Made BackendRef BackendSource)
      → configure_backend_ref namespace service_ports i paths ≡ done made
      → BackendsDone paths made
  unfolding configure_backend_ref
  configure_backend_ref-BackendsDone i [] made h =
      subst (BackendsDone []) (eq_of_done-eq h) (λ _. (tt, refl))
  configure_backend_ref-BackendsDone i (p ∷ paths) made h =
      let (r, is_r, h1) =
        >>=-eq-done
          (to_backend_ref namespace p.path.backend service_ports
            (index (new_path ("paths" ∷ "backends" ∷ [])) i))
          _ h in
      let (rest, is_rest, h2) =
        >>=-eq-done (configure_backend_ref namespace service_ports (i + 1) paths) _ h1 in
      subst (BackendsDone (p ∷ paths)) (eq_of_done-eq h2) (
        add_backend-BackendsDone p paths _ r rest is_r
          (configure_backend_ref-BackendsDone (i + 1) paths rest is_rest))

pub append-eq-nil {ℓ} : {A : Type ℓ} (xs ys : List A) → xs ++ ys ≡ [] → (xs ≡ []) × (ys ≡ [])
append-eq-nil [] ys h = (refl, h)
append-eq-nil (x ∷ xs) ys h = cc

-- The paths of each key, in the order of the keys.
abbrev pub path_groups : OrderedPaths → List String → List (List IngressPath)
path_groups groups keys = map (λ k. lookup_or [] k groups.entries) keys

module _ (service_ports : ServicePorts) (namespace : String) (convert : PathConverter) where
  -- The rule matches as its first path says, and has one backend for each of the paths.
  abbrev pub IsHttpRuleOf : List IngressPath → HttpRouteRule → Type 0
  IsHttpRuleOf paths rule =
      (p : IngressPath) × (others : List IngressPath) × (m : HttpRouteMatch) × (paths ≡ p ∷ others)
      × (to_http_route_match p.path (path_field p) convert ≡ done (ok m))
      × (rule.matches ≡ m ∷ [])
      × Pointwise (IsBackendOf service_ports namespace) paths rule.backend_refs

  abbrev RulesDone : List (List IngressPath) → Made HttpRouteRule (List BackendSource) → Type 0
  RulesDone groups made =
      made.errors ≡ []
      → Pointwise IsHttpRuleOf groups made.items
        × (made.sources ≡ map (λ g. map path_source g) groups)

  add_http_rule-RulesDone :
      (p : IngressPath) (paths : List IngressPath) (groups : List (List IngressPath))
      (m : Result HttpRouteMatch) (made : Made BackendRef BackendSource)
      (rest : Made HttpRouteRule (List BackendSource))
      → to_http_route_match p.path (path_field p) convert ≡ done m
      → backends_if_matched m namespace service_ports (p ∷ paths) ≡ done made
      → RulesDone groups rest
      → RulesDone ((p ∷ paths) ∷ groups) (add_http_rule m made rest)
  unfolding add_http_rule backends_if_matched
  add_http_rule-RulesDone p paths groups (err e) made rest is_m is_made h none_left = cc
  add_http_rule-RulesDone p paths groups (ok m) made rest is_m is_made h none_left =
      let (here, later) = append-eq-nil made.errors rest.errors none_left in
      let (refs, srcs) =
        configure_backend_ref-BackendsDone service_ports namespace 0 (p ∷ paths) made is_made
          here in
      let (rules, sources) = h later in
      (((p, paths, m, refl, is_m, refl, refs), rules), ap₂ (λ a b. a ∷ b) srcs sources)

  http_rule_of-RulesDone :
      (group : List IngressPath) (groups : List (List IngressPath))
      (rest made : Made HttpRouteRule (List BackendSource))
      → RulesDone groups rest
      → http_rule_of namespace service_ports convert group rest ≡ done made
      → RulesDone (group ∷ groups) made
  unfolding http_rule_of
  http_rule_of-RulesDone [] groups rest made h e = cc
  http_rule_of-RulesDone (p ∷ paths) groups rest made h e =
      let (m, is_m, e1) = >>=-eq-done (to_http_route_match p.path (path_field p) convert) _ e in
      let (backends, is_made, e2) =
        >>=-eq-done (backends_if_matched m namespace service_ports (p ∷ paths)) _ e1 in
      subst (RulesDone ((p ∷ paths) ∷ groups)) (eq_of_done-eq e2)
        (add_http_rule-RulesDone p paths groups m backends rest is_m is_made h)

  http_rules-RulesDone :
      (groups : OrderedPaths) (keys : List String) (made : Made HttpRouteRule (List BackendSource))
      → http_rules namespace service_ports convert groups keys ≡ done made
      → RulesDone (path_groups groups keys) made
  unfolding http_rules
  http_rules-RulesDone groups [] made e = subst (RulesDone []) (eq_of_done-eq e) (λ _. (tt, refl))
  http_rules-RulesDone groups (key ∷ keys) made e =
      let (rest, is_rest, e1) =
        >>=-eq-done (http_rules namespace service_ports convert groups keys) _ e in
      http_rule_of-RulesDone (lookup_or [] key groups.entries) (path_groups groups keys) rest made
        (http_rules-RulesDone groups keys rest is_rest) e1

-- An HTTPRoute without errors has a rule for each key of the group's paths, in order: it matches as
-- the first path of the key says and has, for each path of the key in order, the backend that the
-- path asks for; and the sources beside the rules are those paths with their Ingresses.
pub to_http_route_sources :
    (rg : RuleGroup) (service_ports : ServicePorts) (convert : PathConverter)
    (result : WithSources HttpRoute)
    → to_http_route rg service_ports convert ≡ done (result, [])
    → let groups = group_ingress_paths_by_match_key rg.rules in
      Pointwise
        (IsHttpRuleOf service_ports rg.namespace convert)
        (path_groups groups groups.keys)
        result.route.rules
      × (result.sources ≡ map (λ g. map path_source g) (path_groups groups groups.keys))
unfolding to_http_route
to_http_route_sources rg service_ports convert result h =
    let groups = group_ingress_paths_by_match_key rg.rules in
    let (made, is_made, e) =
      >>=-eq-done (http_rules rg.namespace service_ports convert groups groups.keys) _ h in
    let (rules, sources) =
      http_rules-RulesDone service_ports rg.namespace convert groups groups.keys made is_made
        (ap (λ (x : WithSources HttpRoute × List FieldError). x.1) (eq_of_done-eq e)) in
    let same : result ≡ _ =
      sym (ap (λ (x : WithSources HttpRoute × List FieldError). x.0) (eq_of_done-eq e)) in
    (
      subst
          (λ (r : WithSources HttpRoute).
            Pointwise (IsHttpRuleOf service_ports rg.namespace convert)
              (path_groups groups groups.keys) r.route.rules)
          (sym same) rules,
      ap (λ (r : WithSources HttpRoute). r.sources) same ∙ sources,
    )

pub to_http_route_namespace :
    (rg : RuleGroup) (service_ports : ServicePorts) (convert : PathConverter)
    (r : WithSources HttpRoute × List FieldError)
    → to_http_route rg service_ports convert ≡ done r
    → r.0.route.namespace ≡ rg.namespace
unfolding to_http_route
to_http_route_namespace rg service_ports convert r h =
    let groups = group_ingress_paths_by_match_key rg.rules in
    let (made, _, e) =
      >>=-eq-done (http_rules rg.namespace service_ports convert groups groups.keys) _ h in
    sym
      (ap (λ (x : WithSources HttpRoute × List FieldError). x.0.route.namespace) (eq_of_done-eq e))

module _ (service_ports : ServicePorts) (namespace : String) where
  -- The rule matches as its first path says, and has one backend for each of the paths.
  abbrev pub IsGrpcRuleOf : List IngressPath → GrpcRouteRule → Type 0
  IsGrpcRuleOf paths rule =
      (p : IngressPath) × (others : List IngressPath) × (paths ≡ p ∷ others)
      × (rule.matches ≡ grpc_matches (to_grpc_route_match p.path))
      × Pointwise (IsBackendOf service_ports namespace) paths rule.backend_refs

  abbrev GrpcDone : List (List IngressPath) → Made GrpcRouteRule (List BackendSource) → Type 0
  GrpcDone groups made =
      made.errors ≡ []
      → Pointwise IsGrpcRuleOf groups made.items
        × (made.sources ≡ map (λ g. map path_source g) groups)

  grpc_rule_of-GrpcDone :
      (group : List IngressPath) (groups : List (List IngressPath))
      (rest made : Made GrpcRouteRule (List BackendSource))
      → GrpcDone groups rest
      → grpc_rule_of namespace service_ports group rest ≡ done made
      → GrpcDone (group ∷ groups) made
  unfolding grpc_rule_of add_grpc_rule
  grpc_rule_of-GrpcDone [] groups rest made h e = cc
  grpc_rule_of-GrpcDone (p ∷ paths) groups rest made h e =
      let (backends, is_made, e1) =
        >>=-eq-done (configure_backend_ref namespace service_ports 0 (p ∷ paths)) _ e in
      subst (GrpcDone ((p ∷ paths) ∷ groups)) (eq_of_done-eq e1) λ none_left.
        let (here, later) = append-eq-nil backends.errors rest.errors none_left in
        let (refs, srcs) =
          configure_backend_ref-BackendsDone service_ports namespace 0 (p ∷ paths) backends is_made
            here in
        let (rules, sources) = h later in
        (((p, paths, refl, refl, refs), rules), ap₂ (λ a b. a ∷ b) srcs sources)

  grpc_rules-GrpcDone :
      (groups : OrderedPaths) (keys : List String) (made : Made GrpcRouteRule (List BackendSource))
      → grpc_rules namespace service_ports groups keys ≡ done made
      → GrpcDone (path_groups groups keys) made
  unfolding grpc_rules
  grpc_rules-GrpcDone groups [] made e = subst (GrpcDone []) (eq_of_done-eq e) (λ _. (tt, refl))
  grpc_rules-GrpcDone groups (key ∷ keys) made e =
      let (rest, is_rest, e1) = >>=-eq-done (grpc_rules namespace service_ports groups keys) _ e in
      grpc_rule_of-GrpcDone (lookup_or [] key groups.entries) (path_groups groups keys) rest made
        (grpc_rules-GrpcDone groups keys rest is_rest) e1

-- A GRPCRoute without errors has a rule for each key of the group's paths, in order: it matches as
-- the first path of the key says and has, for each path of the key in order, the backend that the
-- path asks for; and the sources beside the rules are those paths with their Ingresses.
pub to_grpc_route_sources :
    (rg : RuleGroup) (service_ports : ServicePorts) (result : WithSources GrpcRoute)
    → to_grpc_route rg service_ports ≡ done (result, [])
    → let groups = group_ingress_paths_by_match_key rg.rules in
      Pointwise
        (IsGrpcRuleOf service_ports rg.namespace)
        (path_groups groups groups.keys)
        result.route.rules
      × (result.sources ≡ map (λ g. map path_source g) (path_groups groups groups.keys))
unfolding to_grpc_route
to_grpc_route_sources rg service_ports result h =
    let groups = group_ingress_paths_by_match_key rg.rules in
    let (made, is_made, e) =
      >>=-eq-done (grpc_rules rg.namespace service_ports groups groups.keys) _ h in
    let (rules, sources) =
      grpc_rules-GrpcDone service_ports rg.namespace groups groups.keys made is_made
        (ap (λ (x : WithSources GrpcRoute × List FieldError). x.1) (eq_of_done-eq e)) in
    let same : result ≡ _ =
      sym (ap (λ (x : WithSources GrpcRoute × List FieldError). x.0) (eq_of_done-eq e)) in
    (
      subst
          (λ (r : WithSources GrpcRoute).
            Pointwise (IsGrpcRuleOf service_ports rg.namespace) (path_groups groups groups.keys)
              r.route.rules)
          (sym same) rules,
      ap (λ (r : WithSources GrpcRoute). r.sources) same ∙ sources,
    )
