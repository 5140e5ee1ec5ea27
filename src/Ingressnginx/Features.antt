-- ===== src/Ingressnginx/Features.antt =====
-- pkg/i2gw/providers/ingressnginx/timeouts.go, bodysize.go, iprange.go, rewrite.go and cors.go: the
-- loop over the HTTPRoutes that `applyTimeoutsToEmitterIR` and the four others have in common. A
-- feature says which map of the emitter IR it fills and what it reads from one Ingress.
pub mod Timeouts
pub mod BodySize
pub mod IpRange
pub mod Rewrite
pub mod Cors
pub mod Laws
use ingress2gateway.Base.{ℕ, Option, none, some, List, [], ◌∷◌, ◌++◌, Go, done, ◌>>=◌}
use ingress2gateway.Base.Int.{ℤ}
use ingress2gateway.Base.Dict.{Dict, lookup, insert}
use ingress2gateway.Api.Ingress.{Ingress, NamespacedName, namespaced_name_comparable}
use ingress2gateway.Api.Gateway.{HttpRouteRule}
use ingress2gateway.ProviderIr
use ingress2gateway.EmitterIr.{EmitterIr, HttpRouteContext}
use ingress2gateway.Ingressnginx.Annotations.{Notice}
use ingress2gateway.Ingressnginx.Sources.{ByRule, for_rules}

-- `get` and `set` are the feature's field of the emitter's route; `rules` is the list whose indices
-- the loop visits; `read` is the body of the loop, without an entry where it ends in `continue`.
pub record RuleFeature (A : Type 0) : Type 0 where
  pub get : HttpRouteContext → Dict ℤ (Option A)
  pub set : Dict ℤ (Option A) → HttpRouteContext → HttpRouteContext
  pub rules : ProviderIr.HttpRouteContext → HttpRouteContext → List HttpRouteRule
  pub read : ProviderIr.HttpRouteContext → Ingress → Option A × List Notice

-- The routes of the emitter IR so far, and the notices.
abbrev pub AppliedRoutes : Type 0
AppliedRoutes = Dict NamespacedName HttpRouteContext × List Notice

abbrev pub stored :
    {A : Type 0}
    → RuleFeature A
    → NamespacedName
    → HttpRouteContext
    → AppliedRoutes
    → ByRule A
    → AppliedRoutes
stored feature key e (routes, notices) (m, more) =
    (insert key (feature.set m e) routes, notices ++ more)

-- One HTTPRoute of the provider IR.
abbrev pub apply_route :
    {A : Type 0}
    → RuleFeature A
    → NamespacedName
    → ProviderIr.HttpRouteContext
    → AppliedRoutes
    → Option HttpRouteContext
    → Go AppliedRoutes
apply_route feature key p acc none = done acc
apply_route feature key p acc (some e) =
    for_rules (feature.read p) 0 (feature.get e, []) (feature.rules p e) p.rule_backend_sources
    >>= λ m. done (stored feature key e acc m)

unfoldable pub apply_routes :
    {A : Type 0}
    → RuleFeature A
    → Dict NamespacedName ProviderIr.HttpRouteContext
    → AppliedRoutes
    → Go AppliedRoutes
apply_routes feature [] acc = done acc
apply_routes feature ((key, p) ∷ routes) acc =
    apply_route feature key p acc (lookup key acc.0) >>= λ acc'. apply_routes feature routes acc'

-- A feature on the whole IR.
unfoldable pub apply_feature :
    {A : Type 0} → RuleFeature A → ProviderIr.ProviderIr → EmitterIr → Go (EmitterIr × List Notice)
unfolding apply_routes
apply_feature feature pir eir = apply_routes feature pir.http_routes (eir.http_routes, []) >>= λ r.
    done (record eir { http_routes = r.0 }, r.1)
