-- ===== src/Ingressnginx/RuleChanges.antt =====
-- The loop over the rules of every HTTPRoute that `redirectFeature` and `headerModifierFeature` of
-- pkg/i2gw/providers/ingressnginx share: a change of a rule by the annotations of its Ingress.
pub mod Laws
use ingress2gateway.Base.{Option, none, some, List, [], ◌∷◌, ◌++◌, Go, done, ◌>>=◌}
use ingress2gateway.Base.Dict.{Dict}
use ingress2gateway.Api.Ingress.{Ingress, NamespacedName}
use ingress2gateway.Api.Gateway.{HttpRouteRule}
use ingress2gateway.ProviderIr.{ProviderIr, BackendSource, HttpRouteContext}
use ingress2gateway.Ingressnginx.Annotations.{Notice}
use ingress2gateway.Ingressnginx.Sources.{get_non_canary_ingress}

abbrev pub Change : Type 0
Change = Ingress → HttpRouteRule → HttpRouteRule × List Notice

abbrev pub changed_by : Change → HttpRouteRule → Option Ingress → HttpRouteRule × List Notice
changed_by change rule none = (rule, [])
changed_by change rule (some ingress) = change ingress rule

-- Rules beyond the sources stay as they are.
unfoldable pub change_each_rule :
    Change → List HttpRouteRule → List (List BackendSource) → Go (List HttpRouteRule × List Notice)
change_each_rule change [] sources = done ([], [])
change_each_rule change (rule ∷ rules) [] = done (rule ∷ rules, [])
change_each_rule change (rule ∷ rules) (srcs ∷ sources) = get_non_canary_ingress srcs >>= λ found.
    change_each_rule change rules sources >>= λ y.
    let x = changed_by change rule found in done (x.0 ∷ y.0, x.1 ++ y.1)

unfoldable pub change_each_route :
    Change
    → Dict NamespacedName HttpRouteContext
    → Go (Dict NamespacedName HttpRouteContext × List Notice)
unfolding change_each_rule
change_each_route change [] = done ([], [])
change_each_route change ((key, c) ∷ routes) =
    change_each_rule change c.route.rules c.rule_backend_sources >>= λ x.
    change_each_route change routes >>= λ y.
    done ((key, record c { route = record c.route { rules = x.0 } }) ∷ y.0, x.1 ++ y.1)

unfoldable pub change_ir : Change → ProviderIr → Go (ProviderIr × List Notice)
unfolding change_each_route
change_ir change ir =
    change_each_route change ir.http_routes >>= λ y. done (record ir { http_routes = y.0 }, y.1)
