-- ===== src/Ingressnginx/RuleChanges/Laws.antt =====
-- A relation between rules that every change makes holds between the rules of every HTTPRoute
-- before and after the loop.
use ingress2gateway.Base.{
  ◌≡◌, refl, ap, Option, none, some, List, [], ◌∷◌, ◌++◌, done, ◌>>=◌, All, Pointwise,
}
use ingress2gateway.Base.Dict.{Dict}
use ingress2gateway.Api.Ingress.{Ingress, NamespacedName}
use ingress2gateway.Api.Gateway.{HttpRouteRule}
use ingress2gateway.ProviderIr.{ProviderIr, BackendSource, HttpRouteContext}
use ingress2gateway.Ingressnginx.Annotations.{Notice}
use ingress2gateway.Ingressnginx.Sources.Laws.{HasIngress, main_ingress, get_non_canary_ingress_lem}
use ingress2gateway.Ingressnginx.Features.Laws.{HasIngresses}
use ingress2gateway.Ingressnginx.RuleChanges.{
  Change, changed_by, change_each_rule, change_each_route, change_ir,
}

module _ (R : HttpRouteRule → HttpRouteRule → Type 0) where
  -- A route before and after: its key, and what is not a rule, stays.
  abbrev pub IsChanged :
      NamespacedName × HttpRouteContext → NamespacedName × HttpRouteContext → Type 0
  IsChanged (key, c) (key', c') =
      (rules : List HttpRouteRule) × (key' ≡ key)
      × (c' ≡ record c { route = record c.route { rules = rules } })
      × Pointwise R c.route.rules rules

module _ (change : Change) (R : HttpRouteRule → HttpRouteRule → Type 0)
    (same : (rule : HttpRouteRule) → R rule rule)
    (changed : (ingress : Ingress) (rule : HttpRouteRule) → R rule (change ingress rule).0) where
  changed_by_lem : (rule : HttpRouteRule) (o : Option Ingress) → R rule (changed_by change rule o).0
  changed_by_lem rule none = same rule
  changed_by_lem rule (some ingress) = changed ingress rule

  all_same : (rules : List HttpRouteRule) → Pointwise R rules rules
  all_same [] = tt
  all_same (rule ∷ rules) = (same rule, all_same rules)

  pub change_each_rule-Pointwise :
      (rules : List HttpRouteRule) (sources : List (List BackendSource))
      → All (All HasIngress) sources
      → (rules' : List HttpRouteRule) × (notices : List Notice) × (change_each_rule change rules
            sources
          ≡ done (rules', notices))
        × Pointwise R rules rules'
  unfolding change_each_rule
  change_each_rule-Pointwise [] sources h = ([], [], refl, tt)
  change_each_rule-Pointwise (rule ∷ rules) [] h =
      (rule ∷ rules, [], refl, (same rule, all_same rules))
  change_each_rule-Pointwise (rule ∷ rules) (srcs ∷ sources) (q, h) =
      let (rules', notices, e, related) = change_each_rule-Pointwise rules sources h in
      let x = changed_by change rule (main_ingress srcs) in
      (
        x.0 ∷ rules',
        x.1 ++ notices,
        rw (get_non_canary_ingress_lem srcs q)
            (ap (λ m. m >>= λ y. done (x.0 ∷ y.0, x.1 ++ y.1)) e),
        (changed_by_lem rule (main_ingress srcs), related),
      )

  change_each_route-Pointwise :
      (routes : Dict NamespacedName HttpRouteContext)
      → All HasIngresses routes
      → (routes' : Dict NamespacedName HttpRouteContext) × (notices : List Notice)
        × (change_each_route change routes ≡ done (routes', notices))
        × Pointwise (IsChanged R) routes routes'
  unfolding change_each_route
  change_each_route-Pointwise [] h = ([], [], refl, tt)
  change_each_route-Pointwise ((key, c) ∷ routes) (q, h) =
      let (rules, first, e, related) =
        change_each_rule-Pointwise c.route.rules c.rule_backend_sources q in
      let (routes', later, f, others) = change_each_route-Pointwise routes h in
      (
        (key, record c { route = record c.route { rules = rules } }) ∷ routes',
        first ++ later,
        rw (e, f) refl,
        ((rules, refl, refl, related), others),
      )

  pub change_ir-Pointwise :
      (ir : ProviderIr)
      → All HasIngresses ir.http_routes
      → (routes : Dict NamespacedName HttpRouteContext) × (notices : List Notice) × (change_ir
            change ir
          ≡ done (record ir { http_routes = routes }, notices))
        × Pointwise (IsChanged R) ir.http_routes routes
  unfolding change_ir
  change_ir-Pointwise ir h =
      let (routes, notices, e, related) = change_each_route-Pointwise ir.http_routes h in
      (routes, notices, ap (λ m. m >>= λ y. done (record ir { http_routes = y.0 }, y.1)) e, related)
