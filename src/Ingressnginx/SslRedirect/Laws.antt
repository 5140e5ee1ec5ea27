-- ===== src/Ingressnginx/SslRedirect/Laws.antt =====
-- What the route for port 80 does, if no Ingress of its rules opts out of the redirect.
use ingress2gateway.Base.{
  ◌≡◌, refl, ◌∙◌, true, false, inl, inr, Bool-cases, Option, none, some, List, [], ◌∷◌, ◌++◌, map,
  String, string_comparable, contains, done, All, All-append, ◌==◌, ==_refl,
}
use ingress2gateway.Base.Int.{pos}
use ingress2gateway.Base.Dict.{Dict, lookup, insert, lookup-insert}
use ingress2gateway.Base.Text.{◌+++◌}
use ingress2gateway.Api.Ingress.{Ingress, NamespacedName, namespaced_name_comparable}
use ingress2gateway.Api.Gateway.{HttpRoute, HttpRouteRule, RequestRedirect}
use ingress2gateway.ProviderIr
use ingress2gateway.ProviderIr.{BackendSource}
use ingress2gateway.EmitterIr.{HttpRouteContext}
use ingress2gateway.Ingressnginx.Sources.Laws.{HasIngress, main_ingress, get_non_canary_ingress_lem}
use ingress2gateway.Ingressnginx.Regex.{has_host_in}
use ingress2gateway.Ingressnginx.Redirect.{redirect_filter}
use ingress2gateway.Ingressnginx.TrailingSlash.{existing_prefixes, paths_of}
use ingress2gateway.Ingressnginx.TrailingSlash.Laws.{
  rule_for, build_trailing_slash_redirect_rules-IsSources,
}
use ingress2gateway.Ingressnginx.SslRedirect.{
  enable_redirect, SslRules, add_ssl_rule, ssl_rules, combined_rules, http_route, bare_context,
  https_context, with_rules, split_route, ssl_route,
}

-- A rule without backends whose only filter redirects to HTTPS.
abbrev pub IsUpgrade : HttpRouteRule → Type 0
IsUpgrade rule =
    (r : RequestRedirect) × (rule.backend_refs ≡ [])
    × (rule.filters ≡ redirect_filter r ∷ [])
    × (r.scheme ≡ some "https")

abbrev pub IsRedirecting : Option Ingress → Type 0
IsRedirecting none = Unit
IsRedirecting (some ingress) = enable_redirect ingress ≡ true

-- Every source has an Ingress, and the one that counts does not opt out.
abbrev pub Redirects : List BackendSource → Type 0
Redirects srcs = All HasIngress srcs × IsRedirecting (main_ingress srcs)

add_ssl_rule-IsUpgrade :
    (rule : HttpRouteRule) (o : Option Ingress) (s : SslRules)
    → IsRedirecting o
    → All IsUpgrade s.rules
    → All IsUpgrade (add_ssl_rule rule o s).rules
add_ssl_rule-IsUpgrade rule none s h k = k
add_ssl_rule-IsUpgrade rule (some ingress) s h k = rw h ((_, refl, refl, refl), k)

ssl_rules-IsUpgrade :
    (sources : List (List BackendSource)) (rules : List HttpRouteRule)
    → All Redirects sources
    → (s : SslRules) × (ssl_rules sources rules ≡ done s) × All IsUpgrade s.rules
unfolding ssl_rules
ssl_rules-IsUpgrade [] rules h = (record { rules = []; has_redirect = false }, refl, tt)
ssl_rules-IsUpgrade (srcs ∷ sources) [] ((p, q), h) =
    let (s, e, k) = ssl_rules-IsUpgrade sources [] h in
    (s, rw (get_non_canary_ingress_lem srcs p) e, k)
ssl_rules-IsUpgrade (srcs ∷ sources) (rule ∷ rules) ((p, q), h) =
    let (s, e, k) = ssl_rules-IsUpgrade sources rules h in
    (
      add_ssl_rule rule (main_ingress srcs) s,
      rw (get_non_canary_ingress_lem srcs p, e) refl,
      add_ssl_rule-IsUpgrade rule (main_ingress srcs) s q k,
    )

abbrev combined_redirect : String → RequestRedirect
combined_redirect s = record {
  scheme = some "https";
  hostname = none;
  port = none;
  path = some (s +++ "/");
  status_code = some (pos 301);
}

abbrev combined_for : String → HttpRouteRule
combined_for s = record (rule_for s) { filters = redirect_filter (combined_redirect s) ∷ [] }

combined_rules-IsUpgrade :
    (sources : List String)
    → (rules : List HttpRouteRule) × (combined_rules (map rule_for sources) ≡ done rules)
      × All IsUpgrade rules
unfolding combined_rules
combined_rules-IsUpgrade [] = ([], refl, tt)
combined_rules-IsUpgrade (s ∷ sources) =
    let (rules, e, k) = combined_rules-IsUpgrade sources in
    (combined_for s ∷ rules, rw e refl, ((combined_redirect s, refl, refl, refl), k))

-- The key of the route for port 80.
abbrev pub http_key : HttpRoute → NamespacedName
http_key route = record { namespace = route.namespace; name = route.name +++ "-http" }

-- A route of the emitter IR at a key has only upgrades, if there is one.
abbrev pub HasUpgrades : Option HttpRouteContext → Type 0
HasUpgrades none = Unit
HasUpgrades (some c) = All IsUpgrade c.route.rules

module _ (key : NamespacedName) (route : HttpRoute) (routes : Dict NamespacedName HttpRouteContext)
    (other : (key == http_key route) ≡ false) (fresh : lookup (http_key route) routes ≡ none) where
  kept_free : (e : HttpRouteContext) → lookup (http_key route) (insert key e routes) ≡ none
  kept_free e = lookup-insert key (http_key route) e routes ∙ rw other fresh

  split_route-HasUpgrades :
      (sources : List String) (e : HttpRouteContext) (s : SslRules)
      → All IsUpgrade s.rules
      → (routes' : Dict NamespacedName HttpRouteContext) × (split_route key route
            (map rule_for sources)
            routes
            e
            s
          ≡ done routes')
        × HasUpgrades (lookup (http_key route) routes')
  split_route-HasUpgrades sources e s k = elim (Bool-cases s.has_redirect) [
    | inr none_redirects ↦ (insert key e routes, rw none_redirects refl, rw (kept_free e) tt)
    | inl redirects ↦
        let (combined, run, upgrades) = combined_rules-IsUpgrade sources in
        let http = bare_context (http_route route (s.rules ++ combined)) in
        (
          insert key (https_context e) (insert (http_key route) http routes),
          rw (redirects, run) refl,
          rw
              (
                lookup-insert key (http_key route) (https_context e)
                    (insert (http_key route) http routes),
                other,
                lookup-insert (http_key route) (http_key route) http routes,
                ==_refl (http_key route),
              )
              (All-append IsUpgrade s.rules combined k upgrades),
        )
  ]

  -- If no Ingress of the rules opts out, the prefixes of the route's paths are not empty, and the
  -- name of the route for port 80 is free and not that of the route, then
  -- `addSSLAndTrailingSlashRedirects` returns for a route that is in the emitter IR; and every rule
  -- of the route for port 80, if it adds one, has no backends and one filter, a redirect to HTTPS.
  pub ssl_route-HasUpgrades :
      (hosts : List String) (p : ProviderIr.HttpRouteContext) (e : HttpRouteContext)
      → p.route ≡ route
      → All Redirects p.rule_backend_sources
      → contains "" (existing_prefixes (paths_of e.route.rules)) ≡ false
      → (routes' : Dict NamespacedName HttpRouteContext) × (ssl_route hosts key p routes (some e)
          ≡ done routes')
        × HasUpgrades (lookup (http_key route) routes')
  ssl_route-HasUpgrades hosts p e same h c =
      let (sources, build, _, _) = build_trailing_slash_redirect_rules-IsSources e.route.rules c in
      let e' = with_rules e (map rule_for sources) in
      let (s, run, k) = ssl_rules-IsUpgrade p.rule_backend_sources e'.route.rules h in
      let (routes', split, upgrades) = split_route-HasUpgrades sources e' s k in
      elim (Bool-cases (has_host_in hosts p.route.hostnames)) [
        | inl tls ↦ (routes', rw (build, tls, run, same) split, upgrades)
        | inr plain ↦ (insert key e' routes, rw (build, plain) refl, rw (kept_free e') tt)
      ]
