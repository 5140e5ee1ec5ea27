-- ===== src/Tests/Nginx.antt =====
-- The theorems of `Ingressnginx` at a route with two rules, whose Ingress has annotations.
use ingress2gateway.Base.{
  nat_comparable, ◌≡◌, refl, true, ◌&&◌, none, some, List, [], ◌∷◌, map, String, string_comparable,
  contains, distinct, Pointwise, done,
}
use ingress2gateway.Base.Dict.{Dict, lookup}
use ingress2gateway.Base.Strings.{parse_bool}
use ingress2gateway.Base.Text.{◌+++◌}
use ingress2gateway.Api.Ingress.{Ingress, NamespacedName, namespaced_name_comparable}
use ingress2gateway.Api.Gateway.{HttpRoute, HttpRouteRule, BackendRef}
use ingress2gateway.ProviderIr
use ingress2gateway.ProviderIr.{BackendSource, ProviderIr, empty_ir}
use ingress2gateway.ProviderIr.Conversion.{to_emitter_ir}
use ingress2gateway.EmitterIr.{HttpRouteContext}
use ingress2gateway.Ingressnginx.Annotations.{
  Notice, enable_cors_annotation, permanent_redirect_annotation,
}
use ingress2gateway.Ingressnginx.Sources.{is_canary_ingress}
use ingress2gateway.Ingressnginx.Regex.{Store, RouteInMemory, regex_routes}
use ingress2gateway.Ingressnginx.Regex.Laws.{IsRewritten, pointers_of, regex_routes-IsRewritten}
use ingress2gateway.Ingressnginx.Features.{apply_feature}
use ingress2gateway.Ingressnginx.Features.Cors.{cors_feature}
use ingress2gateway.Ingressnginx.Features.Cors.Entries.{HasPolicies, apply_feature-HasPolicies}
use ingress2gateway.Base.ParseInt.Digits.{decimal}
use ingress2gateway.Ingressnginx.Features.Timeouts.{parse_ingress_nginx_timeout}
use ingress2gateway.Ingressnginx.Features.Timeouts.Seconds.{
  IsTimeout, parse_ingress_nginx_timeout-IsTimeout,
}
use ingress2gateway.Ingressnginx.TrailingSlash.{
  paths_of, already_matched, existing_prefixes, path_prefix_covers,
  build_trailing_slash_redirect_rules,
}
use ingress2gateway.Ingressnginx.TrailingSlash.Segments.{
  segments_begin_with, path_prefix_covers-segments,
}
use ingress2gateway.Ingressnginx.TrailingSlash.Laws.{
  passes, rule_for, build_trailing_slash_redirect_rules-IsSources,
}
use ingress2gateway.Ingressnginx.RuleChanges.Laws.{IsChanged}
use ingress2gateway.Ingressnginx.Redirect.{ParsedUrl, parsed, redirect_feature}
use ingress2gateway.Ingressnginx.Redirect.Laws.{IsRedirected, redirect_feature-IsRedirected}
use ingress2gateway.Ingressnginx.SslRedirect.{enable_redirect, ssl_route}
use ingress2gateway.Ingressnginx.SslRedirect.Laws.{HasUpgrades, http_key, ssl_route-HasUpgrades}
use ingress2gateway.Ingressnginx.Passthrough.{strip_passthrough_rules}
use ingress2gateway.Ingressnginx.Passthrough.Laws.{IsKept, strip_passthrough_rules-IsKept}
use ingress2gateway.Tests.Data.{shop, service_backend, path_to}

abbrev annotated : Ingress
annotated = record shop {
  annotations =
      (enable_cors_annotation, "true")
      ∷ (permanent_redirect_annotation, "https://b.example/new")
      ∷ [];
}

abbrev source : BackendSource
source = record {
  ingress = some annotated;
  path = some (path_to "/cart/" (service_backend "cart" "" 80));
  default_backend = none;
}

abbrev plain_source : BackendSource
plain_source = record source { ingress = some shop }

abbrev backend : String → BackendRef
backend name = record { group = none; kind = none; name = name; port = some 80; weight = none }

abbrev rule_of : String → List BackendRef → HttpRouteRule
rule_of path refs = record {
  name = none;
  matches =
      record { path = some (record { type = some "PathPrefix"; value = some path }); headers = [] }
      ∷ [];
  filters = [];
  backend_refs = refs;
  request_timeout = none;
}

abbrev route : HttpRoute
route = record {
  namespace = "store";
  name = "shop-a-example";
  parent_refs = [];
  hostnames = "a.example" ∷ [];
  rules = rule_of "/cart/" (backend "cart" ∷ []) ∷ rule_of "/pay" (backend "pay" ∷ []) ∷ [];
}

abbrev context : ProviderIr.HttpRouteContext
context = record { route = route; rule_backend_sources = (source ∷ []) ∷ (plain_source ∷ []) ∷ [] }

abbrev key : NamespacedName
key = record { namespace = "store"; name = "shop-a-example" }

abbrev ir : ProviderIr
ir = record empty_ir { http_routes = (key, context) ∷ [] }

apply_feature_example :
    (routes : Dict NamespacedName HttpRouteContext) × (notices : List Notice) × (apply_feature
        cors_feature ir
        (to_emitter_ir ir)
      ≡ done (record (to_emitter_ir ir) { http_routes = routes }, notices))
    × ((k : NamespacedName)
        → HasPolicies
            (lookup k ir.http_routes)
            (lookup k (to_emitter_ir ir).http_routes)
            (lookup k routes))
apply_feature_example =
    apply_feature-HasPolicies ir (to_emitter_ir ir)
      ((((annotated, refl), tt), (((shop, refl), tt), tt)), tt) refl

build_trailing_slash_redirect_rules_example :
    (sources : List String) × (build_trailing_slash_redirect_rules route.rules
      ≡ done (map rule_for sources))
    × (distinct sources ≡ true)
    × ((s : String)
        → contains s sources ≡ (
            contains (s +++ "/") (already_matched (paths_of route.rules))
            && passes
                (already_matched (paths_of route.rules))
                (existing_prefixes (paths_of route.rules))
                s))
unfolding paths_of
build_trailing_slash_redirect_rules_example =
    build_trailing_slash_redirect_rules-IsSources route.rules refl

path_prefix_covers_example : path_prefix_covers "/a" "/a/b" ≡ done (segments_begin_with "/a" "/a/b")
path_prefix_covers_example = path_prefix_covers-segments "/a" "/a/b" (λ e. cc) refl

-- Two matches have one path, as after a canary by header.
abbrev store : Store
store = (7, record { type = some "PathPrefix"; value = some "/cart" }) ∷ []

abbrev routes_in_memory : List RouteInMemory
routes_in_memory =
    record { hostnames = "a.example" ∷ []; paths = (some 7 ∷ []) ∷ (some 7 ∷ []) ∷ [] } ∷ []

regex_routes_example :
    (store' : Store) × (notices : List Notice) × (regex_routes
        ("a.example" ∷ [])
        routes_in_memory
        store
      ≡ done (store', notices))
    × IsRewritten (pointers_of ("a.example" ∷ []) routes_in_memory) store store'
regex_routes_example = regex_routes-IsRewritten ("a.example" ∷ []) routes_in_memory store (
  (record { type = some "PathPrefix"; value = some "/cart" }, "/cart", refl, refl),
  ((record { type = some "PathPrefix"; value = some "/cart" }, "/cart", refl, refl), tt),
)

abbrev parse_url : String → ParsedUrl
parse_url s = parsed (record { scheme = "https"; hostname = "b.example"; port = ""; path = "/new" })

redirect_feature_example :
    (routes : Dict NamespacedName ProviderIr.HttpRouteContext) × (notices : List Notice)
    × (redirect_feature parse_url ir ≡ done (record ir { http_routes = routes }, notices))
    × Pointwise (IsChanged IsRedirected) ir.http_routes routes
redirect_feature_example =
    redirect_feature-IsRedirected parse_url ir
      ((((annotated, refl), tt), (((shop, refl), tt), tt)), tt)

abbrev emitter_context : HttpRouteContext
emitter_context = record {
  route = route;
  tcp_timeouts_by_rule_idx = [];
  path_rewrite_by_rule_idx = [];
  body_size_by_rule_idx = [];
  cors_policy_by_rule_idx = [];
  ip_range_control_by_rule_idx = [];
}

ssl_route_example :
    (routes : Dict NamespacedName HttpRouteContext) × (ssl_route
        ("a.example" ∷ [])
        key
        context
        ((key, emitter_context) ∷ [])
        (some emitter_context)
      ≡ done routes)
    × HasUpgrades (lookup (http_key route) routes)
unfolding enable_redirect paths_of is_canary_ingress parse_bool
ssl_route_example =
    ssl_route-HasUpgrades key route ((key, emitter_context) ∷ []) refl refl ("a.example" ∷ [])
      context emitter_context refl
      ((((annotated, refl), tt), refl), ((((shop, refl), tt), refl), tt)) refl

parse_ingress_nginx_timeout_example :
    IsTimeout (decimal "9223372037") (parse_ingress_nginx_timeout "9223372037")
parse_ingress_nginx_timeout_example = parse_ingress_nginx_timeout-IsTimeout "9223372037" refl refl

strip_passthrough_rules_example :
    Pointwise
      (IsKept (key ∷ []))
      (strip_passthrough_rules (key ∷ []) context).route.rules
      (strip_passthrough_rules (key ∷ []) context).rule_backend_sources
strip_passthrough_rules_example =
    strip_passthrough_rules-IsKept (key ∷ []) context (refl, (refl, tt))
