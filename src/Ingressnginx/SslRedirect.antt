-- ===== src/Ingressnginx/SslRedirect.antt =====
-- pkg/i2gw/providers/ingressnginx/redirect.go: `addSSLAndTrailingSlashRedirects`. The parent
-- references of a route are changed in a slice that the provider IR shares; nothing reads them
-- there before their port and section are overwritten.
pub mod Laws
use ingress2gateway.Base.{
  ℕ, Bool, true, false, ◌||◌, not, Option, none, some, List, [], ◌∷◌, ◌++◌, map, String,
  string_comparable, ◌==◌, contains, if◌then◌else◌, Go, done, panic, ◌>>=◌,
}
use ingress2gateway.Base.Int.{ℤ, pos}
use ingress2gateway.Base.Dict.{Dict, lookup, insert}
use ingress2gateway.Base.Text.{◌+++◌}
use ingress2gateway.Base.Strings.{parse_bool, bool_or_false}
use ingress2gateway.Api.Ingress.{Ingress, IngressTls, NamespacedName, namespaced_name_comparable}
use ingress2gateway.Api.Gateway.{
  HttpRoute, HttpRouteRule, HttpRouteFilter, RequestRedirect, ParentRef,
}
use ingress2gateway.ProviderIr
use ingress2gateway.ProviderIr.{BackendSource}
use ingress2gateway.EmitterIr.{EmitterIr, HttpRouteContext}
use ingress2gateway.Common.Names.{name_from_host}
use ingress2gateway.Ingressnginx.Annotations.{annotation?, ssl_redirect_annotation}
use ingress2gateway.Ingressnginx.Sources.{get_non_canary_ingress}
use ingress2gateway.Ingressnginx.Regex.{hosts_of_rules, has_host_in}
use ingress2gateway.Ingressnginx.Redirect.{redirect_filter}
use ingress2gateway.Ingressnginx.TrailingSlash.{build_trailing_slash_redirect_rules}

-- The loop over the TLS entries of an Ingress, which the first entry without hosts ends.
abbrev pub tls_hosts : List String → List IngressTls → List String
tls_hosts rule_hosts [] = []
tls_hosts rule_hosts (t ∷ ts) =
    let rest = tls_hosts rule_hosts ts in
    elim t.hosts [ [] ↦ rule_hosts | h ∷ hs ↦ (h ∷ hs) ++ rest ]

-- `hostsWithTLS`: the keys of the map, which may repeat here.
unfoldable pub hosts_with_tls : List Ingress → List String
hosts_with_tls [] = []
hosts_with_tls (ing ∷ ingresses) =
    tls_hosts (hosts_of_rules ing.rules) ing.tls ++ hosts_with_tls ingresses

abbrev pub redirects_by : Option String → Bool
redirects_by none = true
redirects_by (some val) = bool_or_false (parse_bool val)

-- `enableRedirect`
unfoldable pub enable_redirect : Ingress → Bool
enable_redirect ingress = redirects_by (annotation? ssl_redirect_annotation ingress)

abbrev pub ssl_rule : HttpRouteRule → HttpRouteRule
ssl_rule rule = record {
  name = none;
  matches = rule.matches;
  filters =
      redirect_filter (record {
        scheme = some "https";
        hostname = none;
        port = none;
        path = none;
        status_code = some (pos 308);
      })
      ∷ [];
  backend_refs = [];
  request_timeout = none;
}

-- `httpRules` and `hasRedirect`.
pub record SslRules : Type 0 where
  pub rules : List HttpRouteRule
  pub has_redirect : Bool

abbrev pub add_ssl_rule : HttpRouteRule → Option Ingress → SslRules → SslRules
add_ssl_rule rule none s = s
add_ssl_rule rule (some ingress) s =
    if enable_redirect ingress
    then record { rules = ssl_rule rule ∷ s.rules; has_redirect = true }
    else record { rules = rule ∷ s.rules; has_redirect = s.has_redirect }

-- The loop over the sources, with the rules of the emitter's route.
unfoldable pub ssl_rules : List (List BackendSource) → List HttpRouteRule → Go SslRules
unfolding enable_redirect
ssl_rules [] rules = done (record { rules = []; has_redirect = false })
ssl_rules (srcs ∷ sources) [] = get_non_canary_ingress srcs >>= λ found. ssl_rules sources []
ssl_rules (srcs ∷ sources) (rule ∷ rules) = get_non_canary_ingress srcs >>= λ found.
    ssl_rules sources rules >>= λ s. done (add_ssl_rule rule found s)

-- `combinedRule.Filters[0].RequestRedirect.Scheme = ptr.To("https")`
abbrev pub https_redirect : HttpRouteFilter → Option RequestRedirect → Go HttpRouteFilter
https_redirect f none = panic
https_redirect f (some r) =
    done (record f { request_redirect = some (record r { scheme = some "https" }) })

abbrev pub https_filters : List HttpRouteFilter → Go (List HttpRouteFilter)
https_filters [] = panic
https_filters (f ∷ fs) = https_redirect f f.request_redirect >>= λ f'. done (f' ∷ fs)

unfoldable pub combined_rules : List HttpRouteRule → Go (List HttpRouteRule)
combined_rules [] = done []
combined_rules (r ∷ rs) = https_filters r.filters >>= λ filters.
    combined_rules rs >>= λ rs'. done (record r { filters = filters } ∷ rs')

abbrev pub bind_to_port : ℕ → ParentRef → ParentRef
bind_to_port port p = record p { port = some port }

-- `redirectRoute`
abbrev pub http_route : HttpRoute → List HttpRouteRule → HttpRoute
http_route route rules = record {
  namespace = route.namespace;
  name = route.name +++ "-http";
  parent_refs = map (bind_to_port 80) route.parent_refs;
  hostnames = route.hostnames;
  rules = rules;
}

abbrev pub bare_context : HttpRoute → HttpRouteContext
bare_context route = record {
  route = route;
  tcp_timeouts_by_rule_idx = [];
  path_rewrite_by_rule_idx = [];
  body_size_by_rule_idx = [];
  cors_policy_by_rule_idx = [];
  ip_range_control_by_rule_idx = [];
}

-- The route is bound to port 443, and to the listener of its first hostname.
abbrev pub bind_to_https : List String → ParentRef → ParentRef
bind_to_https [] p = record p { port = some 443 }
bind_to_https (h ∷ hs) p = record p {
  port = some 443;
  section_name = some (name_from_host h +++ "-https");
}

abbrev pub https_context : HttpRouteContext → HttpRouteContext
https_context e = record e {
  route = record e.route {
    parent_refs = map (bind_to_https e.route.hostnames) e.route.parent_refs;
  };
}

abbrev pub with_rules : HttpRouteContext → List HttpRouteRule → HttpRouteContext
with_rules e rules = record e { route = record e.route { rules = e.route.rules ++ rules } }

-- The route with its trailing slash rules; a host with TLS, if some rule redirects, gets the two
-- routes for the two ports.
abbrev pub split_route :
    NamespacedName
    → HttpRoute
    → List HttpRouteRule
    → Dict NamespacedName HttpRouteContext
    → HttpRouteContext
    → SslRules
    → Go (Dict NamespacedName HttpRouteContext)
split_route key route trailing routes e s =
    let plain = insert key e routes in
    let split = combined_rules trailing >>= λ combined.
    let http = http_route route (s.rules ++ combined) in
    done (
      insert key (https_context e) (
        insert (record { namespace = http.namespace; name = http.name }) (bare_context http)
          routes)) in
    if s.has_redirect then split else done plain

abbrev pub ssl_route :
    List String
    → NamespacedName
    → ProviderIr.HttpRouteContext
    → Dict NamespacedName HttpRouteContext
    → Option HttpRouteContext
    → Go (Dict NamespacedName HttpRouteContext)
ssl_route hosts key p routes none = done routes
ssl_route hosts key p routes (some e) =
    build_trailing_slash_redirect_rules e.route.rules >>= λ trailing.
    let e' = with_rules e trailing in
    let tls = ssl_rules p.rule_backend_sources e'.route.rules >>= λ s.
    split_route key p.route trailing routes e' s in
    if has_host_in hosts p.route.hostnames then tls else done (insert key e' routes)

unfoldable pub ssl_routes :
    List String
    → Dict NamespacedName ProviderIr.HttpRouteContext
    → Dict NamespacedName HttpRouteContext
    → Go (Dict NamespacedName HttpRouteContext)
unfolding ssl_rules combined_rules
ssl_routes hosts [] routes = done routes
ssl_routes hosts ((key, p) ∷ ps) routes =
    ssl_route hosts key p routes (lookup key routes) >>= λ routes'. ssl_routes hosts ps routes'

-- `addSSLAndTrailingSlashRedirects`
unfoldable pub add_ssl_and_trailing_slash_redirects :
    List Ingress → ProviderIr.ProviderIr → EmitterIr → Go EmitterIr
unfolding hosts_with_tls ssl_routes
add_ssl_and_trailing_slash_redirects ingresses pir eir =
    ssl_routes (hosts_with_tls ingresses) pir.http_routes eir.http_routes >>= λ routes.
    done (record eir { http_routes = routes })
