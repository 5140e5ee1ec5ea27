-- ===== src/Ingressnginx/AppRoot.antt =====
-- pkg/i2gw/providers/ingressnginx/approot.go. `url.Parse` of Go's net/url is a parameter; a URL is
-- absolute if it has a scheme.
use ingress2gateway.Base.{
  ℕ, zero, suc, ◌+◌, Bool, false, ◌&&◌, ◌||◌, not, Option, none, some, List, [], ◌∷◌, ◌++◌, String,
  string_comparable, ◌==◌, if◌then◌else◌, Go, done, ◌>>=◌,
}
use ingress2gateway.Base.Int.{pos}
use ingress2gateway.Base.Dict.{Dict}
use ingress2gateway.Api.Ingress.{Ingress, NamespacedName}
use ingress2gateway.Api.Gateway.{HttpRouteRule, HttpRouteMatch, HttpRouteFilter}
use ingress2gateway.ProviderIr.{ProviderIr, BackendSource, HttpRouteContext}
use ingress2gateway.Ingressnginx.Annotations.{
  Notice, warn, nonempty_annotation?, app_root_annotation,
}
use ingress2gateway.Ingressnginx.Sources.{get_non_canary_ingress}
use ingress2gateway.Ingressnginx.Redirect.{ParsedUrl, parsed, malformed, redirect_filter}

-- `u, err := url.Parse(appRoot); err == nil && u.IsAbs()`
abbrev pub is_absolute : ParsedUrl → Bool
is_absolute (parsed u) = not (u.scheme == "")
is_absolute (malformed e) = false

abbrev pub is_exact_root_path : Option String → Option String → Bool
is_exact_root_path (some type) (some value) = (value == "/") && (type == "Exact")
is_exact_root_path (some type) none = false
is_exact_root_path none value = false

abbrev pub is_exact_root : HttpRouteMatch → Bool
is_exact_root m = elim m.path [ none ↦ false | some path ↦ is_exact_root_path path.type path.value ]

abbrev pub has_exact_root : List HttpRouteMatch → Bool
has_exact_root [] = false
has_exact_root (m ∷ ms) = is_exact_root m || has_exact_root ms

-- `appRootPath` and `exactRootRuleIndex`, where the loop finds a path.
pub record AppRoot : Type 0 where
  pub path : String
  pub exact_root_rule_index : Option ℕ

-- What the body of the loop does with the annotation: go on, perhaps with a notice, or stop.
pub data Verdict : Type 0 where
  passed : List Notice → Verdict
  taken : String → Verdict

abbrev pub verdict_of : (String → ParsedUrl) → Option String → Verdict
verdict_of parse_url none = passed []
verdict_of parse_url (some app_root) =
    if is_absolute (parse_url app_root)
    then passed (
        warn "Ignoring app-root annotation with absolute URL %q (not supported)" (app_root ∷ [])
        ∷ [])
    else taken app_root

abbrev pub verdict : (String → ParsedUrl) → Option Ingress → Verdict
verdict parse_url none = passed []
verdict parse_url (some ingress) =
    verdict_of parse_url (nonempty_annotation? app_root_annotation ingress)

abbrev pub after_verdict :
    ℕ
    → HttpRouteRule
    → Verdict
    → Go (Option AppRoot × List Notice)
    → Go (Option AppRoot × List Notice)
after_verdict i rule (passed notices) rest = rest >>= λ y. done (y.0, notices ++ y.1)
after_verdict i rule (taken path) rest = done (
  some (record {
    path = path;
    exact_root_rule_index = if has_exact_root rule.matches then some i else none;
  }),
  [],
)

-- The loop over the rules from the `i`th on, up to the first path.
unfoldable pub find_app_root :
    (String → ParsedUrl)
    → ℕ
    → List HttpRouteRule
    → List (List BackendSource)
    → Go (Option AppRoot × List Notice)
find_app_root parse_url i [] sources = done (none, [])
find_app_root parse_url i (rule ∷ rules) [] = done (none, [])
find_app_root parse_url i (rule ∷ rules) (srcs ∷ sources) =
    let rest = find_app_root parse_url (i + 1) rules sources in
    get_non_canary_ingress srcs >>= λ found. after_verdict i rule (verdict parse_url found) rest

abbrev pub app_root_filter : String → HttpRouteFilter
app_root_filter path = redirect_filter (record {
  scheme = none;
  hostname = none;
  port = none;
  path = some path;
  status_code = some (pos 302);
})

abbrev pub app_root_rule : String → HttpRouteRule
app_root_rule path = record {
  name = none;
  matches =
      record { path = some (record { type = some "Exact"; value = some "/" }); headers = [] } ∷ [];
  filters = app_root_filter path ∷ [];
  backend_refs = [];
  request_timeout = none;
}

-- The rule at the index gets the filter and loses its backends.
abbrev pub redirect_at : ℕ → HttpRouteFilter → List HttpRouteRule → List HttpRouteRule
redirect_at i f [] = []
redirect_at zero f (r ∷ rs) = record r { filters = r.filters ++ f ∷ []; backend_refs = [] } ∷ rs
redirect_at (suc i) f (r ∷ rs) = r ∷ redirect_at i f rs

abbrev pub app_root_context : HttpRouteContext → String → Option ℕ → HttpRouteContext
app_root_context c path (some i) = record c {
  route = record c.route { rules = redirect_at i (app_root_filter path) c.route.rules };
}
app_root_context c path none = record c {
  route = record c.route { rules = c.route.rules ++ app_root_rule path ∷ [] };
  rule_backend_sources = c.rule_backend_sources ++ [] ∷ [];
}

abbrev pub with_app_root : HttpRouteContext → Option AppRoot → HttpRouteContext
with_app_root c none = c
with_app_root c (some a) = app_root_context c a.path a.exact_root_rule_index

unfoldable pub app_root_routes :
    (String → ParsedUrl)
    → Dict NamespacedName HttpRouteContext
    → Go (Dict NamespacedName HttpRouteContext × List Notice)
unfolding find_app_root
app_root_routes parse_url [] = done ([], [])
app_root_routes parse_url ((key, c) ∷ routes) =
    find_app_root parse_url 0 c.route.rules c.rule_backend_sources >>= λ x.
    app_root_routes parse_url routes >>= λ y. done ((key, with_app_root c x.0) ∷ y.0, x.1 ++ y.1)

-- `appRootFeature`
unfoldable pub app_root_feature : (String → ParsedUrl) → ProviderIr → Go (ProviderIr × List Notice)
unfolding app_root_routes
app_root_feature parse_url ir =
    app_root_routes parse_url ir.http_routes >>= λ y. done (record ir { http_routes = y.0 }, y.1)
