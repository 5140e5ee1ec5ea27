-- ===== src/Ingressnginx/Redirect.antt =====
-- pkg/i2gw/providers/ingressnginx/redirect.go: `redirectFeature`. `url.Parse` of Go's net/url is a
-- parameter.
pub mod Laws
use ingress2gateway.Base.{
  ℕ, Bool, true, false, ◌&&◌, ◌||◌, not, Option, none, some, List, [], ◌∷◌, ◌++◌, String,
  string_comparable, ◌==◌, eqb, if◌then◌else◌, Go,
}
use ingress2gateway.Base.Int.{ℤ, pos, negsuc}
use ingress2gateway.Base.ParseInt.{ParsedInt, parse_int64, int32}
use ingress2gateway.Api.Ingress.{Ingress}
use ingress2gateway.Api.Gateway.{HttpRouteRule, HttpRouteFilter, RequestRedirect}
use ingress2gateway.ProviderIr.{ProviderIr}
use ingress2gateway.Ingressnginx.Annotations.{
  Notice, warn, report_error, annotation, annotation?, proxy_redirect_from_annotation,
  proxy_redirect_to_annotation, temporal_redirect_annotation, temporal_redirect_code_annotation,
  permanent_redirect_annotation, permanent_redirect_code_annotation,
}
use ingress2gateway.Ingressnginx.RuleChanges.{Change, change_ir}

-- `Scheme`, `Hostname()`, `Port()` and `Path` of a URL, or the text of the error.
pub record Url : Type 0 where
  pub scheme : String
  pub hostname : String
  pub port : String
  pub path : String

pub data ParsedUrl : Type 0 where
  parsed : Url → ParsedUrl
  malformed : String → ParsedUrl

-- `isValidTemporalRedirectCode` and `isValidPermanentRedirectCode`
unfoldable pub is_valid_temporal_redirect_code : ℤ → Bool
is_valid_temporal_redirect_code (pos n) = eqb n 301 || (eqb n 302 || (eqb n 303 || eqb n 307))
is_valid_temporal_redirect_code (negsuc n) = false

unfoldable pub is_valid_permanent_redirect_code : ℤ → Bool
is_valid_permanent_redirect_code (pos n) =
    eqb n 301 || (eqb n 302 || (eqb n 303 || (eqb n 307 || eqb n 308)))
is_valid_permanent_redirect_code (negsuc n) = false

-- The status code of an annotation, or the default with a warning.
abbrev pub code_or : (ℤ → Bool) → ℤ → Notice → ParsedInt → ℤ × List Notice
code_or is_valid default notice code =
    if code.failed || not (is_valid code.value) then (default, notice ∷ []) else (code.value, [])

abbrev pub status_code_of : (ℤ → Bool) → ℤ → Notice → String → ℤ × List Notice
status_code_of is_valid default notice code_str =
    if code_str == "" then (default, []) else code_or is_valid default notice (parse_int64 code_str)

-- What a redirect is made of: the URL, the status code and the annotation that has the URL.
pub record Target : Type 0 where
  pub url : String
  pub status_code : ℤ
  pub key : String

abbrev pub temporal_target : Ingress → String → Option String → Target × List Notice
temporal_target ingress url permanent =
    let text = annotation temporal_redirect_code_annotation ingress in
    let code =
      status_code_of is_valid_temporal_redirect_code (pos 302)
        (warn
          "ingress %s/%s uses unsupported status code %q in %s annotation (Gateway API supports: 301, 302, 303, 307 for temporal redirects), using default 302"
          (ingress.namespace ∷ ingress.name ∷ text ∷ temporal_redirect_code_annotation ∷ []))
        text in
    (
      record { url = url; status_code = code.0; key = temporal_redirect_annotation },
      elim permanent [
        | none ↦ []
        | some _ ↦
            warn
              "ingress %s/%s has both %s and %s annotations; temporal-redirect takes priority, permanent-redirect is ignored"
              (ingress.namespace ∷ ingress.name ∷ permanent_redirect_annotation
                ∷ temporal_redirect_annotation ∷ [])
            ∷ []
      ]
          ++ code.1,
    )

abbrev pub permanent_target : Ingress → String → Target × List Notice
permanent_target ingress url =
    let text = annotation permanent_redirect_code_annotation ingress in
    let code =
      status_code_of is_valid_permanent_redirect_code (pos 301)
        (warn
          "ingress %s/%s uses unsupported status code %q in %s annotation (Gateway API supports: 301, 302, 303, 307, 308 for permanent redirects), using default 301"
          (ingress.namespace ∷ ingress.name ∷ text ∷ permanent_redirect_code_annotation ∷ []))
        text in
    (record { url = url; status_code = code.0; key = permanent_redirect_annotation }, code.1)

-- The temporal redirect comes first, even with an empty URL.
abbrev pub target_of : Ingress → Option String → Option String → Option (Target × List Notice)
target_of ingress (some url) permanent = some (temporal_target ingress url permanent)
target_of ingress none (some url) = some (permanent_target ingress url)
target_of ingress none none = none

abbrev pub redirect_filter : RequestRedirect → HttpRouteFilter
redirect_filter redirect = record {
  type = "RequestRedirect";
  request_header_modifier = none;
  response_header_modifier = none;
  request_redirect = some redirect;
  url_rewrite = none;
  cors = none;
}

abbrev pub nonempty_text : String → Option String
nonempty_text s = if s == "" then none else some s

abbrev pub redirect_to : ℤ → Url → Option ℤ → HttpRouteFilter
redirect_to status u port = redirect_filter (record {
  scheme = nonempty_text u.scheme;
  hostname = nonempty_text u.hostname;
  port = port;
  path = some (if u.path == "" then "/" else u.path);
  status_code = some status;
})

-- The port, which is an int32: a text that is no number ends the loop's body.
abbrev pub with_port : Target → Url → ParsedInt → Option HttpRouteFilter × List Notice
with_port t u number =
    if number.failed
    then (
      none,
      report_error "Invalid port in redirect URL %q: %v, skipping redirect" (t.url ∷ u.port ∷ [])
          ∷ [],
    )
    else (some (redirect_to t.status_code u (some (int32 number.value))), [])

abbrev pub filter_for : Target → ParsedUrl → Option HttpRouteFilter × List Notice
filter_for t (malformed e) = (
  none,
  report_error "Invalid redirect URL in %s annotation: %v, skipping redirect" (t.key ∷ e ∷ []) ∷ [],
)
filter_for t (parsed u) =
    if u.port == ""
    then (some (redirect_to t.status_code u none), [])
    else with_port t u (parse_int64 u.port)

abbrev pub filter_of : (String → ParsedUrl) → Target → Option HttpRouteFilter × List Notice
filter_of parse_url t =
    if t.url == ""
    then (none, report_error "Empty %s annotation, skipping redirect" (t.key ∷ []) ∷ [])
    else filter_for t (parse_url t.url)

abbrev pub proxy_redirect_notice : String → Ingress → List Notice
proxy_redirect_notice key ingress =
    if annotation key ingress == ""
    then []
    else warn "ingress %s/%s uses unsupported annotation %s"
        (ingress.namespace ∷ ingress.name ∷ key ∷ [])
      ∷ []

abbrev pub redirect_target : Ingress → Option (Target × List Notice)
redirect_target ingress =
    target_of ingress (annotation? temporal_redirect_annotation ingress)
      (annotation? permanent_redirect_annotation ingress)

abbrev pub read_target :
    (String → ParsedUrl)
    → List Notice
    → Option (Target × List Notice)
    → Option HttpRouteFilter × List Notice
read_target parse_url proxied none = (none, proxied)
read_target parse_url proxied (some t) =
    let f = filter_of parse_url t.0 in (f.0, proxied ++ t.1 ++ f.1)

-- The filter that the body of the loop adds for an Ingress, if it adds one.
unfoldable pub read_redirect : (String → ParsedUrl) → Ingress → Option HttpRouteFilter × List Notice
unfolding is_valid_temporal_redirect_code is_valid_permanent_redirect_code
read_redirect parse_url ingress =
    read_target parse_url
      (proxy_redirect_notice proxy_redirect_from_annotation ingress
        ++ proxy_redirect_notice proxy_redirect_to_annotation ingress)
      (redirect_target ingress)

-- A rule with a redirect has no backends.
abbrev pub add_redirect : HttpRouteRule → Option HttpRouteFilter → HttpRouteRule
add_redirect rule none = rule
add_redirect rule (some f) = record rule { filters = rule.filters ++ f ∷ []; backend_refs = [] }

abbrev pub redirect_change : (String → ParsedUrl) → Change
redirect_change parse_url ingress rule =
    let f = read_redirect parse_url ingress in (add_redirect rule f.0, f.1)

-- `redirectFeature`
unfoldable pub redirect_feature : (String → ParsedUrl) → ProviderIr → Go (ProviderIr × List Notice)
unfolding change_ir
redirect_feature parse_url ir = change_ir (redirect_change parse_url) ir
