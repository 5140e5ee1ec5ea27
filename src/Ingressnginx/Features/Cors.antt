-- ===== src/Ingressnginx/Features/Cors.antt =====
-- pkg/i2gw/providers/ingressnginx/cors.go.
pub mod Texts
pub mod Entries
use ingress2gateway.Base.{
  Bool, true, false, not, Option, none, some, List, [], ◌∷◌, String, string_comparable, ◌==◌, keep,
  if◌then◌else◌,
}
use ingress2gateway.Base.Int.{ℤ, pos}
use ingress2gateway.Base.ParseInt.{ParsedInt, parse_int, int32}
use ingress2gateway.Base.Strings.{comma_list, parse_bool}
use ingress2gateway.Api.Ingress.{Ingress}
use ingress2gateway.Api.Gateway.{CorsFilter}
use ingress2gateway.Ingressnginx.Annotations.{
  Notice, report_error, annotation?, nonempty_annotation?, enable_cors_annotation,
  cors_allow_origin_annotation, cors_allow_methods_annotation, cors_allow_headers_annotation,
  cors_expose_headers_annotation, cors_allow_credentials_annotation, cors_max_age_annotation,
}
use ingress2gateway.Ingressnginx.Features.{RuleFeature}

-- The items of a list with commas that are not empty.
abbrev pub cors_items : String → List String
cors_items s = keep (λ item. not (item == "")) (comma_list s)

abbrev pub default_methods : List String
default_methods = "GET" ∷ "PUT" ∷ "POST" ∷ "DELETE" ∷ "PATCH" ∷ "OPTIONS" ∷ []

abbrev pub default_headers : List String
default_headers =
    "DNT" ∷ "Keep-Alive" ∷ "User-Agent" ∷ "X-Requested-With" ∷ "If-Modified-Since" ∷ "Cache-Control"
    ∷ "Content-Type" ∷ "Range" ∷ "Authorization" ∷ []

abbrev pub default_max_age : ℤ
default_max_age = pos 1728000

-- A list that an annotation gives, unless it is missing or empty.
abbrev pub items_or : List String → Option String → List String
items_or default none = default
items_or default (some value) = cors_items value

-- `enable-cors`, whose default is false, and `cors-allow-credentials`, whose default is true.
abbrev pub is_enabled : Option String → Bool
is_enabled none = false
is_enabled (some value) = elim (parse_bool value) [ none ↦ false | some enabled ↦ enabled ]

abbrev pub credentials_of : Option String → Bool
credentials_of none = true
credentials_of (some value) = elim (parse_bool value) [ none ↦ true | some allowed ↦ allowed ]

abbrev pub parsed_max_age : String → ParsedInt → ℤ × List Notice
parsed_max_age text val =
    if val.failed
    then (
      default_max_age,
      report_error "Invalid cors-max-age annotation %q, using default %d" (text ∷ "1728000" ∷ [])
          ∷ [],
    )
    else (int32 val.value, [])

unfoldable pub max_age_of : Option String → ℤ × List Notice
max_age_of none = (default_max_age, [])
max_age_of (some text) = parsed_max_age text (parse_int text)

unfoldable pub cors_policy : Ingress → CorsFilter × List Notice
cors_policy ingress =
    let age = max_age_of (nonempty_annotation? cors_max_age_annotation ingress) in
    (
      record {
        allow_origins =
            items_or ("*" ∷ []) (nonempty_annotation? cors_allow_origin_annotation ingress);
        allow_methods =
            items_or default_methods (nonempty_annotation? cors_allow_methods_annotation ingress);
        allow_headers =
            items_or default_headers (nonempty_annotation? cors_allow_headers_annotation ingress);
        expose_headers = items_or [] (nonempty_annotation? cors_expose_headers_annotation ingress);
        allow_credentials =
            some (credentials_of (annotation? cors_allow_credentials_annotation ingress));
        max_age = age.0;
      },
      age.1,
    )

unfoldable pub read_cors : Ingress → Option CorsFilter × List Notice
read_cors ingress =
    let policy = cors_policy ingress in
    if is_enabled (annotation? enable_cors_annotation ingress)
    then (some policy.0, policy.1)
    else (none, [])

-- `applyCorsToEmitterIR`
abbrev pub cors_feature : RuleFeature CorsFilter
cors_feature = record {
  get = λ e. e.cors_policy_by_rule_idx;
  set = λ m e. record e { cors_policy_by_rule_idx = m };
  rules = λ p e. p.route.rules;
  read = λ p ingress. read_cors ingress;
}
