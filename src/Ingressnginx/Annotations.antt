-- ===== src/Ingressnginx/Annotations.antt =====
-- pkg/i2gw/providers/ingressnginx/annotations.go: the keys of the annotations, with the calls of
-- `notify` that the features make.
use ingress2gateway.Base.{
  Option, none, some, List, [], ◌∷◌, String, string_comparable, ◌==◌, if◌then◌else◌,
}
use ingress2gateway.Base.Dict.{lookup, lookup_or}
use ingress2gateway.Base.Text.{◌+++◌}
use ingress2gateway.Api.Field.{FieldPath, new_path}
use ingress2gateway.Api.Ingress.{Ingress}

abbrev pub canary_annotation : String
canary_annotation = "nginx.ingress.kubernetes.io/canary"

abbrev pub canary_weight_annotation : String
canary_weight_annotation = "nginx.ingress.kubernetes.io/canary-weight"

abbrev pub canary_weight_total_annotation : String
canary_weight_total_annotation = "nginx.ingress.kubernetes.io/canary-weight-total"

abbrev pub canary_by_header : String
canary_by_header = "nginx.ingress.kubernetes.io/canary-by-header"

abbrev pub canary_by_header_value : String
canary_by_header_value = "nginx.ingress.kubernetes.io/canary-by-header-value"

abbrev pub canary_by_header_pattern : String
canary_by_header_pattern = "nginx.ingress.kubernetes.io/canary-by-header-pattern"

abbrev pub canary_by_cookie : String
canary_by_cookie = "nginx.ingress.kubernetes.io/canary-by-cookie"

abbrev pub rewrite_target_annotation : String
rewrite_target_annotation = "nginx.ingress.kubernetes.io/rewrite-target"

abbrev pub app_root_annotation : String
app_root_annotation = "nginx.ingress.kubernetes.io/app-root"

abbrev pub permanent_redirect_annotation : String
permanent_redirect_annotation = "nginx.ingress.kubernetes.io/permanent-redirect"

abbrev pub permanent_redirect_code_annotation : String
permanent_redirect_code_annotation = "nginx.ingress.kubernetes.io/permanent-redirect-code"

abbrev pub temporal_redirect_annotation : String
temporal_redirect_annotation = "nginx.ingress.kubernetes.io/temporal-redirect"

abbrev pub temporal_redirect_code_annotation : String
temporal_redirect_code_annotation = "nginx.ingress.kubernetes.io/temporal-redirect-code"

abbrev pub from_to_www_redirect_annotation : String
from_to_www_redirect_annotation = "nginx.ingress.kubernetes.io/from-to-www-redirect"

abbrev pub proxy_redirect_from_annotation : String
proxy_redirect_from_annotation = "nginx.ingress.kubernetes.io/proxy-redirect-from"

abbrev pub proxy_redirect_to_annotation : String
proxy_redirect_to_annotation = "nginx.ingress.kubernetes.io/proxy-redirect-to"

abbrev pub x_forwarded_prefix_annotation : String
x_forwarded_prefix_annotation = "nginx.ingress.kubernetes.io/x-forwarded-prefix"

abbrev pub upstream_vhost_annotation : String
upstream_vhost_annotation = "nginx.ingress.kubernetes.io/upstream-vhost"

abbrev pub connection_proxy_header_annotation : String
connection_proxy_header_annotation = "nginx.ingress.kubernetes.io/connection-proxy-header"

abbrev pub custom_headers_annotation : String
custom_headers_annotation = "nginx.ingress.kubernetes.io/custom-headers"

abbrev pub proxy_connect_timeout_annotation : String
proxy_connect_timeout_annotation = "nginx.ingress.kubernetes.io/proxy-connect-timeout"

abbrev pub proxy_send_timeout_annotation : String
proxy_send_timeout_annotation = "nginx.ingress.kubernetes.io/proxy-send-timeout"

abbrev pub proxy_read_timeout_annotation : String
proxy_read_timeout_annotation = "nginx.ingress.kubernetes.io/proxy-read-timeout"

abbrev pub proxy_body_size_annotation : String
proxy_body_size_annotation = "nginx.ingress.kubernetes.io/proxy-body-size"

abbrev pub client_body_buffer_size_annotation : String
client_body_buffer_size_annotation = "nginx.ingress.kubernetes.io/client-body-buffer-size"

abbrev pub backend_protocol_annotation : String
backend_protocol_annotation = "nginx.ingress.kubernetes.io/backend-protocol"

abbrev pub use_regex_annotation : String
use_regex_annotation = "nginx.ingress.kubernetes.io/use-regex"

abbrev pub ssl_redirect_annotation : String
ssl_redirect_annotation = "nginx.ingress.kubernetes.io/ssl-redirect"

abbrev pub enable_cors_annotation : String
enable_cors_annotation = "nginx.ingress.kubernetes.io/enable-cors"

abbrev pub cors_allow_origin_annotation : String
cors_allow_origin_annotation = "nginx.ingress.kubernetes.io/cors-allow-origin"

abbrev pub cors_allow_headers_annotation : String
cors_allow_headers_annotation = "nginx.ingress.kubernetes.io/cors-allow-headers"

abbrev pub cors_allow_methods_annotation : String
cors_allow_methods_annotation = "nginx.ingress.kubernetes.io/cors-allow-methods"

abbrev pub cors_allow_credentials_annotation : String
cors_allow_credentials_annotation = "nginx.ingress.kubernetes.io/cors-allow-credentials"

abbrev pub cors_expose_headers_annotation : String
cors_expose_headers_annotation = "nginx.ingress.kubernetes.io/cors-expose-headers"

abbrev pub cors_max_age_annotation : String
cors_max_age_annotation = "nginx.ingress.kubernetes.io/cors-max-age"

abbrev pub white_list_source_range_annotation : String
white_list_source_range_annotation = "nginx.ingress.kubernetes.io/whitelist-source-range"

abbrev pub deny_list_source_range_annotation : String
deny_list_source_range_annotation = "nginx.ingress.kubernetes.io/denylist-source-range"

abbrev pub proxy_ssl_verify_annotation : String
proxy_ssl_verify_annotation = "nginx.ingress.kubernetes.io/proxy-ssl-verify"

abbrev pub proxy_ssl_secret_annotation : String
proxy_ssl_secret_annotation = "nginx.ingress.kubernetes.io/proxy-ssl-secret"

abbrev pub proxy_ssl_name_annotation : String
proxy_ssl_name_annotation = "nginx.ingress.kubernetes.io/proxy-ssl-name"

abbrev pub proxy_ssl_server_name_annotation : String
proxy_ssl_server_name_annotation = "nginx.ingress.kubernetes.io/proxy-ssl-server-name"

abbrev pub proxy_ssl_verify_depth_annotation : String
proxy_ssl_verify_depth_annotation = "nginx.ingress.kubernetes.io/proxy-ssl-verify-depth"

abbrev pub proxy_ssl_protocols_annotation : String
proxy_ssl_protocols_annotation = "nginx.ingress.kubernetes.io/proxy-ssl-protocols"

abbrev pub affinity_annotation : String
affinity_annotation = "nginx.ingress.kubernetes.io/affinity"

abbrev pub session_cookie_expires_annotation : String
session_cookie_expires_annotation = "nginx.ingress.kubernetes.io/session-cookie-expires"

abbrev pub ssl_passthrough_annotation : String
ssl_passthrough_annotation = "nginx.ingress.kubernetes.io/ssl-passthrough"

abbrev pub nginx_prefix : String
nginx_prefix = "nginx.ingress.kubernetes.io/"

-- `parsedAnnotations`
abbrev pub parsed_annotations : List String
parsed_annotations =
    canary_annotation ∷ canary_weight_annotation ∷ canary_weight_total_annotation ∷ canary_by_header
    ∷ canary_by_header_value ∷ canary_by_header_pattern ∷ canary_by_cookie
    ∷ rewrite_target_annotation ∷ app_root_annotation ∷ permanent_redirect_annotation
    ∷ permanent_redirect_code_annotation ∷ temporal_redirect_annotation
    ∷ temporal_redirect_code_annotation ∷ proxy_redirect_from_annotation
    ∷ proxy_redirect_to_annotation ∷ x_forwarded_prefix_annotation ∷ upstream_vhost_annotation
    ∷ connection_proxy_header_annotation ∷ custom_headers_annotation
    ∷ proxy_connect_timeout_annotation ∷ proxy_send_timeout_annotation
    ∷ proxy_read_timeout_annotation ∷ proxy_body_size_annotation
    ∷ client_body_buffer_size_annotation ∷ backend_protocol_annotation ∷ use_regex_annotation
    ∷ ssl_redirect_annotation ∷ enable_cors_annotation ∷ cors_allow_origin_annotation
    ∷ cors_allow_headers_annotation ∷ cors_allow_methods_annotation
    ∷ cors_allow_credentials_annotation ∷ cors_expose_headers_annotation ∷ cors_max_age_annotation
    ∷ white_list_source_range_annotation ∷ deny_list_source_range_annotation
    ∷ proxy_ssl_verify_annotation ∷ proxy_ssl_secret_annotation ∷ proxy_ssl_name_annotation
    ∷ proxy_ssl_server_name_annotation ∷ proxy_ssl_verify_depth_annotation
    ∷ proxy_ssl_protocols_annotation ∷ affinity_annotation ∷ session_cookie_expires_annotation
    ∷ ssl_passthrough_annotation ∷ []

-- `v, ok := ingress.Annotations[key]`
abbrev pub annotation? : String → Ingress → Option String
annotation? key ingress = lookup key ingress.annotations

-- `ingress.Annotations[key]`
abbrev pub annotation : String → Ingress → String
annotation key ingress = lookup_or "" key ingress.annotations

-- `v, ok := ingress.Annotations[key]; ok && v != ""`
abbrev pub nonempty_annotation? : String → Ingress → Option String
nonempty_annotation? key ingress = elim (annotation? key ingress) [
  | none ↦ none
  | some v ↦ if v == "" then none else some v
]

-- `fmt.Sprintf("%q", key)` for the key of an annotation.
abbrev pub quoted : String → String
quoted key = "\"" +++ key +++ "\""

-- The name of the Ingress in the metadata, and the path to one of its annotations.
abbrev pub full_name : Ingress → String
full_name ingress = ingress.namespace +++ "/" +++ ingress.name

abbrev pub annotation_path : Ingress → String → FieldPath
annotation_path ingress key =
    new_path (ingress.namespace ∷ ingress.name ∷ "metadata" ∷ "annotations" ∷ quoted key ∷ [])

-- `notifications.MessageType`
pub data Level : Type 0 where
  info warning error : Level

-- A call of `notify`: the level, the format of the message and the texts that it prints. An error
-- that a message prints is its own format and texts.
pub record Notice : Type 0 where
  pub level : Level
  pub message : String
  pub arguments : List String

abbrev pub warn : String → List String → Notice
warn message arguments = record { level = warning; message = message; arguments = arguments }

abbrev pub report_error : String → List String → Notice
report_error message arguments = record { level = error; message = message; arguments = arguments }

abbrev pub inform : String → List String → Notice
inform message arguments = record { level = info; message = message; arguments = arguments }
