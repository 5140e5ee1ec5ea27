-- ===== src/Ingressnginx/Converter.antt =====
-- pkg/i2gw/providers/ingressnginx/converter.go: `convert` up to the features, which have modules of
-- their own.
use ingress2gateway.Base.{
  ℕ, nat_comparable, Bool, true, false, ◌&&◌, ◌||◌, not, Option, none, some, List, [], ◌∷◌, ◌++◌,
  contains, eqb, String, string_comparable, if◌then◌else◌, Go, done, ◌>>=◌,
}
use ingress2gateway.Base.Dict.{Dict}
use ingress2gateway.Base.Strings.{is_upper_of, has_prefix}
use ingress2gateway.Api.Field.{FieldError}
use ingress2gateway.Api.Ingress.{Ingress, NamespacedName}
use ingress2gateway.Api.Gateway.{HttpPathMatch, Listener}
use ingress2gateway.ProviderIr.{ProviderIr, GatewayContext, empty_ir}
use ingress2gateway.Common.Backends.{ServicePorts}
use ingress2gateway.Common.ToIr.{to_ir}
use ingress2gateway.Ingressnginx.Annotations.{
  Notice, warn, annotation?, backend_protocol_annotation, parsed_annotations, nginx_prefix,
}

-- `strings.ToUpper(val)` is one of the texts.
abbrev pub is_upper_of_any : String → List String → Bool
is_upper_of_any val [] = false
is_upper_of_any val (t ∷ ts) = is_upper_of val t || is_upper_of_any val ts

-- The Ingresses for HTTPRoutes and for GRPCRoutes, and the notices for the others.
pub record Split : Type 0 where
  pub http_ingresses : List Ingress
  pub grpc_ingresses : List Ingress
  pub notices : List Notice

abbrev pub is_grpc : Ingress → Bool
is_grpc ing = elim (annotation? backend_protocol_annotation ing) [
  | none ↦ false
  | some val ↦ is_upper_of_any val ("GRPC" ∷ "GRPCS" ∷ [])
]

abbrev pub is_http : Ingress → Bool
is_http ing = elim (annotation? backend_protocol_annotation ing) [
  | none ↦ true
  | some val ↦ is_upper_of_any val ("HTTP" ∷ "HTTPS" ∷ "AUTO_HTTP" ∷ [])
]

abbrev pub split_ingress : Ingress → Option String → Split → Split
split_ingress ing none s = record s { http_ingresses = ing ∷ s.http_ingresses }
split_ingress ing (some val) s =
    if is_upper_of_any val ("GRPC" ∷ "GRPCS" ∷ [])
    then record s { grpc_ingresses = ing ∷ s.grpc_ingresses }
    else if is_upper_of_any val ("HTTP" ∷ "HTTPS" ∷ "AUTO_HTTP" ∷ [])
    then record s { http_ingresses = ing ∷ s.http_ingresses }
    else record s {
      notices =
          warn "%s backend-protocol is not supported in Gateway API conversion for ingress %s/%s"
            (val ∷ ing.namespace ∷ ing.name ∷ [])
          ∷ s.notices;
    }

unfoldable pub split_ingresses : List Ingress → Split
split_ingresses [] = record { http_ingresses = []; grpc_ingresses = []; notices = [] }
split_ingresses (ing ∷ ings) =
    split_ingress ing (annotation? backend_protocol_annotation ing) (split_ingresses ings)

abbrev pub grpc_notice : List Ingress → List Notice
grpc_notice [] = []
grpc_notice (ing ∷ ings) =
    warn
      "GRPC support is not fully implemented. Some Ingress-NGINX GRPC behaviors may not be correctly translated, and untranslated behavior may not be notified."
      []
    ∷ []

-- `implementationSpecificPathMatch`
abbrev pub implementation_specific_path_match : HttpPathMatch → HttpPathMatch
implementation_specific_path_match path = record path { type = some "PathPrefix" }

-- The hostnames of the listeners on a port: `httpsHosts` and `httpHosts`.
unfoldable pub hosts_on : ℕ → List Listener → List String
hosts_on port [] = []
hosts_on port (l ∷ ls) =
    let rest = hosts_on port ls in
    elim l.hostname [ none ↦ rest | some host ↦ if eqb l.port port then host ∷ rest else rest ]

unfoldable pub self_signed_notices : List String → List String → List Notice
self_signed_notices https [] = []
self_signed_notices https (host ∷ hosts) =
    let rest = self_signed_notices https hosts in
    if contains host https
    then rest
    else warn
        "Ingress NGINX serves TLS traffic for host %q with a self-signed certificate. This behavior will not be translated and the host will not be accessible via HTTPS."
        (host ∷ [])
      ∷ rest

unfoldable pub tls_notices : Dict NamespacedName GatewayContext → List Notice
unfolding hosts_on self_signed_notices
tls_notices [] = []
tls_notices ((key, g) ∷ gateways) =
    self_signed_notices (hosts_on 443 g.gateway.listeners) (hosts_on 80 g.gateway.listeners)
    ++ tls_notices gateways

-- The annotations of Ingress NGINX that no feature reads.
unfoldable pub annotation_notices : Dict String String → List Notice
annotation_notices [] = []
annotation_notices ((key, val) ∷ annotations) =
    let rest = annotation_notices annotations in
    if not (contains key parsed_annotations) && has_prefix nginx_prefix key
    then warn "Unsupported annotation %v" (key ∷ []) ∷ rest
    else rest

unfoldable pub unsupported_annotations : List Ingress → List Notice
unfolding annotation_notices
unsupported_annotations [] = []
unsupported_annotations (ing ∷ ings) =
    annotation_notices ing.annotations ++ unsupported_annotations ings

-- What the features start from: the IR, the errors and the notices.
pub record PlainIr : Type 0 where
  pub ir : ProviderIr
  pub errors : List FieldError
  pub notices : List Notice

abbrev pub unless_errors : ProviderIr → List FieldError → ProviderIr
unless_errors ir [] = ir
unless_errors ir (e ∷ errors) = empty_ir

-- `convert` before the features.
unfoldable pub convert_plain : List Ingress → ServicePorts → Go PlainIr
unfolding split_ingresses tls_notices unsupported_annotations
convert_plain ingresses ports =
    let s = split_ingresses ingresses in
    to_ir s.http_ingresses s.grpc_ingresses ports (some implementation_specific_path_match) >>= λ r.
    done (record {
      ir = unless_errors r.0 r.1;
      errors = r.1;
      notices =
          s.notices
          ++ grpc_notice s.grpc_ingresses
          ++ tls_notices r.0.gateways
          ++ unsupported_annotations ingresses;
    })
