-- ===== src/Ingressnginx/BackendTls.antt =====
-- pkg/i2gw/providers/ingressnginx/backend_tls.go. A backend reference of an HTTPRoute has no
-- namespace: nothing before this feature sets one.
pub mod Sorted
use ingress2gateway.Base.{
  ℕ, zero, suc, Bool, true, false, ◌&&◌, ◌||◌, not, Option, none, some, List, [], ◌∷◌, ◌++◌, length,
  String, string_comparable, ◌==◌, if◌then◌else◌, Go, done, panic, ◌>>=◌,
}
use ingress2gateway.Base.Dict.{Dict, lookup, insert}
use ingress2gateway.Base.Text.{◌+++◌, split2}
use ingress2gateway.Base.Strings.{join}
use ingress2gateway.Base.Keys.{keys_in}
use ingress2gateway.Api.Ingress.{Ingress, NamespacedName, namespaced_name_comparable}
use ingress2gateway.Api.Gateway.{BackendRef, HttpRouteRule, BackendTlsPolicy, LocalRef}
use ingress2gateway.ProviderIr.{ProviderIr, BackendSource, HttpRouteContext}
use ingress2gateway.Ingressnginx.Annotations.{
  Notice, warn, report_error, inform, annotation, backend_protocol_annotation,
  proxy_ssl_verify_annotation, proxy_ssl_secret_annotation, proxy_ssl_name_annotation,
  proxy_ssl_server_name_annotation, proxy_ssl_verify_depth_annotation,
  proxy_ssl_protocols_annotation,
}
use ingress2gateway.Ingressnginx.Sources.{get_non_canary_ingress}
use ingress2gateway.Ingressnginx.BackendTls.Sorted.{sort_keys}

-- A group or a kind that is nil or one of the given ones.
abbrev pub is_one_of : Option String → List String → Bool
is_one_of none names = true
is_one_of (some name) [] = false
is_one_of (some name) (n ∷ names) = (name == n) || is_one_of (some name) names

abbrev pub is_service : BackendRef → Bool
is_service b = is_one_of b.kind ("Service" ∷ []) && is_one_of b.group ("" ∷ "core" ∷ [])

abbrev pub unless_holds : Bool → String → List String
unless_holds true text = []
unless_holds false text = text ∷ []

-- `validationErrors`
unfoldable pub validation_errors : Ingress → List String
validation_errors ing =
    unless_holds (annotation proxy_ssl_verify_annotation ing == "on")
      (proxy_ssl_verify_annotation +++ " must be strictly 'on'")
    ++ unless_holds (not (annotation proxy_ssl_secret_annotation ing == ""))
        (proxy_ssl_secret_annotation +++ " must be provided with a trusted CA certificate")
    ++ unless_holds (annotation proxy_ssl_server_name_annotation ing == "on")
        (proxy_ssl_server_name_annotation +++ " must be strictly 'on' (SNI is required)")
    ++ unless_holds (not (annotation proxy_ssl_name_annotation ing == "")) (
        proxy_ssl_name_annotation
        +++ " must be explicitly provided (defaulting to upstream_balancer is invalid)")

abbrev pub notice_if_set : String → Notice → Ingress → List Notice
notice_if_set key notice ing = if annotation key ing == "" then [] else notice ∷ []

unfoldable pub unsupported_notices : Ingress → List Notice
unsupported_notices ing =
    notice_if_set proxy_ssl_verify_depth_annotation
      (warn
        "Ingress %s/%s specifies %s. Gateway API v1 BackendTLSPolicy does not support configuring verification depth."
        (ing.namespace ∷ ing.name ∷ proxy_ssl_verify_depth_annotation ∷ []))
      ing
    ++ notice_if_set proxy_ssl_protocols_annotation
        (warn
          "Ingress %s/%s specifies %s. Gateway API v1 BackendTLSPolicy does not support configuring specific TLS protocols."
          (ing.namespace ∷ ing.name ∷ proxy_ssl_protocols_annotation ∷ []))
        ing

-- The name of the ConfigMap, unless the Secret is in another namespace.
abbrev pub ca_name_of : String → String → List String → Option String
ca_name_of namespace secret (secret_namespace ∷ name ∷ []) =
    if secret_namespace == namespace then some name else none
ca_name_of namespace secret parts = some secret

abbrev pub ca_ref : String → LocalRef
ca_ref name = record { group = ""; kind = "ConfigMap"; name = name }

abbrev pub new_policy : String → String → String → String → BackendTlsPolicy
new_policy namespace service hostname ca = record {
  namespace = namespace;
  name = service +++ "-backend-tls";
  service = service;
  hostname = hostname;
  ca_refs = ca_ref ca ∷ [];
}

abbrev pub same_refs : List LocalRef → List LocalRef → Bool
same_refs [] [] = true
same_refs [] (y ∷ ys) = false
same_refs (x ∷ xs) [] = false
same_refs (x ∷ xs) (y ∷ ys) =
    (x.group == y.group) && ((x.kind == y.kind) && ((x.name == y.name) && same_refs xs ys))

abbrev pub same_validation : BackendTlsPolicy → BackendTlsPolicy → Bool
same_validation p q = (p.hostname == q.hostname) && same_refs p.ca_refs q.ca_refs

abbrev pub Policies : Type 0
Policies = Dict NamespacedName BackendTlsPolicy

-- The first policy of a Service stays.
abbrev pub store_policy :
    Ingress
    → NamespacedName
    → BackendTlsPolicy
    → Option BackendTlsPolicy
    → Policies
    → Policies × List Notice
store_policy ing key policy none policies = (insert key policy policies, [])
store_policy ing key policy (some existing) policies = (
  policies,
  if same_validation policy existing
      then []
      else warn
          "Conflict detected for BackendTLSPolicy %s. Ingress %s/%s defines different TLS settings than a previously processed Ingress. Keeping the first one."
          (key.name ∷ ing.namespace ∷ ing.name ∷ [])
        ∷ [],
)

abbrev pub with_ca : String → String → Ingress → Policies → Option String → Policies × List Notice
with_ca namespace service ing policies none = (
  policies,
  report_error
        "Ingress %s/%s specifies backend TLS secret %s in a different namespace. BackendTLSPolicy only supports local references. Policy will not be generated."
        (ing.namespace ∷ ing.name ∷ annotation proxy_ssl_secret_annotation ing ∷ [])
      ∷ [],
)
with_ca namespace service ing policies (some ca) =
    let policy = new_policy namespace service (annotation proxy_ssl_name_annotation ing) ca in
    let key : NamespacedName = record { namespace = namespace; name = policy.name } in
    let stored = store_policy ing key policy (lookup key policies) policies in
    (
      stored.0,
      warn
            "Ingress %s/%s: mTLS will not be configured. The original Secret %q contains client certificates (tls.crt/tls.key) for mutual TLS authentication, but Gateway API BackendTLSPolicy does not support client certificate authentication. Only server CA verification will be configured."
            (ing.namespace ∷ ing.name ∷ annotation proxy_ssl_secret_annotation ing ∷ [])
          ∷ inform
              "Ingress %s/%s: The generated BackendTLSPolicy references a ConfigMap %q for CA certificate validation. You must create a ConfigMap named %q in namespace %q with the CA certificate from your Secret under the key \"ca.crt\"."
              (ing.namespace ∷ ing.name ∷ ca ∷ ca ∷ namespace ∷ [])
          ∷ stored.1,
    )

abbrev pub validated : String → String → Ingress → Policies → List String → Policies × List Notice
validated namespace service ing policies [] =
    let secret = annotation proxy_ssl_secret_annotation ing in
    with_ca namespace service ing policies (ca_name_of namespace secret (split2 b'/' secret))
validated namespace service ing policies (e ∷ errors) = (
  policies,
  report_error
        "Ingress %s/%s requested backend TLS but failed strict validation requirements to emit a BackendTLSPolicy: %s"
        (ing.namespace ∷ ing.name ∷ join ", " (e ∷ errors) ∷ [])
      ∷ [],
)

abbrev pub uses_tls : Ingress → Bool
uses_tls ing =
    let protocol = annotation backend_protocol_annotation ing in
    (protocol == "HTTPS") || (protocol == "GRPCS")

-- One backend of a rule.
abbrev pub backend_policy : String → BackendRef → Option Ingress → Policies → Policies × List Notice
backend_policy namespace b none policies = (policies, [])
backend_policy namespace b (some ing) policies =
    let made = validated namespace b.name ing policies (validation_errors ing) in
    if is_service b && uses_tls ing
    then (made.0, unsupported_notices ing ++ made.1)
    else (policies, [])

-- The loop over the sources of a rule, with the Ingress of the rule: every source stands for the
-- backend at its index, if there is one.
unfoldable pub rule_policies :
    String
    → Go (Option Ingress)
    → List BackendSource
    → List BackendRef
    → Policies
    → Go (Policies × List Notice)
unfolding validation_errors unsupported_notices
rule_policies namespace primary [] refs policies = done (policies, [])
rule_policies namespace primary (s ∷ srcs) [] policies =
    primary >>= λ ing. rule_policies namespace primary srcs [] policies
rule_policies namespace primary (s ∷ srcs) (b ∷ bs) policies = primary >>= λ ing.
    let x = backend_policy namespace b ing policies in
    rule_policies namespace primary srcs bs x.0 >>= λ y. done (y.0, x.1 ++ y.1)

unfoldable pub rules_policies :
    String → List (List BackendSource) → List HttpRouteRule → Policies → Go (Policies × List Notice)
unfolding rule_policies
rules_policies namespace [] rules policies = done (policies, [])
rules_policies namespace (srcs ∷ sources) [] policies = done (policies, [])
rules_policies namespace (srcs ∷ sources) (rule ∷ rules) policies =
    rule_policies namespace (get_non_canary_ingress srcs) srcs rule.backend_refs policies >>= λ x.
    rules_policies namespace sources rules x.0 >>= λ y. done (y.0, x.1 ++ y.1)

-- The loop over the sorted keys.
unfoldable pub routes_policies :
    Dict NamespacedName HttpRouteContext
    → List NamespacedName
    → Policies
    → Go (Policies × List Notice)
unfolding rules_policies
routes_policies routes [] policies = done (policies, [])
routes_policies routes (key ∷ keys) policies = elim (lookup key routes) [
  | none ↦ routes_policies routes keys policies
  | some c ↦ rules_policies c.route.namespace c.rule_backend_sources c.route.rules policies >>= λ x.
      routes_policies routes keys x.0 >>= λ y. done (y.0, x.1 ++ y.1)
]

-- `backendTLSFeature`
unfoldable pub backend_tls_feature : ProviderIr → Go (ProviderIr × List Notice)
unfolding routes_policies
backend_tls_feature ir =
    routes_policies ir.http_routes (sort_keys (keys_in ir.http_routes)) ir.backend_tls_policies
    >>= λ y. done (record ir { backend_tls_policies = y.0 }, y.1)
