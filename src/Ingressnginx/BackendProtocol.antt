-- ===== src/Ingressnginx/BackendProtocol.antt =====
-- pkg/i2gw/providers/ingressnginx/backend_protocol.go: despite its name `createBackendTLSPolicies`
-- only collects the errors of the backends of groups with TLS.
use ingress2gateway.Base.{
  Bool, false, ◌||◌, Option, none, some, List, [], ◌∷◌, ◌++◌, String, string_comparable,
  if◌then◌else◌, Go, done, panic, ◌>>=◌,
}
use ingress2gateway.Base.Dict.{Dict}
use ingress2gateway.Base.Strings.{is_upper_of}
use ingress2gateway.Api.Field.{FieldError, Result, err, ok, new_path}
use ingress2gateway.Api.Ingress.{Ingress, HttpIngressPath}
use ingress2gateway.Api.Gateway.{BackendRef}
use ingress2gateway.Common.Backends.{ServicePorts, to_backend_ref}
use ingress2gateway.Common.Paths.{RuleSource}
use ingress2gateway.Common.Features.{FeatureGroup, get_rule_groups}
use ingress2gateway.Ingressnginx.Annotations.{nonempty_annotation?, backend_protocol_annotation}

-- The protocol of a group: of the first rule that has one, before `strings.ToUpper`.
unfoldable pub group_protocol : List RuleSource → Option String
group_protocol [] = none
group_protocol (r ∷ rules) =
    let rest = group_protocol rules in
    elim (nonempty_annotation? backend_protocol_annotation r.ingress) [
      | none ↦ rest
      | some val ↦ some val
    ]

abbrev pub has_tls : Option String → Bool
has_tls none = false
has_tls (some val) = is_upper_of val "HTTPS" || is_upper_of val "GRPCS"

abbrev pub errors_of : Result BackendRef → List FieldError
errors_of (err e) = e ∷ []
errors_of (ok b) = []

unfoldable pub path_errors : String → ServicePorts → List HttpIngressPath → Go (List FieldError)
path_errors namespace ports [] = done []
path_errors namespace ports (p ∷ paths) =
    to_backend_ref namespace p.backend ports (new_path ("backend" ∷ [])) >>= λ r.
    path_errors namespace ports paths >>= λ errors. done (errors_of r ++ errors)

-- `rule.IngressRule.HTTP.Paths` panics where `HTTP` is nil.
unfoldable pub rule_errors : String → ServicePorts → List RuleSource → Go (List FieldError)
unfolding path_errors
rule_errors namespace ports [] = done []
rule_errors namespace ports (r ∷ rules) = elim r.rule.http [
  | none ↦ panic
  | some paths ↦ path_errors namespace ports paths >>= λ here.
      rule_errors namespace ports rules >>= λ errors. done (here ++ errors)
]

unfoldable pub group_errors : ServicePorts → Dict String FeatureGroup → Go (List FieldError)
unfolding group_protocol rule_errors
group_errors ports [] = done []
group_errors ports ((key, rg) ∷ groups) =
    let here =
      if has_tls (group_protocol rg.rules)
      then rule_errors rg.namespace ports rg.rules
      else done [] in
    here >>= λ es. group_errors ports groups >>= λ errors. done (es ++ errors)

-- `createBackendTLSPolicies`
unfoldable pub create_backend_tls_policies : List Ingress → ServicePorts → Go (List FieldError)
unfolding group_errors
create_backend_tls_policies ingresses ports = group_errors ports (get_rule_groups ingresses)
