-- ===== src/Ingressnginx/Features/Rewrite.antt =====
-- pkg/i2gw/providers/ingressnginx/rewrite.go.
use ingress2gateway.Base.{
  Bool, false, ◌&&◌, ◌||◌, Option, none, some, List, [], ◌∷◌, code, String, string_comparable, ◌==◌,
  leb, eqb, if◌then◌else◌,
}
use ingress2gateway.Base.Dict.{Dict}
use ingress2gateway.Base.Text.{◌+++◌}
use ingress2gateway.Api.Field.{new_path}
use ingress2gateway.Api.Ingress.{Ingress}
use ingress2gateway.EmitterIr.{PathRewrite}
use ingress2gateway.Ingressnginx.Annotations.{
  Notice, annotation, nonempty_annotation?, full_name, quoted, rewrite_target_annotation,
  x_forwarded_prefix_annotation,
}
use ingress2gateway.Ingressnginx.Features.{RuleFeature}
use ingress2gateway.Ingressnginx.Regex.{regex_hosts, has_host_in}

-- Whether the first character is a digit.
abbrev pub starts_with_digit : String → Bool
starts_with_digit String.[] = false
starts_with_digit (String.◌∷◌ c s) = leb b'0' (code c) && leb (code c) b'9'

-- `captureGroupReferenceRegex.MatchString`
unfoldable pub has_capture_group_reference : String → Bool
has_capture_group_reference String.[] = false
has_capture_group_reference (String.◌∷◌ c s) =
    (eqb (code c) b'$' && starts_with_digit s) || has_capture_group_reference s

abbrev pub rewrite_headers : Option String → Dict String String
rewrite_headers none = []
rewrite_headers (some val) = ("X-Forwarded-Prefix", val) ∷ []

abbrev pub path_rewrite : Bool → Ingress → String → PathRewrite
path_rewrite has_regex ing target =
    let refers = has_regex && has_capture_group_reference target in
    record {
      metadata = record {
        source = "rewrite-target from Ingress " +++ full_name ing;
        paths = new_path ("metadata" ∷ "annotations" ∷ quoted rewrite_target_annotation ∷ []) ∷ [];
        failure_message =
            if refers
            then "Path rewrites with capture group references are not supported"
            else "Could not apply rewrite-target annotation";
      };
      replace_full_path = target;
      headers = rewrite_headers (nonempty_annotation? x_forwarded_prefix_annotation ing);
      regex_capture_group_references = refers;
    }

unfoldable pub read_rewrite : Bool → Ingress → Option PathRewrite × List Notice
unfolding has_capture_group_reference
read_rewrite has_regex ing =
    let target = annotation rewrite_target_annotation ing in
    if target == "" then (none, []) else (some (path_rewrite has_regex ing target), [])

-- `applyRewriteTargetToEmitterIR`
abbrev pub rewrite_feature : List Ingress → RuleFeature PathRewrite
rewrite_feature ingresses = record {
  get = λ e. e.path_rewrite_by_rule_idx;
  set = λ m e. record e { path_rewrite_by_rule_idx = m };
  rules = λ p e. e.route.rules;
  read = λ p ing. read_rewrite (has_host_in (regex_hosts ingresses) p.route.hostnames) ing;
}
