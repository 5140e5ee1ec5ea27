-- ===== src/Ingressnginx/Features/IpRange.antt =====
-- pkg/i2gw/providers/ingressnginx/iprange.go.
use ingress2gateway.Base.{Option, none, some, List, [], ◌∷◌, ◌++◌, String, string_comparable}
use ingress2gateway.Base.Strings.{comma_list}
use ingress2gateway.Api.Field.{FieldPath}
use ingress2gateway.Api.Ingress.{Ingress}
use ingress2gateway.EmitterIr.{IpRangeControl}
use ingress2gateway.Ingressnginx.Annotations.{
  Notice, annotation?, full_name, annotation_path, white_list_source_range_annotation,
  deny_list_source_range_annotation,
}
use ingress2gateway.Ingressnginx.Features.{RuleFeature}

-- `parseIPSourceRangeAnnotation`, with a nil list for a missing key.
unfoldable pub parse_ip_source_range_annotation : Ingress → String → List String
parse_ip_source_range_annotation ingress key = elim (annotation? key ingress) [
  | none ↦ []
  | some value ↦ comma_list value
]

abbrev pub path_unless_empty : Ingress → String → List String → List FieldPath
path_unless_empty ingress key [] = []
path_unless_empty ingress key (x ∷ xs) = annotation_path ingress key ∷ []

abbrev pub ip_range_entry : Ingress → List String → List String → Option IpRangeControl
ip_range_entry ingress [] [] = none
ip_range_entry ingress allow deny = some (record {
  metadata = record {
    source = full_name ingress;
    paths =
        path_unless_empty ingress white_list_source_range_annotation allow
        ++ path_unless_empty ingress deny_list_source_range_annotation deny;
    failure_message = "IP-based authorization is not supported";
  };
  allow_list = allow;
  deny_list = deny;
})

unfoldable pub read_ip_range : Ingress → Option IpRangeControl × List Notice
read_ip_range ingress = (
  ip_range_entry ingress
      (parse_ip_source_range_annotation ingress white_list_source_range_annotation)
      (parse_ip_source_range_annotation ingress deny_list_source_range_annotation),
  [],
)

-- `applyIPRangeControlToEmitterIR`
abbrev pub ip_range_feature : RuleFeature IpRangeControl
ip_range_feature = record {
  get = λ e. e.ip_range_control_by_rule_idx;
  set = λ m e. record e { ip_range_control_by_rule_idx = m };
  rules = λ p e. p.route.rules;
  read = λ p ingress. read_ip_range ingress;
}
