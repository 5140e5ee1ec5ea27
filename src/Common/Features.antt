-- ===== src/Common/Features.antt =====
-- `GetRuleGroups` of pkg/i2gw/providers/common/utils.go: the groups that the feature parsers of a
-- provider visit. Their keys have no protocol.
use ingress2gateway.Base.{Option, none, some, List, [], ◌∷◌, ◌++◌, String, string_comparable}
use ingress2gateway.Base.Dict.{Dict, lookup, insert}
use ingress2gateway.Base.Text.{◌+++◌}
use ingress2gateway.Api.Ingress.{Ingress, IngressRule, IngressTls}
use ingress2gateway.Common.Names.{get_ingress_class}
use ingress2gateway.Common.Paths.{RuleSource}

-- `IngressRuleGroup`
pub record FeatureGroup : Type 0 where
  pub namespace : String
  pub name : String
  pub ingress_class : String
  pub host : String
  pub tls : List IngressTls
  pub rules : List RuleSource

abbrev pub feature_group_or_new :
    Option FeatureGroup → Ingress → String → IngressRule → FeatureGroup
feature_group_or_new (some rg) ingress class rule = rg
feature_group_or_new none ingress class rule = record {
  namespace = ingress.namespace;
  name = ingress.name;
  ingress_class = class;
  host = rule.host;
  tls = [];
  rules = [];
}

abbrev pub add_feature_rules :
    Dict String FeatureGroup → Ingress → String → List IngressRule → Dict String FeatureGroup
add_feature_rules groups ingress class [] = groups
add_feature_rules groups ingress class (rule ∷ rules) =
    let key = ingress.namespace +++ "/" +++ class +++ "/" +++ rule.host in
    let rg = feature_group_or_new (lookup key groups) ingress class rule in
    add_feature_rules
      (insert key
        (record rg {
          tls = rg.tls ++ ingress.tls;
          rules = rg.rules ++ record { ingress = ingress; rule = rule } ∷ [];
        })
        groups)
      ingress class rules

abbrev pub add_feature_ingresses :
    Dict String FeatureGroup → List Ingress → Dict String FeatureGroup
add_feature_ingresses groups [] = groups
add_feature_ingresses groups (ingress ∷ ingresses) =
    add_feature_ingresses
      (add_feature_rules groups ingress (get_ingress_class ingress) ingress.rules) ingresses

unfoldable pub get_rule_groups : List Ingress → Dict String FeatureGroup
get_rule_groups ingresses = add_feature_ingresses [] ingresses
