-- ===== src/Common/Aggregator.antt =====
-- pkg/i2gw/providers/common/converter.go: the rules of all Ingresses, gathered in groups by
-- namespace, class, host and protocol. The map of groups holds pointers that only this code
-- updates, so a group is updated in place by writing it back.
pub mod Grouping
pub mod Valid
use ingress2gateway.Base.{
  ℕ, ◌≡◌, refl, Bool, true, false, Option, none, some, List, [], ◌∷◌, ◌++◌, String, if◌then◌else◌,
  string_comparable,
}
use ingress2gateway.Base.Dict.{Dict, lookup, insert}
use ingress2gateway.Base.Text.{◌+++◌}
use ingress2gateway.Api.Ingress.{Ingress, IngressRule, IngressTls, IngressBackend}
use ingress2gateway.Common.Names.{get_ingress_class}
use ingress2gateway.Common.Paths.{RuleSource}

pub data Protocol : Type 0 where
  http grpc : Protocol

-- The string that a protocol is.
abbrev pub protocol_text : Protocol → String
protocol_text http = "http"
protocol_text grpc = "grpc"

-- `ingressRuleGroup`
pub record RuleGroup : Type 0 where
  pub namespace : String
  pub name : String
  pub ingress_class : String
  pub host : String
  pub tls : List IngressTls
  pub rules : List RuleSource
  pub protocol : Protocol

-- `ingressDefaultBackend`
pub record DefaultBackend : Type 0 where
  pub name : String
  pub namespace : String
  pub ingress_class : String
  pub backend : IngressBackend
  pub source_ingress : Ingress

-- `ingressAggregator`, without the service ports, which are passed along.
pub record Aggregator : Type 0 where
  pub rule_groups : Dict String RuleGroup
  pub default_backends : List DefaultBackend

unfoldable pub rule_group_key : String → String → String → Protocol → String
rule_group_key namespace class host protocol =
    namespace +++ "/" +++ class +++ "/" +++ host +++ "/" +++ protocol_text protocol

abbrev pub new_group : Ingress → String → IngressRule → Protocol → RuleGroup
new_group ingress class rule protocol = record {
  namespace = ingress.namespace;
  name = ingress.name;
  ingress_class = class;
  host = rule.host;
  tls = [];
  rules = [];
  protocol = protocol;
}

group_or_new : Option RuleGroup → RuleGroup → RuleGroup
group_or_new none new = new
group_or_new (some rg) new = rg

-- The append of no TLS entries, which the code leaves out, changes nothing.
abbrev pub extend_group : RuleGroup → Ingress → IngressRule → RuleGroup
extend_group rg ingress rule = record rg {
  tls = rg.tls ++ ingress.tls;
  rules = rg.rules ++ record { ingress = ingress; rule = rule } ∷ [];
}

unfoldable pub add_ingress_rule :
    Aggregator → Ingress → String → IngressRule → Protocol → Aggregator
unfolding rule_group_key group_or_new
add_ingress_rule a ingress class rule protocol =
    let key = rule_group_key ingress.namespace class rule.host protocol in
    let rg = group_or_new (lookup key a.rule_groups) (new_group ingress class rule protocol) in
    record a { rule_groups = insert key (extend_group rg ingress rule) a.rule_groups }

add_rules : Aggregator → Ingress → String → List IngressRule → Protocol → Aggregator
add_rules a ingress class [] protocol = a
add_rules a ingress class (rule ∷ rules) protocol =
    add_rules (add_ingress_rule a ingress class rule protocol) ingress class rules protocol

add_default_backend : Aggregator → Ingress → String → Option IngressBackend → Aggregator
add_default_backend a ingress class none = a
add_default_backend a ingress class (some backend) = record a {
  default_backends =
      a.default_backends
      ++ record {
        name = ingress.name;
        namespace = ingress.namespace;
        ingress_class = class;
        backend = backend;
        source_ingress = ingress;
      }
        ∷ [];
}

unfoldable pub add_ingress : Aggregator → Ingress → Protocol → Aggregator
unfolding add_ingress_rule add_rules add_default_backend
add_ingress a ingress protocol =
    let class = get_ingress_class ingress in
    add_default_backend (add_rules a ingress class ingress.rules protocol) ingress class
      ingress.default_backend

-- The loops of `ToIR`.
unfoldable pub add_ingresses : Aggregator → List Ingress → Protocol → Aggregator
unfolding add_ingress
add_ingresses a [] protocol = a
add_ingresses a (ingress ∷ ingresses) protocol =
    add_ingresses (add_ingress a ingress protocol) ingresses protocol

abbrev pub no_groups : Aggregator
no_groups = record { rule_groups = []; default_backends = [] }

unfoldable pub aggregate : List Ingress → List Ingress → Aggregator
unfolding add_ingresses
aggregate http_ingresses grpc_ingresses =
    add_ingresses (add_ingresses no_groups http_ingresses http) grpc_ingresses grpc
