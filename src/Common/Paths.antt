-- ===== src/Common/Paths.antt =====
-- pkg/i2gw/providers/common/utils.go and converter.go: the paths of a rule group, grouped by
-- path type and path in the order in which these first occur.
pub mod Grouping
use ingress2gateway.Base.{
  ℕ, ◌+◌, ◌≡◌, refl, Bool, true, false, Option, none, some, List, [], ◌∷◌, ◌++◌, arith, String,
  ◌==◌, string_comparable, if◌then◌else◌,
}
use ingress2gateway.Base.Dict.{Dict, lookup, lookup_or, insert}
use ingress2gateway.Base.Text.{◌+++◌}
use ingress2gateway.Api.Ingress.{Ingress, IngressRule, HttpIngressPath}

-- `ingressRule`
pub record RuleSource : Type 0 where
  pub ingress : Ingress
  pub rule : IngressRule

-- `ingressPath`
pub record IngressPath : Type 0 where
  pub rule_idx : ℕ
  pub path_idx : ℕ
  pub rule_type : String
  pub path : HttpIngressPath
  pub source_ingress : Ingress

-- `orderedIngressPathsByMatchKey`
pub record OrderedPaths : Type 0 where
  pub keys : List String
  pub entries : Dict String (List IngressPath)

path_type_text : Option String → String
path_type_text none = ""
path_type_text (some t) = t

unfoldable pub get_path_match_key : IngressPath → String
unfolding path_type_text
get_path_match_key ip = path_type_text ip.path.path_type +++ "/" +++ ip.path.path

-- The body of the inner loop.
add_path : OrderedPaths → IngressPath → OrderedPaths
add_path acc ip =
    let key = get_path_match_key ip in
    record {
      keys = elim (lookup key acc.entries) [ none ↦ acc.keys ++ key ∷ [] | some _ ↦ acc.keys ];
      entries = insert key (lookup_or [] key acc.entries ++ ip ∷ []) acc.entries;
    }

add_paths : OrderedPaths → ℕ → ℕ → Ingress → List HttpIngressPath → OrderedPaths
add_paths acc i j ingress [] = acc
add_paths acc i j ingress (p ∷ ps) =
    add_paths
      (add_path acc (record {
        rule_idx = i;
        path_idx = j;
        rule_type = "http";
        path = p;
        source_ingress = ingress;
      }))
      i (j + 1) ingress ps

-- `continue` on a rule with no `HTTP`.
add_rule : OrderedPaths → ℕ → RuleSource → OrderedPaths
add_rule acc i ir = elim ir.rule.http [
  | none ↦ acc
  | some paths ↦ add_paths acc i 0 ir.ingress paths
]

group_from : OrderedPaths → ℕ → List RuleSource → OrderedPaths
group_from acc i [] = acc
group_from acc i (ir ∷ rules) = group_from (add_rule acc i ir) (i + 1) rules

unfoldable pub group_ingress_paths_by_match_key : List RuleSource → OrderedPaths
unfolding group_from add_rule add_paths add_path get_path_match_key
group_ingress_paths_by_match_key rules = group_from (record { keys = []; entries = [] }) 0 rules
