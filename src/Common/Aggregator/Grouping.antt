-- ===== src/Common/Aggregator/Grouping.antt =====
-- Which rules a group holds, and what its key says.
use text.Mathlib.TextEquality.{eq_iff}
use mathlib.Core.List.{append_assoc, append-nil}
use mathlib.Core.Path.{subst}
use ingress2gateway.Base.{
  ◌≡◌, refl, sym, ap, ◌∙◌, ◌≢◌, false, Option, none, some, List, [], ◌∷◌, ◌++◌, String,
  if◌then◌else◌, string_comparable, ◌==◌, arith, Bool-cases, append-if, eq_of_some-eq, inl, inr,
}
use ingress2gateway.Base.Dict.{lookup, lookup-insert}
use ingress2gateway.Base.Text.{◌+++◌, has_char, split2}
use ingress2gateway.Base.Pieces.{split2_pieces}
use ingress2gateway.Api.Ingress.{Ingress, IngressRule, IngressBackend}
use ingress2gateway.Common.Names.{get_ingress_class}
use ingress2gateway.Common.Paths.{RuleSource}
use ingress2gateway.Common.Aggregator.{
  Protocol, http, grpc, protocol_text, RuleGroup, Aggregator, rule_group_key, new_group,
  group_or_new, extend_group, add_ingress_rule, add_rules, add_default_backend, add_ingress,
  add_ingresses,
}

abbrev rules_in : Option RuleGroup → List RuleSource
rules_in none = []
rules_in (some rg) = rg.rules

-- The rules of the group with that key.
abbrev pub group_rules : String → Aggregator → List RuleSource
group_rules k a = rules_in (lookup k a.rule_groups)

-- The rules of the list whose group has that key, each with its Ingress.
abbrev pub keyed_rules : String → Protocol → Ingress → List IngressRule → List RuleSource
keyed_rules k protocol ingress [] = []
keyed_rules k protocol ingress (rule ∷ rules) =
    let rest = keyed_rules k protocol ingress rules in
    if rule_group_key ingress.namespace (get_ingress_class ingress) rule.host protocol == k
    then record { ingress = ingress; rule = rule } ∷ rest
    else rest

abbrev pub all_keyed_rules : String → Protocol → List Ingress → List RuleSource
all_keyed_rules k protocol [] = []
all_keyed_rules k protocol (ingress ∷ ingresses) =
    keyed_rules k protocol ingress ingress.rules ++ all_keyed_rules k protocol ingresses

add_ingress_rule-rules :
    (a : Aggregator) (ingress : Ingress) (class : String) (rule : IngressRule) (protocol : Protocol)
    (k : String)
    → group_rules k (add_ingress_rule a ingress class rule protocol)
      ≡ group_rules k a
        ++ (if rule_group_key ingress.namespace class rule.host protocol == k
            then record { ingress = ingress; rule = rule } ∷ []
            else [])
unfolding add_ingress_rule group_or_new
add_ingress_rule-rules a ingress class rule protocol k =
    let key = rule_group_key ingress.namespace class rule.host protocol in
    ground (
      arith,
      lookup-insert key k
          (extend_group
            (group_or_new (lookup key a.rule_groups) (new_group ingress class rule protocol))
            ingress rule)
          a.rule_groups,
      eq_iff key k,
      append-nil (group_rules k a),
    )

add_rules-rules :
    (a : Aggregator) (ingress : Ingress) (rules : List IngressRule) (protocol : Protocol)
    (k : String)
    → group_rules k (add_rules a ingress (get_ingress_class ingress) rules protocol)
      ≡ group_rules k a ++ keyed_rules k protocol ingress rules
unfolding add_rules
add_rules-rules a ingress [] protocol k = sym (append-nil _)
add_rules-rules a ingress (rule ∷ rules) protocol k =
    add_rules-rules (add_ingress_rule a ingress (get_ingress_class ingress) rule protocol) ingress
      rules protocol k
    ∙ ap (λ l. l ++ keyed_rules k protocol ingress rules)
        (add_ingress_rule-rules a ingress (get_ingress_class ingress) rule protocol k)
    ∙ append-if
        (rule_group_key ingress.namespace (get_ingress_class ingress) rule.host protocol == k)
        (record { ingress = ingress; rule = rule }) (group_rules k a)
        (keyed_rules k protocol ingress rules)

add_default_backend-groups :
    (a : Aggregator) (ingress : Ingress) (class : String) (o : Option IngressBackend)
    → (add_default_backend a ingress class o).rule_groups ≡ a.rule_groups
unfolding add_default_backend
add_default_backend-groups a ingress class none = refl
add_default_backend-groups a ingress class (some b) = refl

add_ingress-rules :
    (a : Aggregator) (ingress : Ingress) (protocol : Protocol) (k : String)
    → group_rules k (add_ingress a ingress protocol)
      ≡ group_rules k a ++ keyed_rules k protocol ingress ingress.rules
unfolding add_ingress
add_ingress-rules a ingress protocol k =
    ap (λ m. rules_in (lookup k m))
      (add_default_backend-groups
        (add_rules a ingress (get_ingress_class ingress) ingress.rules protocol) ingress
        (get_ingress_class ingress) ingress.default_backend)
    ∙ add_rules-rules a ingress ingress.rules protocol k

-- After a list of Ingresses, a group has the rules it had, and then those of the list whose
-- namespace, class, host and protocol give its key, in order; none is lost.
pub add_ingresses-rules :
    (a : Aggregator) (ingresses : List Ingress) (protocol : Protocol) (k : String)
    → group_rules k (add_ingresses a ingresses protocol)
      ≡ group_rules k a ++ all_keyed_rules k protocol ingresses
unfolding add_ingresses
add_ingresses-rules a [] protocol k = sym (append-nil _)
add_ingresses-rules a (ingress ∷ ingresses) protocol k =
    add_ingresses-rules (add_ingress a ingress protocol) ingresses protocol k
    ∙ ap (λ l. l ++ all_keyed_rules k protocol ingresses) (add_ingress-rules a ingress protocol k)
    ∙ append_assoc (group_rules k a) (keyed_rules k protocol ingress ingress.rules)
        (all_keyed_rules k protocol ingresses)

-- Namespaces, classes and hosts without a "/", and protocols, give the same key only if they are
-- the same.
pub rule_group_key-injective :
    (n c h n' c' h' : String) (p p' : Protocol)
    → (has_char b'/' n ≡ false) × (has_char b'/' c ≡ false) × (has_char b'/' h ≡ false)
    → (has_char b'/' n' ≡ false) × (has_char b'/' c' ≡ false) × (has_char b'/' h' ≡ false)
    → rule_group_key n c h p ≡ rule_group_key n' c' h' p'
    → (n ≡ n') × (c ≡ c') × (h ≡ h') × (p ≡ p')
unfolding rule_group_key
rule_group_key-injective n c h n' c' h' p p' (pn, pc, ph) (qn, qc, qh) e =
    let (en, e1) =
      piece n n' (c +++ "/" +++ h +++ "/" +++ protocol_text p)
        (c' +++ "/" +++ h' +++ "/" +++ protocol_text p') pn qn e in
    let (ec, e2) =
      piece c c' (h +++ "/" +++ protocol_text p) (h' +++ "/" +++ protocol_text p') pc qc e1 in
    let (eh, e3) = piece h h' (protocol_text p) (protocol_text p') ph qh e2 in
    (en, ec, eh, protocol_of p p' e3)
  where
    piece :
        (s s' t t' : String)
        → has_char b'/' s ≡ false
        → has_char b'/' s' ≡ false
        → s +++ "/" +++ t ≡ s' +++ "/" +++ t'
        → (s ≡ s') × (t ≡ t')
    piece s s' t t' a b q =
        two (sym (split2_pieces s t a) ∙ ap (split2 b'/') q ∙ split2_pieces s' t' b)
      where
        two : s ∷ t ∷ [] ≡ s' ∷ t' ∷ [] → (s ≡ s') × (t ≡ t')
        two r = (cc, cc)

    protocol_of : (p p' : Protocol) → protocol_text p ≡ protocol_text p' → p ≡ p'
    protocol_of http http q = refl
    protocol_of grpc grpc q = refl
    protocol_of http grpc q = absurd (ground (arith, eq_iff "http" "grpc"))
    protocol_of grpc http q = absurd (ground (arith, eq_iff "grpc" "http"))

-- What the key of a group says about it.
abbrev pub IsKeyed : String → RuleGroup → Type 0
IsKeyed k rg =
    (rule_group_key rg.namespace rg.ingress_class rg.host rg.protocol ≡ k) × (rg.rules ≢ [])

abbrev pub AllKeyed : Aggregator → Type 0
AllKeyed a = (k : String) (rg : RuleGroup) → lookup k a.rule_groups ≡ some rg → IsKeyed k rg

append-ne-nil : (xs : List RuleSource) (x : RuleSource) → xs ++ x ∷ [] ≢ []
append-ne-nil [] x = cc
append-ne-nil (y ∷ ys) x = cc

module _ (a : Aggregator) (ingress : Ingress) (class : String) (rule : IngressRule)
    (protocol : Protocol) (h : AllKeyed a) where
  abbrev key : String
  key = rule_group_key ingress.namespace class rule.host protocol

  updated : Option RuleGroup → RuleGroup
  updated o = extend_group (group_or_new o (new_group ingress class rule protocol)) ingress rule

  updated-IsKeyed : (o : Option RuleGroup) → lookup key a.rule_groups ≡ o → IsKeyed key (updated o)
  unfolding updated group_or_new
  updated-IsKeyed none e = (refl, append-ne-nil [] (record { ingress = ingress; rule = rule }))
  updated-IsKeyed (some rg) e =
      ((h key rg e).0, append-ne-nil rg.rules (record { ingress = ingress; rule = rule }))

  add_ingress_rule-AllKeyed : AllKeyed (add_ingress_rule a ingress class rule protocol)
  unfolding add_ingress_rule updated
  add_ingress_rule-AllKeyed k rg e = elim (Bool-cases (key == k)) [
    | inl same ↦
        subst (λ j. IsKeyed j rg) ((eq_iff key k).0 same)
          (subst (IsKeyed key) (eq_of_some-eq (rw same at after))
            (updated-IsKeyed (lookup key a.rule_groups) refl))
    | inr other ↦ h k rg (rw other at after)
  ]
    where
      after :
          (if key == k then some (updated (lookup key a.rule_groups)) else lookup k a.rule_groups)
          ≡ some rg
      after = sym (lookup-insert key k (updated (lookup key a.rule_groups)) a.rule_groups) ∙ e

add_rules-AllKeyed :
    (a : Aggregator) (ingress : Ingress) (class : String) (rules : List IngressRule)
    (protocol : Protocol)
    → AllKeyed a
    → AllKeyed (add_rules a ingress class rules protocol)
unfolding add_rules
add_rules-AllKeyed a ingress class [] protocol h = h
add_rules-AllKeyed a ingress class (rule ∷ rules) protocol h =
    add_rules-AllKeyed (add_ingress_rule a ingress class rule protocol) ingress class rules protocol
      (add_ingress_rule-AllKeyed a ingress class rule protocol h)

add_ingress-AllKeyed :
    (a : Aggregator) (ingress : Ingress) (protocol : Protocol)
    → AllKeyed a
    → AllKeyed (add_ingress a ingress protocol)
unfolding add_ingress
add_ingress-AllKeyed a ingress protocol h k rg e =
    add_rules-AllKeyed a ingress (get_ingress_class ingress) ingress.rules protocol h k rg (
      ap (lookup k) (
        sym (
          add_default_backend-groups
            (add_rules a ingress (get_ingress_class ingress) ingress.rules protocol) ingress
            (get_ingress_class ingress) ingress.default_backend))
      ∙ e)

-- If every group stands under the key made of its own namespace, class, host and protocol, and
-- holds a rule, then so it is after a list of Ingresses.
pub add_ingresses-AllKeyed :
    (a : Aggregator) (ingresses : List Ingress) (protocol : Protocol)
    → AllKeyed a
    → AllKeyed (add_ingresses a ingresses protocol)
unfolding add_ingresses
add_ingresses-AllKeyed a [] protocol h = h
add_ingresses-AllKeyed a (ingress ∷ ingresses) protocol h =
    add_ingresses-AllKeyed (add_ingress a ingress protocol) ingresses protocol
      (add_ingress-AllKeyed a ingress protocol h)
