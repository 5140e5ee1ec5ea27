-- ===== src/Ingressnginx/Features/Cors/Texts.antt =====
-- pkg/i2gw/providers/ingressnginx/cors.go: the values that the texts of the CORS annotations give.
use ingress2gateway.Base.{
  ◌≡◌, refl, sym, inl, inr, Bool, true, false, not, Bool-cases, Option, none, some, List, [], ◌∷◌,
  contains, keep, All, String, string_comparable, ◌==◌, if◌then◌else◌, nat_comparable,
}
use text.Mathlib.TextEquality.{eq_iff}
use mathlib.Core.Path.{subst}
use ingress2gateway.Base.Int.{pos, int_comparable}
use ingress2gateway.Base.ParseInt.{parse_int, parse_int_at, int32_parsed}
use ingress2gateway.Base.Strings.{comma_list, parse_bool, true_texts, false_texts}
use ingress2gateway.Api.Ingress.{Ingress, namespaced_name_comparable}
use ingress2gateway.Ingressnginx.Annotations.{
  annotation?, nonempty_annotation?, cors_max_age_annotation,
}
use ingress2gateway.Ingressnginx.Features.Cors.{
  parsed_max_age, max_age_of, items_or, is_enabled, credentials_of,
}

-- The text of an annotation, "" without one.
abbrev pub text_of : Option String → String
text_of none = ""
text_of (some v) = v

abbrev pub text_at : String → Ingress → String
text_at key i = text_of (annotation? key i)

-- The items of a list with commas that are not blank, or the default for an empty list.
abbrev pub listed : List String → String → List String
listed default text =
    if text == "" then default else keep (λ item. not (item == "")) (comma_list text)

pub enabled_lem : (o : Option String) → is_enabled o ≡ contains (text_of o) true_texts
unfolding parse_bool
enabled_lem none = refl
enabled_lem (some v) = by_tests (contains v true_texts) (contains v false_texts)
  where
    by_tests :
        (a b : Bool)
        → elim (if a then some true else if b then some false else none) as (λ x. Bool) [
          | none ↦ false
          | some enabled ↦ enabled
        ]
          ≡ a
    by_tests true b = refl
    by_tests false true = refl
    by_tests false false = refl

of_member :
    (P : String → Type 0) (ss : List String) (s : String) → All P ss → contains s ss ≡ true → P s
of_member P [] s h c = cc
of_member P (t ∷ ss) s (p, h) c = elim (Bool-cases (s == t)) [
  | inl same ↦ subst P (sym ((eq_iff s t).0 same)) p
  | inr other ↦ of_member P ss s h (rw other at c)
]

-- No text is read as both.
false_of-true : (v : String) → contains v true_texts ≡ true → contains v false_texts ≡ false
false_of-true v h =
    of_member (λ t. contains t false_texts ≡ false) true_texts v
      (refl, (refl, (refl, (refl, (refl, (refl, tt)))))) h

pub credentials_lem :
    (o : Option String) → credentials_of o ≡ not (contains (text_of o) false_texts)
unfolding parse_bool
credentials_lem none = refl
credentials_lem (some v) =
    by_tests (contains v true_texts) (contains v false_texts) (false_of-true v)
  where
    by_tests :
        (a b : Bool)
        → (a ≡ true → b ≡ false)
        → elim (if a then some true else if b then some false else none) as (λ x. Bool) [
          | none ↦ true
          | some allowed ↦ allowed
        ]
          ≡ not b
    by_tests true b h = rw (h refl) refl
    by_tests false true h = refl
    by_tests false false h = refl

pub listed_lem :
    (default : List String) (key : String) (i : Ingress)
    → items_or default (nonempty_annotation? key i) ≡ listed default (text_at key i)
listed_lem default key i = by_text (annotation? key i)
  where
    by_text :
        (o : Option String)
        → items_or default (elim o [ none ↦ none | some v ↦ if v == "" then none else some v ])
          ≡ listed default (text_of o)
    by_text none = refl
    by_text (some v) = elim (Bool-cases (v == "")) [
      | inl empty ↦ rw empty refl
      | inr given ↦ rw given refl
    ]

pub age_lem :
    (i : Ingress)
    → (max_age_of (nonempty_annotation? cors_max_age_annotation i)).0 ≡ (
        if (parse_int (text_at cors_max_age_annotation i)).failed
        then pos 1728000
        else (parse_int (text_at cors_max_age_annotation i)).value)
unfolding max_age_of parse_int parse_int_at
age_lem i = by_text (annotation? cors_max_age_annotation i)
  where
    given_lem :
        (v : String)
        → (parsed_max_age v (parse_int v)).0
          ≡ (if (parse_int v).failed then pos 1728000 else (parse_int v).value)
    given_lem v = elim (Bool-cases (parse_int v).failed) [
      | inl failed ↦ rw failed refl
      | inr read ↦ rw read (int32_parsed v)
    ]

    empty_lem :
        (v : String)
        → v ≡ ""
        → pos 1728000 ≡ (if (parse_int v).failed then pos 1728000 else (parse_int v).value)
    empty_lem v e = rw e refl

    by_text :
        (o : Option String)
        → (max_age_of (elim o [ none ↦ none | some v ↦ if v == "" then none else some v ])).0
          ≡ (if (parse_int (text_of o)).failed then pos 1728000 else (parse_int (text_of o)).value)
    by_text none = refl
    by_text (some v) = elim (Bool-cases (v == "")) [
      | inl empty ↦ rw empty (empty_lem v ((eq_iff v "").0 empty))
      | inr given ↦ rw given (given_lem v)
    ]
