-- ===== src/Common/Names/Collisions.antt =====
-- Which hosts pkg/i2gw/providers/common/utils.go gives the same name.
use text.Mathlib.TextEquality.{Char-path}
use text.Mathlib.TextLemmas.{cons-append, nil-append, cons-ne-nil, tail-eq_of_cons-eq}
use mathlib.Core.Bool.{false≢true}
use ingress2gateway.Base.{
  ◌≡◌, refl, ◌≢◌, sym, ap, ◌∙◌, Bool, true, false, ◌&&◌, not, arith, Char, code, String, eqb,
  eqb_iff, string_comparable, Bool-cases, inl, inr, if◌then◌else◌,
}
use ingress2gateway.Base.Text.{◌+++◌}
use ingress2gateway.Common.Names.{
  is_alnum, replace_special, trim_special, name_from_host, route_name,
}
use ingress2gateway.Common.Names.Chars.{name_from_host_cases}

-- The text begins with a letter or a digit.
abbrev pub starts_alnum : String → Bool
starts_alnum String.[] = false
starts_alnum (String.◌∷◌ c s) = is_alnum c

wildcard_append : (h : String) → "*." +++ h ≡ String.◌∷◌ "*" (String.◌∷◌ "." h)
wildcard_append h =
    cons-append "*" "." h
    ∙ ap (String.◌∷◌ "*") (cons-append "." "" h ∙ ap (String.◌∷◌ ".") (nil-append h))

trim_special-starts_alnum :
    (s : String)
    → starts_alnum s ≡ true
    → trim_special (replace_special false s) ≡ replace_special false s
unfolding trim_special replace_special
trim_special-starts_alnum String.[] h = refl
trim_special-starts_alnum (String.◌∷◌ c s) h = ground arith

replace_special-starts_alnum :
    (s : String) → starts_alnum s ≡ true → replace_special true s ≡ replace_special false s
unfolding replace_special
replace_special-starts_alnum String.[] h = refl
replace_special-starts_alnum (String.◌∷◌ c s) h = ground arith

not_special : (s : String) → starts_alnum s ≡ true → (s ≢ "") × (s ≢ "*")
unfolding is_alnum
not_special s h = (λ e. cc (rw e at h), λ e. cc (rw e at h))

wildcard-replaced :
    (h : String)
    → starts_alnum h ≡ true
    → trim_special (replace_special false ("*." +++ h)) ≡ trim_special (replace_special false h)
unfolding trim_special replace_special is_alnum
wildcard-replaced h s = rw (wildcard_append h) (ap trim_special (replace_special-starts_alnum h s))

wildcard_set : (h : String) → ("*." +++ h ≢ "") × ("*." +++ h ≢ "*")
wildcard_set h = (
  λ e. cons-ne-nil "*" (String.◌∷◌ "." h) (rw (wildcard_append h) at e),
  λ e. cons-ne-nil "." h (tail-eq_of_cons-eq (rw (wildcard_append h) at e)),
)

plain_name :
    (h : String) → (h ≢ "") × (h ≢ "*") → name_from_host h ≡ trim_special (replace_special false h)
plain_name h (a, b) = elim (name_from_host_cases h) [
  | inl (inl e, _) ↦ absurd (a e)
  | inl (inr e, _) ↦ absurd (b e)
  | inr (_, _, e) ↦ e
]

-- A wildcard host gets the name of the host under it, if that begins with a letter or a digit.
pub name_from_host-wildcard :
    (h : String) → starts_alnum h ≡ true → name_from_host ("*." +++ h) ≡ name_from_host h
name_from_host-wildcard h s =
    plain_name ("*." +++ h) (wildcard_set h)
    ∙ wildcard-replaced h s
    ∙ sym (plain_name h (not_special h s))

-- The routes of one Ingress for a host that begins with a letter or a digit and for the wildcard
-- above that host have the same name.
pub route_name-wildcard :
    (ingress_name h : String)
    → starts_alnum h ≡ true
    → route_name ingress_name ("*." +++ h) ≡ route_name ingress_name h
unfolding route_name
route_name-wildcard ingress_name h s =
    ap (λ n. ingress_name +++ "-" +++ n) (name_from_host-wildcard h s)

-- "-" read back as ".".
abbrev undash : String → String
undash String.[] = String.[]
undash (String.◌∷◌ c s) = String.◌∷◌ (if eqb (code c) b'-' then "." else c) (undash s)

-- Labels of letters and digits, separated by single dots; the flag says whether a label must
-- begin here.
abbrev pub is_dotted : Bool → String → Bool
is_dotted begin String.[] = true
is_dotted begin (String.◌∷◌ c s) =
    let rest = is_dotted (not (is_alnum c)) s in
    if is_alnum c then rest else (not begin && eqb (code c) b'.') && rest

dash_not_alnum : (c : Char) → is_alnum c ≡ true → eqb (code c) b'-' ≡ false
unfolding is_alnum
dash_not_alnum c h = ground arith

dot_path : (c : Char) → eqb (code c) b'.' ≡ true → c ≡ "."
dot_path c h = Char-path c "." ((eqb_iff _ _).0 h)

dot_step :
    (b : Bool) (c : Char) (s : String)
    → ((not b && eqb (code c) b'.') && is_dotted true s) ≡ true
    → (is_dotted true s ≡ true → undash (replace_special true s) ≡ s)
    → is_alnum c ≡ false
    → undash (replace_special b (String.◌∷◌ c s)) ≡ String.◌∷◌ c s
unfolding replace_special
dot_step true c s h ih other = cc
dot_step false c s h ih other = elim (Bool-cases (eqb (code c) b'.')) [
  | inl dot ↦ rw other (rw (dot_path c dot) (ap (String.◌∷◌ ".") (ih (rw dot at h))))
  | inr no_dot ↦ absurd (false≢true (rw no_dot at h))
]

undash-replace_special :
    (b : Bool) (s : String) → is_dotted b s ≡ true → undash (replace_special b s) ≡ s
unfolding replace_special
undash-replace_special b String.[] h = refl
undash-replace_special b (String.◌∷◌ c s) h = elim (Bool-cases (is_alnum c)) [
  | inl alnum ↦ rw alnum (
      rw (dash_not_alnum c alnum)
        (ap (String.◌∷◌ c) (undash-replace_special false s (rw alnum at h))))
  | inr other ↦ dot_step b c s (rw other at h) (λ k. undash-replace_special true s k) other
]

-- Hosts made of labels of letters and digits that are separated by single dots can be read back
-- from their names, so two of them never share a name.
pub undash-name_from_host :
    (h : String) → starts_alnum h ≡ true → is_dotted true h ≡ true → undash (name_from_host h) ≡ h
undash-name_from_host h s d =
    rw
      (
        plain_name h (not_special h s),
        trim_special-starts_alnum h s,
        ← replace_special-starts_alnum h s,
      )
      (undash-replace_special true h d)

pub name_from_host-injective :
    (h k : String)
    → starts_alnum h ≡ true
    → is_dotted true h ≡ true
    → starts_alnum k ≡ true
    → is_dotted true k ≡ true
    → name_from_host h ≡ name_from_host k
    → h ≡ k
name_from_host-injective h k sh dh sk dk e =
    sym (undash-name_from_host h sh dh) ∙ ap undash e ∙ undash-name_from_host k sk dk
