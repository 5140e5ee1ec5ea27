-- ===== src/Ingressnginx/TrailingSlash/Slashes.antt =====
-- Texts that end in a slash, and their sources.
use text.Mathlib.TextLemmas.{cons-append, nil-append}
use text.Mathlib.TextEquality.{Char-path}
use ingress2gateway.Base.{
  ℕ, Char, code, true, ◌&&◌, ◌≡◌, ◌≢◌, refl, sym, ap, ◌∙◌, String, string_comparable, ◌==◌, eqb_iff,
  Bool-eq_of_iff,
}
use ingress2gateway.Base.Text.{◌+++◌}
use ingress2gateway.Base.Strings.{ends_with, drop_last, trim_suffix}
use ingress2gateway.Ingressnginx.TrailingSlash.Segments.{and_intro, and_elim}

ends_with-cons :
    (n : ℕ) (d : Char) (t : String) → t ≢ "" → ends_with n (String.◌∷◌ d t) ≡ ends_with n t
ends_with-cons n d String.[] h = absurd (h refl)
ends_with-cons n d (String.◌∷◌ e t) h = refl

drop_last-cons :
    (d : Char) (t : String) → t ≢ "" → drop_last (String.◌∷◌ d t) ≡ String.◌∷◌ d (drop_last t)
drop_last-cons d String.[] h = absurd (h refl)
drop_last-cons d (String.◌∷◌ e t) h = refl

slashed_nonempty : (s : String) → s +++ "/" ≢ ""
slashed_nonempty String.[] e = let f = sym (nil-append "/") ∙ e in cc
slashed_nonempty (String.◌∷◌ c s) e = let f = sym (cons-append c s "/") ∙ e in cc

ends_with-append : (s : String) → ends_with b'/' (s +++ "/") ≡ true
ends_with-append String.[] = ap (ends_with b'/') (nil-append "/")
ends_with-append (String.◌∷◌ c s) =
    rw (cons-append c s "/")
      (ends_with-cons b'/' c (s +++ "/") (slashed_nonempty s) ∙ ends_with-append s)

drop_last-append : (s : String) → drop_last (s +++ "/") ≡ s
drop_last-append String.[] = ap drop_last (nil-append "/")
drop_last-append (String.◌∷◌ c s) =
    rw (cons-append c s "/")
      (drop_last-cons c (s +++ "/") (slashed_nonempty s) ∙ ap (String.◌∷◌ c) (drop_last-append s))

append-drop_last : (t : String) → ends_with b'/' t ≡ true → drop_last t +++ "/" ≡ t
append-drop_last String.[] h = cc
append-drop_last (String.◌∷◌ d String.[]) h =
    nil-append "/"
    ∙ ap (λ c. String.◌∷◌ c String.[]) (Char-path "/" d (sym ((eqb_iff (code d) b'/').0 h)))
append-drop_last (String.◌∷◌ d (String.◌∷◌ e t)) h =
    cons-append d (drop_last (String.◌∷◌ e t)) "/"
    ∙ ap (String.◌∷◌ d) (append-drop_last (String.◌∷◌ e t) h)

trim_suffix-append : (s : String) → trim_suffix b'/' (s +++ "/") ≡ s
trim_suffix-append s = rw (ends_with-append s) (drop_last-append s)

pub append-trim_suffix : (t : String) → ends_with b'/' t ≡ true → trim_suffix b'/' t +++ "/" ≡ t
append-trim_suffix t h = rw h (append-drop_last t h)

-- A target is `s/` just if it ends in a slash and `s` is its source.
pub slashed_eq :
    (s target : String)
    → (s +++ "/" == target) ≡ (ends_with b'/' target && (s == trim_suffix b'/' target))
slashed_eq s target =
    Bool-eq_of_iff (s +++ "/" == target) (ends_with b'/' target && (s == trim_suffix b'/' target))
      (λ h.
        let e = (string_comparable.same_iff (s +++ "/") target).0 h in
        let ends : ends_with b'/' target ≡ true =
          ap (ends_with b'/') (sym e) ∙ ends_with-append s in
        let starts : s ≡ trim_suffix b'/' target =
          sym (trim_suffix-append s) ∙ ap (trim_suffix b'/') e in
        and_intro (ends_with b'/' target) (s == trim_suffix b'/' target) ends
          ((string_comparable.same_iff s (trim_suffix b'/' target)).1 starts))
      (λ h.
        let (ends, starts) = and_elim (ends_with b'/' target) (s == trim_suffix b'/' target) h in
        let e = (string_comparable.same_iff s (trim_suffix b'/' target)).0 starts in
        (string_comparable.same_iff (s +++ "/") target).1
          (ap (λ t. t +++ "/") e ∙ append-trim_suffix target ends))
