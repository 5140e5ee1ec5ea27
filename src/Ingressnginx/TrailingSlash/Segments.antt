-- ===== src/Ingressnginx/TrailingSlash/Segments.antt =====
-- `pathPrefixCovers` and the matching of paths by segments that Gateway API describes.
use text.Mathlib.TextEquality.{Char-path}
use ingress2gateway.Base.{
  Char, code, Bool, true, false, ◌&&◌, ◌≡◌, ◌≢◌, refl, sym, ap, ◌∙◌, ◌↔◌, inl, inr, Bool-cases,
  Option, none, some, List, [], ◌∷◌, String, string_comparable, ◌==◌, eqb, eqb_iff, Bool-eq_of_iff,
  arith, if◌then◌else◌, done, panic,
}
use ingress2gateway.Base.Pieces.{split-ne-nil}
use ingress2gateway.Base.Text.{split, push_char}
use ingress2gateway.Base.Strings.{strip_prefix, ends_with}
use ingress2gateway.Ingressnginx.TrailingSlash.{covers_rest, path_prefix_covers}

-- One list begins with the other.
abbrev pub begins_with : List String → List String → Bool
begins_with [] ys = true
begins_with (x ∷ xs) [] = false
begins_with (x ∷ xs) (y ∷ ys) = (x == y) && begins_with xs ys

-- The segments of a path begin with those of a prefix.
abbrev pub segments_begin_with : String → String → Bool
segments_begin_with prefix path = begins_with (split b'/' prefix) (split b'/' path)

-- What follows the prefix is empty or begins with a slash.
abbrev at_boundary : Option String → Bool
at_boundary none = false
at_boundary (some String.[]) = true
at_boundary (some (String.◌∷◌ c rest)) = eqb (code c) b'/'

pub and_intro : (a b : Bool) → a ≡ true → b ≡ true → (a && b) ≡ true
and_intro a b h k = ground arith

pub and_elim : (a b : Bool) → (a && b) ≡ true → (a ≡ true) × (b ≡ true)
and_elim a b h = ground arith

text_iff : (s t : String) → ((s == t) ≡ true) ↔ (s ≡ t)
text_iff = string_comparable.same_iff

empty_eq-cons : (c : Char) (s : String) → (String.[] == String.◌∷◌ c s) ≡ false
empty_eq-cons c s = elim (Bool-cases (String.[] == String.◌∷◌ c s)) [
  | inl same ↦ let e = (text_iff String.[] (String.◌∷◌ c s)).0 same in cc
  | inr other ↦ other
]

pub cons-eq_empty : (c : Char) (s : String) → (String.◌∷◌ c s == String.[]) ≡ false
cons-eq_empty c s = elim (Bool-cases (String.◌∷◌ c s == String.[])) [
  | inl same ↦ let e = (text_iff (String.◌∷◌ c s) String.[]).0 same in cc
  | inr other ↦ other
]

cons-eq :
    (c d : Char) (s t : String)
    → (String.◌∷◌ c s == String.◌∷◌ d t) ≡ (eqb (code c) (code d) && (s == t))
cons-eq c d s t =
    Bool-eq_of_iff (String.◌∷◌ c s == String.◌∷◌ d t) (eqb (code c) (code d) && (s == t))
      (λ h. parts ((text_iff (String.◌∷◌ c s) (String.◌∷◌ d t)).0 h))
      (λ h.
        let (first, rest) = and_elim (eqb (code c) (code d)) (s == t) h in
        let codes : c ≡ d = Char-path c d ((eqb_iff (code c) (code d)).0 first) in
        let texts : s ≡ t = (text_iff s t).0 rest in
        (text_iff (String.◌∷◌ c s) (String.◌∷◌ d t)).1 cc)
  where
    parts : String.◌∷◌ c s ≡ String.◌∷◌ d t → (eqb (code c) (code d) && (s == t)) ≡ true
    parts e =
        let heads : c ≡ d = cc in
        let tails : s ≡ t = cc in
        and_intro (eqb (code c) (code d)) (s == t) ((eqb_iff (code c) (code d)).1 (ap code heads))
          ((text_iff s t).1 tails)

push_char-empty :
    (c : Char) (ps qs : List String) → begins_with (push_char c ps) (String.[] ∷ qs) ≡ false
push_char-empty c [] qs = rw (cons-eq_empty c String.[]) refl
push_char-empty c (p ∷ ps) qs = rw (cons-eq_empty c p) refl

empty-push_char :
    (c : Char) (ps qs : List String) → begins_with (String.[] ∷ qs) (push_char c ps) ≡ false
empty-push_char c [] qs = rw (empty_eq-cons c String.[]) refl
empty-push_char c (p ∷ ps) qs = rw (empty_eq-cons c p) refl

-- The pieces of a text are never none.
push_char-push_char :
    (c d : Char) (ps qs : List String)
    → ps ≢ []
    → qs ≢ []
    → begins_with (push_char c ps) (push_char d qs) ≡ (eqb (code c) (code d) && begins_with ps qs)
push_char-push_char c d [] qs h k = absurd (h refl)
push_char-push_char c d (p ∷ ps) [] h k = absurd (k refl)
push_char-push_char c d (p ∷ ps) (q ∷ qs) h k = rw (cons-eq c d p q) (ground arith)

empty-begins_with : (path : String) → segments_begin_with String.[] path ≡ at_boundary (some path)
empty-begins_with String.[] = refl
empty-begins_with (String.◌∷◌ d path) = elim (Bool-cases (eqb (code d) b'/')) [
  | inl slash ↦ rw slash refl
  | inr other ↦ rw (other, empty-push_char d (split b'/' path) []) refl
]

no_prefix_of_empty :
    (c : Char) (prefix : String) → segments_begin_with (String.◌∷◌ c prefix) String.[] ≡ false
no_prefix_of_empty c prefix = elim (Bool-cases (eqb (code c) b'/')) [
  | inl slash ↦ rw slash (none_in_empty (split b'/' prefix) (split-ne-nil b'/' prefix))
  | inr other ↦ rw (other, push_char-empty c (split b'/' prefix) []) refl
]
  where
    none_in_empty :
        (ps : List String) → ps ≢ [] → begins_with (String.[] ∷ ps) (String.[] ∷ []) ≡ false
    none_in_empty [] h = absurd (h refl)
    none_in_empty (p ∷ ps) h = refl

-- Both texts lose their first character.
segments-cons :
    (c d : Char) (prefix path : String)
    → segments_begin_with (String.◌∷◌ c prefix) (String.◌∷◌ d path)
      ≡ (eqb (code c) (code d) && segments_begin_with prefix path)
segments-cons c d prefix path = elim (Bool-cases (eqb (code c) b'/')) [
  | inl e ↦ elim (Bool-cases (eqb (code d) b'/')) [
    | inl f ↦ rw (e, f) (ap (λ b. b && segments_begin_with prefix path) (sym (same_code e f)))
    | inr f ↦ rw (e, f, empty-push_char d (split b'/' path) (split b'/' prefix)) (ground arith)
  ]
  | inr e ↦ elim (Bool-cases (eqb (code d) b'/')) [
    | inl f ↦ rw (e, f, push_char-empty c (split b'/' prefix) (split b'/' path)) (ground arith)
    | inr f ↦
        rw (e, f)
          (push_char-push_char c d (split b'/' prefix) (split b'/' path) (split-ne-nil b'/' prefix)
            (split-ne-nil b'/' path))
  ]
]
  where
    same_code : eqb (code c) b'/' ≡ true → eqb (code d) b'/' ≡ true → eqb (code c) (code d) ≡ true
    same_code e f = ground arith

and-at_boundary :
    (b : Bool) (o : Option String) → (b && at_boundary o) ≡ at_boundary (if b then o else none)
and-at_boundary true o = refl
and-at_boundary false o = refl

segments_begin_with-at_boundary :
    (prefix path : String)
    → segments_begin_with prefix path ≡ at_boundary (strip_prefix prefix path)
segments_begin_with-at_boundary String.[] path = empty-begins_with path
segments_begin_with-at_boundary (String.◌∷◌ c prefix) String.[] = no_prefix_of_empty c prefix
segments_begin_with-at_boundary (String.◌∷◌ c prefix) (String.◌∷◌ d path) =
    segments-cons c d prefix path
    ∙ ap (λ b. eqb (code c) (code d) && b) (segments_begin_with-at_boundary prefix path)
    ∙ and-at_boundary (eqb (code c) (code d)) (strip_prefix prefix path)

covers_rest-at_boundary :
    (prefix rest : String)
    → prefix ≢ ""
    → ends_with b'/' prefix ≡ false
    → covers_rest prefix rest ≡ done (at_boundary (some rest))
covers_rest-at_boundary prefix String.[] n h = refl
covers_rest-at_boundary String.[] (String.◌∷◌ c rest) n h = absurd (n refl)
covers_rest-at_boundary (String.◌∷◌ d prefix) (String.◌∷◌ c rest) n h = rw h refl

-- For a prefix that is not empty and does not end in a slash, `pathPrefixCovers` is the matching of
-- Gateway API: the path's list of segments begins with the prefix's.
pub path_prefix_covers-segments :
    (prefix path : String)
    → prefix ≢ ""
    → ends_with b'/' prefix ≡ false
    → path_prefix_covers prefix path ≡ done (segments_begin_with prefix path)
unfolding path_prefix_covers
path_prefix_covers-segments prefix path n h =
    by_rest (strip_prefix prefix path) ∙ ap done (sym (segments_begin_with-at_boundary prefix path))
  where
    by_rest :
        (o : Option String)
        → elim o [ none ↦ done false | some rest ↦ covers_rest prefix rest ] ≡ done (at_boundary o)
    by_rest none = refl
    by_rest (some rest) = covers_rest-at_boundary prefix rest n h

-- An empty prefix makes `pathPrefixCovers` panic on every path that is not empty.
pub path_prefix_covers_empty : (path : String) → path ≢ "" → path_prefix_covers "" path ≡ panic
unfolding path_prefix_covers
path_prefix_covers_empty String.[] n = absurd (n refl)
path_prefix_covers_empty (String.◌∷◌ c path) n = refl
