-- ===== src/Base/Strings.antt =====
-- More of Go's `strings` and `strconv`, over code points: what the provider for Ingress NGINX calls.
use Prim.Native.Nat.{ℕ, ◌-◌}
use Prim.Native.Char.{Char, code}
use Prim.Native.String.{String}
use mathlib.Core.Bool.{Bool, true, false, ◌&&◌, ◌||◌}
use mathlib.Core.Option.{Option, none, some}
use mathlib.Core.List.{List, [], ◌∷◌, map}
use ingress2gateway.Base.Tests.{if◌then◌else◌, eqb, leb, string_comparable}
use ingress2gateway.Base.Lists.{contains}
use ingress2gateway.Base.Text.{◌+++◌, split}

-- What follows the prefix, for `strings.HasPrefix` and slices.
abbrev pub strip_prefix : String → String → Option String
strip_prefix String.[] s = some s
strip_prefix (String.◌∷◌ c p) String.[] = none
strip_prefix (String.◌∷◌ c p) (String.◌∷◌ d s) =
    let rest = strip_prefix p s in if eqb (code c) (code d) then rest else none

abbrev pub has_prefix : String → String → Bool
has_prefix p s = elim (strip_prefix p s) [ none ↦ false | some _ ↦ true ]

-- Whether the first character, or the last one, is `c`.
abbrev pub starts_with : ℕ → String → Bool
starts_with c String.[] = false
starts_with c (String.◌∷◌ d s) = eqb (code d) c

abbrev pub ends_with : ℕ → String → Bool
ends_with c String.[] = false
ends_with c (String.◌∷◌ d String.[]) = eqb (code d) c
ends_with c (String.◌∷◌ d (String.◌∷◌ e s)) = ends_with c (String.◌∷◌ e s)

-- The text without its last character.
abbrev pub drop_last : String → String
drop_last String.[] = String.[]
drop_last (String.◌∷◌ d String.[]) = String.[]
drop_last (String.◌∷◌ d (String.◌∷◌ e s)) = String.◌∷◌ d (drop_last (String.◌∷◌ e s))

-- `strings.TrimSuffix(s, c)` for a suffix of one character.
abbrev pub trim_suffix : ℕ → String → String
trim_suffix c s = if ends_with c s then drop_last s else s

-- `unicode.IsSpace`
abbrev pub is_space : ℕ → Bool
is_space n =
    (leb 9 n && leb n 13)
    || (eqb n 32
        || (eqb n 133
            || (eqb n 160
                || (eqb n 5760
                    || ((leb 8192 n && leb n 8202)
                        || (eqb n 8232
                            || (eqb n 8233 || (eqb n 8239 || (eqb n 8287 || eqb n 12288)))))))))

unfoldable pub trim_left : String → String
trim_left String.[] = String.[]
trim_left (String.◌∷◌ c s) =
    let rest = trim_left s in if is_space (code c) then rest else String.◌∷◌ c s

abbrev pub unless_blank : Char → String → String
unless_blank c String.[] = if is_space (code c) then String.[] else String.◌∷◌ c String.[]
unless_blank c (String.◌∷◌ d s) = String.◌∷◌ c (String.◌∷◌ d s)

unfoldable pub trim_right : String → String
trim_right String.[] = String.[]
trim_right (String.◌∷◌ c s) = unless_blank c (trim_right s)

-- `strings.TrimSpace`
unfoldable pub trim_space : String → String
unfolding trim_left trim_right
trim_space s = trim_right (trim_left s)

-- The upper case of a code point, for comparison with letters from A to Z: the two others that
-- have such an upper case are the dotless i and the long s.
abbrev pub upper_code : ℕ → ℕ
upper_code n =
    if leb 97 n && leb n 122 then n - 32 else if eqb n 305 then 73 else if eqb n 383 then 83 else n

-- `strings.ToUpper(s) == t`, for a text `t` of ASCII characters.
abbrev pub is_upper_of : String → String → Bool
is_upper_of String.[] String.[] = true
is_upper_of String.[] (String.◌∷◌ d t) = false
is_upper_of (String.◌∷◌ c s) String.[] = false
is_upper_of (String.◌∷◌ c s) (String.◌∷◌ d t) =
    eqb (upper_code (code c)) (code d) && is_upper_of s t

-- `strings.ReplaceAll(s, c, "-")` for a text of one character.
abbrev pub dash_for : ℕ → String → String
dash_for c String.[] = String.[]
dash_for c (String.◌∷◌ d s) =
    let rest = dash_for c s in if eqb (code d) c then String.◌∷◌ "-" rest else String.◌∷◌ d rest

-- `strings.Join`
abbrev pub join : String → List String → String
join sep [] = ""
join sep (s ∷ []) = s
join sep (s ∷ t ∷ ts) = s +++ sep +++ join sep (t ∷ ts)

-- The items of a list with commas, without blanks around them.
unfoldable pub comma_list : String → List String
unfolding trim_space
comma_list s = map trim_space (split b',' s)

-- `strconv.ParseBool`, with `none` for its error.
abbrev pub true_texts : List String
true_texts = "1" ∷ "t" ∷ "T" ∷ "true" ∷ "TRUE" ∷ "True" ∷ []

abbrev pub false_texts : List String
false_texts = "0" ∷ "f" ∷ "F" ∷ "false" ∷ "FALSE" ∷ "False" ∷ []

unfoldable pub parse_bool : String → Option Bool
parse_bool s =
    if contains s true_texts then some true else if contains s false_texts then some false else none

-- The value beside a possible error.
abbrev pub bool_or_false : Option Bool → Bool
bool_or_false none = false
bool_or_false (some b) = b
