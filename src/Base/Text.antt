-- ===== src/Base/Text.antt =====
-- The functions of Go's `strings` package that the program calls, over code points.
use Prim.Native.Nat.{ℕ}
use Prim.Native.Char.{Char, code}
use Prim.Native.String
use Prim.Native.String.{String}
use mathlib.Core.Bool.{Bool, false, ◌||◌}
use mathlib.Core.List.{List, [], ◌∷◌}
use ingress2gateway.Base.Tests.{if◌then◌else◌, eqb}

infixr 66 ◌+++◌
-- Concatenation of texts, as `fmt.Sprintf` with `%s` and `+` make it.
abbrev pub ◌+++◌ : String → String → String
s +++ t = String.◌++◌ s t

-- `s` up to the first `c` and what follows it, for `strings.Split` and `strings.SplitN`.
abbrev pub has_char : ℕ → String → Bool
has_char c String.[] = false
has_char c (String.◌∷◌ d s) = eqb (code d) c || has_char c s

-- The first piece of `strings.Split(s, c)`, and the rest of the pieces.
abbrev pub push_char : Char → List String → List String
push_char d [] = String.◌∷◌ d String.[] ∷ []
push_char d (p ∷ ps) = String.◌∷◌ d p ∷ ps

-- `strings.Split(s, c)` for a separator of one character.
abbrev pub split : ℕ → String → List String
split c String.[] = String.[] ∷ []
split c (String.◌∷◌ d s) =
    let rest = split c s in if eqb (code d) c then String.[] ∷ rest else push_char d rest

-- `strings.SplitN(s, c, 2)`
abbrev pub split2 : ℕ → String → List String
split2 c String.[] = String.[] ∷ []
split2 c (String.◌∷◌ d s) =
    let rest = split2 c s in if eqb (code d) c then String.[] ∷ s ∷ [] else push_char d rest

-- `strings.TrimPrefix(s, c)` for a prefix of one character.
abbrev pub trim_prefix : ℕ → String → String
trim_prefix c String.[] = String.[]
trim_prefix c (String.◌∷◌ d s) = if eqb (code d) c then s else String.◌∷◌ d s
