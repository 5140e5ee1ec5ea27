-- ===== src/Base/Pieces.antt =====
-- Texts made of pieces with "/" between them: how `strings.Split` and `strings.SplitN` take
-- them apart.
use Prim.Native.Char.{Char}
use Prim.Native.String.{String}
use Prim.Native.Nat.{ℕ, ◌<◌}
use mathlib.Core.Path.{◌≡◌, refl, ap, ◌∙◌}
use mathlib.Core.Logic.{◌≢◌}
use mathlib.Core.Bool.{true, false}
use mathlib.Core.List.{List, [], ◌∷◌}
use native.Mathlib.Omega.{arith}
use text.Mathlib.TextLemmas.{cons-append, nil-append}
use ingress2gateway.Base.Lists.{length}
use ingress2gateway.Base.Text.{◌+++◌, split, split2, has_char, push_char}

pub slash_append : (s : String) → "/" +++ s ≡ String.◌∷◌ "/" s
slash_append s = cons-append "/" "" s ∙ ap (String.◌∷◌ "/") (nil-append s)

pub split2-append :
    (s t : String) → has_char b'/' s ≡ false → split2 b'/' (s +++ String.◌∷◌ "/" t) ≡ s ∷ t ∷ []
split2-append String.[] t h = rw (nil-append (String.◌∷◌ "/" t))
split2-append (String.◌∷◌ c s) t h =
    rw (cons-append c s (String.◌∷◌ "/" t)) (ground (arith, split2-append s t))

pub split2_pieces :
    (s t : String) → has_char b'/' s ≡ false → split2 b'/' (s +++ "/" +++ t) ≡ s ∷ t ∷ []
split2_pieces s t h = rw (slash_append t) (split2-append s t h)

pub split_plain : (s : String) → has_char b'/' s ≡ false → split b'/' s ≡ s ∷ []
split_plain String.[] h = refl
split_plain (String.◌∷◌ c s) h = ground (arith, split_plain s)

split-append :
    (s t : String)
    → has_char b'/' s ≡ false
    → split b'/' (s +++ String.◌∷◌ "/" t) ≡ s ∷ split b'/' t
split-append String.[] t h = rw (nil-append (String.◌∷◌ "/" t))
split-append (String.◌∷◌ c s) t h =
    rw (cons-append c s (String.◌∷◌ "/" t)) (ground (arith, split-append s t))

pub split_pieces :
    (s t : String) → has_char b'/' s ≡ false → split b'/' (s +++ "/" +++ t) ≡ s ∷ split b'/' t
split_pieces s t h = rw (slash_append t) (split-append s t h)

length-push_char : (c : Char) (ps : List String) → ps ≢ [] → length (push_char c ps) ≡ length ps
length-push_char c [] h = absurd (h refl)
length-push_char c (p ∷ ps) h = refl

pub split-ne-nil : (c : ℕ) (s : String) → split c s ≢ []
split-ne-nil c String.[] = cc
split-ne-nil c (String.◌∷◌ d s) = ground (arith)

pub split_slashed : (s : String) → has_char b'/' s ≡ true → 1 < length (split b'/' s)
split_slashed String.[] h = cc
split_slashed (String.◌∷◌ c s) h =
    ground (arith, split_slashed s, split-ne-nil b'/' s, length-push_char c (split b'/' s))
