-- ===== src/Base/Copies.antt =====
-- Loops that copy a Go map entry by entry, and what a lookup in the copy finds.
use mathlib.Core.Path.{subst, ◌≡◌, refl, ap, ◌∙◌}
use mathlib.Core.Bool.{true}
use mathlib.Core.Logic.{inl, inr}
use mathlib.Core.Option.{Option, none, some}
use mathlib.Core.List.{[], ◌∷◌}
use native.Mathlib.Omega.{arith}
use ingress2gateway.Base.Tests.{if◌then◌else◌, Comparable, ◌==◌, Bool-cases}
use ingress2gateway.Base.Dict.{Dict, lookup, insert, lookup-insert}

abbrev pub or_else {ℓ} : {A : Type ℓ} → Option A → Option A → Option A
or_else none o = o
or_else (some a) o = some a

abbrev pub and_then {ℓ κ} : {A : Type ℓ} {B : Type κ} → (A → Option B) → Option A → Option B
and_then f none = none
and_then f (some a) = f a

or_else-none {ℓ} : {A : Type ℓ} (o : Option A) → or_else o none ≡ o
or_else-none none = refl
or_else-none (some a) = refl

module _ {ℓ κ} {K : Type ℓ} {W : Type κ} ⦃e : Comparable K⦄ where
  -- `dst[k] = w`, where there is a `w`
  abbrev pub insert_some : K → Option W → Dict K W → Dict K W
  insert_some k none dst = dst
  insert_some k (some w) dst = insert k w dst

  -- One entry to a key.
  abbrev pub IsMap : Dict K W → Type (ℓ ⊔ κ)
  IsMap [] = Unit
  IsMap ((k, v) ∷ m) = (lookup k m ≡ none) × IsMap m

  lookup-insert_some :
      (k j : K) (w : Option W) (m : Dict K W)
      → lookup j (insert_some k w m) ≡ (if k == j then or_else w (lookup j m) else lookup j m)
  lookup-insert_some k j none m = ground arith
  lookup-insert_some k j (some w) m = lookup-insert k j w m

module _ {ℓ κ μ} {K : Type ℓ} {V : Type κ} {W : Type μ} ⦃e : Comparable K⦄ (f : V → Option W) where
  -- `for k, v := range src { if w := f(v); w != nil { dst[k] = *w } }`
  abbrev pub copy_some : Dict K W → Dict K V → Dict K W
  copy_some dst [] = dst
  copy_some dst ((k, v) ∷ src) = copy_some (insert_some k (f v) dst) src

  pub lookup-copy_some :
      (j : K) (dst : Dict K W) (src : Dict K V)
      → IsMap src
      → lookup j (copy_some dst src) ≡ or_else (and_then f (lookup j src)) (lookup j dst)
  lookup-copy_some j dst [] h = refl
  lookup-copy_some j dst ((k, v) ∷ src) (fresh, h) =
      let step =
        lookup-copy_some j (insert_some k (f v) dst) src h
        ∙ ap (or_else (and_then f (lookup j src))) (lookup-insert_some k j (f v) dst) in
      elim (Bool-cases (k == j)) [
        | inl same ↦
            step ∙ first same (subst (λ i. lookup i src ≡ none) ((e.same_iff k j).0 same) fresh)
        | inr other ↦ rw other (rw other at step)
      ]
    where
      first :
          (k == j) ≡ true
          → lookup j src ≡ none
          → or_else
              (and_then f (lookup j src))
              (if k == j then or_else (f v) (lookup j dst) else lookup j dst)
            ≡ or_else (and_then f (if k == j then some v else lookup j src)) (lookup j dst)
      first same missing = rw (same, missing) refl

  -- A copy into a new map.
  pub lookup-copied :
      (j : K) (src : Dict K V) → IsMap src → lookup j (copy_some [] src) ≡ and_then f (lookup j src)
  lookup-copied j src h = lookup-copy_some j [] src h ∙ or_else-none (and_then f (lookup j src))
