-- ===== src/Base/Dict.antt =====
-- Go maps, as lists of entries with one entry to a key. The order of the list is the order in
-- which `range` visits the entries: Go leaves it open, so what is proved for every list holds
-- for every order.
use mathlib.Core.Path.{◌≡◌, refl}
use mathlib.Core.Option.{Option, none, some}
use mathlib.Core.List.{List, [], ◌∷◌}
use native.Mathlib.Omega.{arith}
use ingress2gateway.Base.Tests.{if◌then◌else◌, Comparable, ◌==◌}

abbrev pub Dict {ℓ κ} : Type ℓ → Type κ → Type (ℓ ⊔ κ)
Dict K V = List (K × V)

module _ {ℓ κ} {K : Type ℓ} {V : Type κ} ⦃e : Comparable K⦄ where
  -- `v, ok := m[k]`
  abbrev pub lookup : K → Dict K V → Option V
  lookup key [] = none
  lookup key ((first, held) ∷ later) =
      let found = lookup key later in if first == key then some held else found

  -- `m[k] = v`
  abbrev pub insert : K → V → Dict K V → Dict K V
  insert key value [] = (key, value) ∷ []
  insert key value ((first, held) ∷ later) =
      let after = insert key value later in
      if first == key then (key, value) ∷ later else (first, held) ∷ after

  -- What a lookup finds after an assignment.
  pub lookup-insert :
      (key sought : K) (value : V) (m : Dict K V)
      → lookup sought (insert key value m) ≡ (if key == sought then some value else lookup sought m)
  lookup-insert key sought value [] = refl
  lookup-insert key sought value ((first, held) ∷ later) =
      let rest = lookup-insert key sought value later in
      ground (arith, e.same_iff key sought, e.same_iff first key, e.same_iff first sought, rest)

  -- `maps.Copy(dst, src)`
  abbrev pub copy_into : Dict K V → Dict K V → Dict K V
  copy_into dst [] = dst
  copy_into dst ((k, v) ∷ src) = copy_into (insert k v dst) src

  -- `m[k]`, with the zero value for a missing key
  abbrev pub lookup_or : V → K → Dict K V → V
  lookup_or d k m = elim (lookup k m) [ none ↦ d | some v ↦ v ]

  pub lookup_or-insert :
      (d : V) (k j : K) (v : V) (m : Dict K V)
      → lookup_or d j (insert k v m) ≡ (if k == j then v else lookup_or d j m)
  lookup_or-insert d k j v m = ground (arith, lookup-insert k j v m)
