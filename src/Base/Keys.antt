-- ===== src/Base/Keys.antt =====
-- The keys of a Go map after an assignment.
use mathlib.Core.Path.{◌≡◌, refl}
use mathlib.Core.Bool.{true, ◌||◌}
use mathlib.Core.List.{List, [], ◌∷◌}
use native.Mathlib.Omega.{arith}
use ingress2gateway.Base.Tests.{Comparable, ◌==◌}
use ingress2gateway.Base.Lists.{contains, distinct}
use ingress2gateway.Base.Dict.{Dict, insert}

module _ {ℓ κ} {K : Type ℓ} {V : Type κ} ⦃e : Comparable K⦄ where
  abbrev pub keys_in : Dict K V → List K
  keys_in [] = []
  keys_in ((k, v) ∷ m) = k ∷ keys_in m

  pub contains-keys_in :
      (j k : K) (v : V) (m : Dict K V)
      → contains j (keys_in (insert k v m)) ≡ ((j == k) || contains j (keys_in m))
  contains-keys_in j k v [] = refl
  contains-keys_in j k v ((i, w) ∷ m) =
      let rest = contains-keys_in j k v m in
      ground (arith, e.same_iff i k, e.same_iff j k, e.same_iff j i, rest)

  pub distinct-keys_in :
      (k : K) (v : V) (m : Dict K V)
      → distinct (keys_in m) ≡ true
      → distinct (keys_in (insert k v m)) ≡ true
  distinct-keys_in k v [] h = refl
  distinct-keys_in k v ((i, w) ∷ m) h =
      let rest = distinct-keys_in k v m in
      ground (arith, e.same_iff i k, contains-keys_in i k v m, rest, h)
