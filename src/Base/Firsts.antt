-- ===== src/Base/Firsts.antt =====
-- The elements of a list whose key does not occur before: what the program's loops over a set of
-- keys that were seen keep, stated without the set.
use mathlib.Core.Path.{◌≡◌, refl, ap, ◌∙◌}
use mathlib.Core.Bool.{Bool, true, false, ◌&&◌, not}
use mathlib.Core.Logic.{inl, inr}
use mathlib.Core.List.{List, [], ◌∷◌, ◌++◌, map}
use native.Mathlib.Omega.{arith}
use ingress2gateway.Base.Tests.{Comparable, ◌==◌, Bool-cases}
use ingress2gateway.Base.Lists.{keep, contains, distinct, contains-append}

module _ {ℓ} {A : Type ℓ} where
  pub keep_congr : (p q : A → Bool) (xs : List A) → ((x : A) → p x ≡ q x) → keep p xs ≡ keep q xs
  keep_congr p q [] h = refl
  keep_congr p q (x ∷ xs) h = ground (arith, h x, keep_congr p q xs h)

  pub keep-keep : (p q : A → Bool) (xs : List A) → keep p (keep q xs) ≡ keep (λ x. q x && p x) xs
  keep-keep p q [] = refl
  keep-keep p q (x ∷ xs) = ground (arith, keep-keep p q xs)

module _ {ℓ κ} {A : Type ℓ} {K : Type κ} ⦃e : Comparable K⦄ (f : A → K) where
  abbrev pub firsts_by : List A → List A
  firsts_by [] = []
  firsts_by (x ∷ xs) = x ∷ keep (λ y. not (f y == f x)) (firsts_by xs)

  contains-keep_ne :
      (k : K) (xs : List A) → contains k (map f (keep (λ y. not (f y == k)) xs)) ≡ false
  contains-keep_ne k [] = refl
  contains-keep_ne k (x ∷ xs) =
      ground (arith, contains-keep_ne k xs, e.same_iff (f x) k, e.same_iff k (f x))

  contains-keep-false :
      (p : A → Bool) (k : K) (xs : List A)
      → contains k (map f xs) ≡ false
      → contains k (map f (keep p xs)) ≡ false
  contains-keep-false p k [] h = refl
  contains-keep-false p k (x ∷ xs) h = ground (arith, contains-keep-false p k xs)

  distinct-keep :
      (p : A → Bool) (xs : List A)
      → distinct (map f xs) ≡ true
      → distinct (map f (keep p xs)) ≡ true
  distinct-keep p [] h = refl
  distinct-keep p (x ∷ xs) h = ground (arith, distinct-keep p xs, contains-keep-false p (f x) xs)

  -- No key stands twice.
  pub firsts_by-distinct : (xs : List A) → distinct (map f (firsts_by xs)) ≡ true
  firsts_by-distinct [] = refl
  firsts_by-distinct (x ∷ xs) = ground (
    arith,
    contains-keep_ne (f x) (firsts_by xs),
    distinct-keep (λ y. not (f y == f x)) (firsts_by xs) (firsts_by-distinct xs),
  )

  contains-keep_other :
      (k j : K) (xs : List A)
      → (k == j) ≡ false
      → contains k (map f (keep (λ y. not (f y == j)) xs)) ≡ contains k (map f xs)
  contains-keep_other k j [] h = refl
  contains-keep_other k j (x ∷ xs) h =
      ground (
        arith,
        contains-keep_other k j xs h,
        e.same_iff (f x) j,
        e.same_iff k (f x),
        e.same_iff k j,
      )

  -- No key is lost.
  pub contains-firsts_by :
      (k : K) (xs : List A) → contains k (map f (firsts_by xs)) ≡ contains k (map f xs)
  contains-firsts_by k [] = refl
  contains-firsts_by k (x ∷ xs) = elim (Bool-cases (k == f x)) [
    | inl same ↦ rw same
    | inr other ↦
        rw other (contains-keep_other k (f x) (firsts_by xs) other ∙ contains-firsts_by k xs)
  ]

  -- The loop that keeps an element whose key is not in `seen`, one round at a time.
  pub keep-firsts_by_seen :
      (seen : List K) (x : A) (xs : List A)
      → contains (f x) seen ≡ true
      → keep (λ y. not (contains (f y) seen)) (firsts_by (x ∷ xs))
        ≡ keep (λ y. not (contains (f y) seen)) (firsts_by xs)
  keep-firsts_by_seen seen x xs h = rw h (
      keep-keep (λ y. not (contains (f y) seen)) (λ y. not (f y == f x)) (firsts_by xs)
      ∙ keep_congr _ _ (firsts_by xs) (λ y. ground (arith, h, e.same_iff (f y) (f x), cong y)))
    where
      cong : (y : A) → f y ≡ f x → contains (f y) seen ≡ contains (f x) seen
      cong y q = ap (λ k. contains k seen) q

  pub keep-firsts_by_new :
      (seen : List K) (x : A) (xs : List A)
      → contains (f x) seen ≡ false
      → keep (λ y. not (contains (f y) seen)) (firsts_by (x ∷ xs))
        ≡ x ∷ keep (λ y. not (contains (f y) (seen ++ f x ∷ []))) (firsts_by xs)
  keep-firsts_by_new seen x xs h = rw h (
      ap (λ r. x ∷ r)
        (keep-keep (λ y. not (contains (f y) seen)) (λ y. not (f y == f x)) (firsts_by xs)
          ∙ keep_congr _ _ (firsts_by xs)
              (λ y. ground (arith, contains-append (f y) seen (f x ∷ [])))))

module _ {ℓ} {A : Type ℓ} ⦃e : Comparable A⦄ where
  pub distinct-append_new :
      (xs : List A) (x : A)
      → distinct xs ≡ true
      → contains x xs ≡ false
      → distinct (xs ++ x ∷ []) ≡ true
  distinct-append_new [] x d c = refl
  distinct-append_new (y ∷ ys) x d c = ground (
    arith,
    distinct-append_new ys x,
    contains-append y ys (x ∷ []),
    e.same_iff y x,
    e.same_iff x y,
  )
