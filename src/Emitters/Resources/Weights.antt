-- ===== src/Emitters/Resources/Weights.antt =====
-- The weights of the backends that `removeBackendRefsDuplicates` leaves.
use mathlib.Core.Path.{subst}
use ingress2gateway.Base.{
  ℕ, ◌+◌, ◌<◌, ◌≡◌, refl, ap, ◌∙◌, inl, inr, Bool-cases, Option, none, some, List, [], ◌∷◌, map,
  All, arith, ◌==◌,
}
use ingress2gateway.Base.Dict.{Dict, lookup, insert}
use ingress2gateway.Base.Int.{ℤ, pos, negsuc, ◌+ℤ◌}
use ingress2gateway.Base.ParseInt.{int32, int32_count}
use ingress2gateway.Api.Gateway.{BackendRef}
use ingress2gateway.Emitters.Resources.{
  RefKey, ref_key_comparable, ref_key, merged_ref, add_ref, add_refs,
  remove_backend_refs_duplicates,
}

-- A weight that is set and not negative.
abbrev pub IsWeighted : BackendRef → Type 0
IsWeighted r = (n : ℕ) × (r.weight ≡ some (pos n))

abbrev pub weight_or_zero : Option ℤ → ℕ
weight_or_zero none = 0
weight_or_zero (some (pos n)) = n
weight_or_zero (some (negsuc n)) = 0

abbrev pub total_weight : List BackendRef → ℕ
total_weight [] = 0
total_weight (r ∷ refs) = weight_or_zero r.weight + total_weight refs

abbrev values : Dict RefKey BackendRef → List BackendRef
values m = map (λ (e : RefKey × BackendRef). e.1) m

sum_of_counts : (k n : ℕ) → pos k +ℤ pos n ≡ pos (k + n)
sum_of_counts k n = ground arith

merged_weight :
    (r old : BackendRef)
    → IsWeighted r
    → IsWeighted old
    → weight_or_zero old.weight + weight_or_zero r.weight < 2147483648
    → (merged_ref r (some old)).weight
      ≡ some (pos (weight_or_zero old.weight + weight_or_zero r.weight))
merged_weight r old (n, e) (k, f) low =
    rw (e, f) (ap some (ap int32 (sum_of_counts k n) ∙ int32_count (k + n) (rw (e, f) at low)))

-- The map after one more reference.
abbrev IsAdded : BackendRef → Dict RefKey BackendRef → Dict RefKey BackendRef → Type 0
IsAdded r m new =
    All IsWeighted (values new)
    × (total_weight (values new) ≡ total_weight (values m) + weight_or_zero r.weight)

insert-IsAdded :
    (r : BackendRef) (k : RefKey) (m : Dict RefKey BackendRef) (o : Option BackendRef)
    → lookup k m ≡ o
    → IsWeighted r
    → All IsWeighted (values m)
    → total_weight (values m) + weight_or_zero r.weight < 2147483648
    → IsAdded r m (insert k (merged_ref r o) m)
insert-IsAdded r k [] o e w h low =
    subst (λ o. IsAdded r [] (insert k (merged_ref r o) [])) e ((w, tt), omega arith)
insert-IsAdded r k ((i, old) ∷ m) o e w (p, h) low = elim (Bool-cases (i == k)) [
  | inl found ↦
      let is_old : some old ≡ o = rw found at e in
      let f = merged_weight r old w p (omega arith) in
      subst (λ o. IsAdded r ((i, old) ∷ m) (insert k (merged_ref r o) ((i, old) ∷ m))) is_old
        (rw found (
          ((weight_or_zero old.weight + weight_or_zero r.weight, f), h),
          ap (λ v. weight_or_zero v + total_weight (values m)) f ∙ omega arith,
        ))
  | inr other ↦
      let (h', f) = insert-IsAdded r k m o (rw other at e) w h (omega arith) in
      rw other ((p, h'), ap (λ n. weight_or_zero old.weight + n) f ∙ omega arith)
]

add_refs-weights :
    (m : Dict RefKey BackendRef) (refs : List BackendRef)
    → All IsWeighted (values m)
    → All IsWeighted refs
    → total_weight (values m) + total_weight refs < 2147483648
    → All IsWeighted (values (add_refs m refs))
      × (total_weight (values (add_refs m refs)) ≡ total_weight (values m) + total_weight refs)
add_refs-weights m [] h ws low = (h, omega arith)
add_refs-weights m (r ∷ refs) h (w, ws) low =
    let (h', e) = insert-IsAdded r (ref_key r) m (lookup (ref_key r) m) refl w h (omega arith) in
    let (h'', f) = add_refs-weights (add_ref m r) refs h' ws (omega arith) in (h'', f ∙ omega arith)

-- If every reference of the list has a weight that is not negative, and the sum of the weights is
-- an int32, then every reference that `removeBackendRefsDuplicates` leaves has such a weight, and
-- the sum of the weights is the same.
pub total_weight-remove_backend_refs_duplicates :
    (refs : List BackendRef)
    → All IsWeighted refs
    → total_weight refs < 2147483648
    → All IsWeighted (remove_backend_refs_duplicates refs)
      × (total_weight (remove_backend_refs_duplicates refs) ≡ total_weight refs)
unfolding remove_backend_refs_duplicates
total_weight-remove_backend_refs_duplicates refs ws low =
    let (h, e) = add_refs-weights [] refs tt ws (omega arith) in (h, e ∙ omega arith)
