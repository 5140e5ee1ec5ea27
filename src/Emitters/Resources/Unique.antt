-- ===== src/Emitters/Resources/Unique.antt =====
-- The backends that `removeBackendRefsDuplicates` leaves.
use text.Mathlib.TextEquality.{eq_iff}
use ingress2gateway.Base.{
  ℕ, String, not, eqb, string_comparable, ◌&&◌, ◌≡◌, refl, sym, ap, ◌∙◌, Bool, true, false, ◌||◌,
  Option, none, some, List, [], ◌∷◌, map, arith, ◌==◌, contains, distinct, inl, inr, Bool-cases,
  eq_of_some-eq,
}
use ingress2gateway.Base.Dict.{Dict, lookup, insert}
use ingress2gateway.Base.Keys.{keys_in, contains-keys_in, distinct-keys_in}
use ingress2gateway.Api.Gateway.{BackendRef}
use ingress2gateway.Emitters.Resources.{
  port_or_zero, group_text, kind_text, RefKey, same_ref_iff, ref_key_comparable, ref_key,
  merged_ref, add_ref, add_refs, remove_backend_refs_duplicates,
}

abbrev pub ref_keys : List BackendRef → List RefKey
ref_keys refs = map ref_key refs

-- Every entry of the map stands under its own key.
abbrev IsKeyed : Dict RefKey BackendRef → Type 0
IsKeyed [] = Unit
IsKeyed ((k, r) ∷ m) = (ref_key r ≡ k) × IsKeyed m

insert-IsKeyed :
    (r : BackendRef) (k : RefKey) (m : Dict RefKey BackendRef)
    → ref_key r ≡ k
    → IsKeyed m
    → IsKeyed (insert k r m)
insert-IsKeyed r k [] q h = (q, tt)
insert-IsKeyed r k ((i, old) ∷ m) q (p, h) = elim (Bool-cases (i == k)) [
  | inl found ↦ rw found (q, h)
  | inr other ↦ rw other (p, insert-IsKeyed r k m q h)
]

-- A reference that is found has the key that it is found under.
lookup-IsKeyed :
    (k : RefKey) (m : Dict RefKey BackendRef) (r : BackendRef)
    → IsKeyed m
    → lookup k m ≡ some r
    → ref_key r ≡ k
lookup-IsKeyed k [] r h e = cc
lookup-IsKeyed k ((i, old) ∷ m) r (p, h) e = elim (Bool-cases (i == k)) [
  | inl found ↦ ap ref_key (sym (eq_of_some-eq (rw found at e))) ∙ p ∙ (same_ref_iff i k).0 found
  | inr other ↦ lookup-IsKeyed k m r h (rw other at e)
]

merged_ref-key :
    (r : BackendRef) (o : Option BackendRef)
    → ((old : BackendRef) → o ≡ some old → ref_key old ≡ ref_key r)
    → ref_key (merged_ref r o) ≡ ref_key r
unfolding ref_key
merged_ref-key r none h = refl
merged_ref-key r (some old) h = h old refl

keys-values :
    (m : Dict RefKey BackendRef)
    → IsKeyed m
    → ref_keys (map (λ (e : RefKey × BackendRef). e.1) m) ≡ keys_in m
keys-values [] h = refl
keys-values ((k, r) ∷ m) (q, h) =
    ap (λ j. j ∷ ref_keys (map (λ (e : RefKey × BackendRef). e.1) m)) q
    ∙ ap (λ l. k ∷ l) (keys-values m h)

add_ref-IsKeyed : (m : Dict RefKey BackendRef) (r : BackendRef) → IsKeyed m → IsKeyed (add_ref m r)
add_ref-IsKeyed m r h =
    insert-IsKeyed (merged_ref r (lookup (ref_key r) m)) (ref_key r) m
      (merged_ref-key r (lookup (ref_key r) m) (λ old e. lookup-IsKeyed (ref_key r) m old h e)) h

add_refs-keys :
    (m : Dict RefKey BackendRef) (refs : List BackendRef)
    → IsKeyed m
    → distinct (keys_in m) ≡ true
    → IsKeyed (add_refs m refs)
      × (distinct (keys_in (add_refs m refs)) ≡ true)
      × ((k : RefKey)
          → contains k (keys_in (add_refs m refs))
            ≡ (contains k (ref_keys refs) || contains k (keys_in m)))
add_refs-keys m [] h d = (h, d, λ k. refl)
add_refs-keys m (r ∷ refs) h d =
    let (h', d', c) =
      add_refs-keys (add_ref m r) refs (add_ref-IsKeyed m r h)
        (distinct-keys_in (ref_key r) (merged_ref r (lookup (ref_key r) m)) m d) in
    (
      h',
      d',
      λ k.
          c k
          ∙ ap (λ b. contains k (ref_keys refs) || b)
              (contains-keys_in k (ref_key r) (merged_ref r (lookup (ref_key r) m)) m)
          ∙ or_swap (contains k (ref_keys refs)) (k == ref_key r) (contains k (keys_in m)),
    )
  where
    or_swap : (a b c : Bool) → (a || (b || c)) ≡ ((b || a) || c)
    or_swap a b c = ground arith

-- Two references to one backend: a missing port is 0, a missing or empty group is the core group,
-- and a missing kind is a Service.
abbrev pub same_port : Option ℕ → Option ℕ → Bool
same_port none none = true
same_port none (some n) = eqb n 0
same_port (some m) none = eqb m 0
same_port (some m) (some n) = eqb m n

abbrev pub is_core : String → Bool
is_core g = (g == "") || (g == "core")

abbrev pub same_group : Option String → Option String → Bool
same_group none none = true
same_group none (some h) = is_core h
same_group (some g) none = is_core g
same_group (some g) (some h) = (g == h) || (is_core g && is_core h)

abbrev pub same_kind : Option String → Option String → Bool
same_kind none none = true
same_kind none (some k) = k == "Service"
same_kind (some j) none = j == "Service"
same_kind (some j) (some k) = j == k

abbrev pub same_backend : BackendRef → BackendRef → Bool
same_backend a b =
    (a.name == b.name)
    && (same_port a.port b.port && (same_group a.group b.group && same_kind a.kind b.kind))

abbrev pub has_same : BackendRef → List BackendRef → Bool
has_same r [] = false
has_same r (s ∷ refs) = same_backend r s || has_same r refs

abbrev pub all_different : List BackendRef → Bool
all_different [] = true
all_different (r ∷ refs) = not (has_same r refs) && all_different refs

same_port_lem : (a b : Option ℕ) → same_port a b ≡ eqb (port_or_zero a) (port_or_zero b)
same_port_lem none none = refl
same_port_lem none (some n) = ground arith
same_port_lem (some m) none = ground arith
same_port_lem (some m) (some n) = refl

same_group_lem : (a b : Option String) → same_group a b ≡ (group_text a == group_text b)
same_group_lem none none = refl
same_group_lem none (some h) = elim (Bool-cases (h == "core")) [
  | inl core ↦ rw core (ground arith)
  | inr other ↦ rw other (ground (arith, eq_iff "" h, eq_iff h ""))
]
same_group_lem (some g) none = elim (Bool-cases (g == "core")) [
  | inl core ↦ rw core (ground arith)
  | inr other ↦ rw other (ground arith)
]
same_group_lem (some g) (some h) = elim (Bool-cases (g == "core")) [
  | inl left ↦ elim (Bool-cases (h == "core")) [
    | inl right ↦ rw (left, right) (ground arith)
    | inr other ↦
        rw (left, other)
          (ground (arith, eq_iff g "core", eq_iff h "core", eq_iff g h, eq_iff "" h, eq_iff h ""))
  ]
  | inr none_left ↦ elim (Bool-cases (h == "core")) [
    | inl right ↦
        rw (none_left, right) (ground (arith, eq_iff g "core", eq_iff h "core", eq_iff g h))
    | inr other ↦ rw (none_left, other) (ground (arith, eq_iff g h, eq_iff g "", eq_iff h ""))
  ]
]

same_kind_lem : (a b : Option String) → same_kind a b ≡ (kind_text a == kind_text b)
same_kind_lem none none = refl
same_kind_lem none (some k) = ground (arith, eq_iff "Service" k, eq_iff k "Service")
same_kind_lem (some j) none = refl
same_kind_lem (some j) (some k) = refl

same_backend_lem : (a b : BackendRef) → same_backend a b ≡ (ref_key a == ref_key b)
unfolding ref_key
same_backend_lem a b =
    rw (same_port_lem a.port b.port, same_group_lem a.group b.group, same_kind_lem a.kind b.kind)
      refl

has_same_lem :
    (r : BackendRef) (refs : List BackendRef)
    → has_same r refs ≡ contains (ref_key r) (ref_keys refs)
has_same_lem r [] = refl
has_same_lem r (s ∷ refs) = rw (same_backend_lem r s, has_same_lem r refs) refl

all_different_lem : (refs : List BackendRef) → all_different refs ≡ distinct (ref_keys refs)
all_different_lem [] = refl
all_different_lem (r ∷ refs) = rw (has_same_lem r refs, all_different_lem refs) refl

remove_backend_refs_duplicates-keys :
    (refs : List BackendRef)
    → (distinct (ref_keys (remove_backend_refs_duplicates refs)) ≡ true)
      × ((k : RefKey)
          → contains k (ref_keys (remove_backend_refs_duplicates refs))
            ≡ contains k (ref_keys refs))
unfolding remove_backend_refs_duplicates
remove_backend_refs_duplicates-keys refs =
    let (h, d, c) = add_refs-keys [] refs tt refl in
    let same = keys-values (add_refs [] refs) h in
    (ap distinct same ∙ d, λ k. ap (contains k) same ∙ c k ∙ or_false (contains k (ref_keys refs)))
  where
    or_false : (b : Bool) → (b || false) ≡ b
    or_false b = ground arith

-- No two of the references that `removeBackendRefsDuplicates` leaves are to one backend, and a
-- backend has a reference in the result exactly where it has one in the list. References are to one
-- backend if their names are equal, their ports are equal with 0 for a missing port, their groups
-- are equal or both the core group (missing, "" or "core"), and their kinds are equal with
-- "Service" for a missing kind.
pub remove_backend_refs_duplicates_lem :
    (refs : List BackendRef)
    → (all_different (remove_backend_refs_duplicates refs) ≡ true)
      × ((r : BackendRef) → has_same r (remove_backend_refs_duplicates refs) ≡ has_same r refs)
remove_backend_refs_duplicates_lem refs =
    let (d, c) = remove_backend_refs_duplicates-keys refs in
    (
      all_different_lem (remove_backend_refs_duplicates refs) ∙ d,
      λ r.
          has_same_lem r (remove_backend_refs_duplicates refs)
          ∙ c (ref_key r)
          ∙ sym (has_same_lem r refs),
    )
