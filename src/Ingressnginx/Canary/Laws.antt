-- ===== src/Ingressnginx/Canary/Laws.antt =====
-- What `getCanaryInfo` returns.
use mathlib.Core.Path.{subst}
use ingress2gateway.Base.{
  ℕ, zero, suc, ◌+◌, ◌-◌, ◌≤◌, ◌<◌, ◌≡◌, refl, ap, ◌∙◌, Bool, true, false, Option, none, some, List,
  [], ◌∷◌, String, string_comparable, arith, inl, inr, Bool-cases, get_elem?, eq_of_some-eq,
}
use ingress2gateway.Base.Int.{ℤ, pos, ◌-ℤ◌}
use ingress2gateway.Base.ParseInt.{int32}
use ingress2gateway.Api.Field.{FieldPath}
use ingress2gateway.Api.Ingress.{Ingress}
use ingress2gateway.ProviderIr.{BackendSource}
use ingress2gateway.Ingressnginx.Canary.Bounds.{IsShare, parse_canary_config-IsShare}
use ingress2gateway.Ingressnginx.Canary.Backends.{
  Found, is_canary, see_canary, see_non_canary, see_source, see_sources, nothing_found,
  backends_path, CanaryInfo, info_of, get_canary_info,
}

-- The `i`th source has an Ingress, which is a canary or not by `b`.
abbrev pub IsSourceAt : List BackendSource → Bool → ℕ → Type 0
IsSourceAt sources b i =
    (s : BackendSource) × (ingress : Ingress) × (get_elem? sources i ≡ some s)
    × (s.ingress ≡ some ingress)
    × (is_canary ingress ≡ b)

module _ (whole : List BackendSource) where
  -- What the loop has found so far is in the list.
  IsFound : Found → Type 0
  IsFound found =
      ((c : ℕ)
        → found.canary_idx ≡ some c
        → IsSourceAt whole true c × IsShare found.config.weight found.config.weight_total)
      × ((n : ℕ) → found.non_canary_idx ≡ some n → IsSourceAt whole false n)

  see_canary-IsFound :
      (path : FieldPath) (found : Found) (i : ℕ) (ingress : Ingress) (o : Option ℕ)
      → found.canary_idx ≡ o
      → IsSourceAt whole true i
      → IsFound found
      → IsFound (see_canary path found i ingress o)
  unfolding IsFound
  see_canary-IsFound path found i ingress (some j) e at_i h = h
  see_canary-IsFound path found i ingress none e at_i h = (
    λ c q.
        (subst (IsSourceAt whole true) (eq_of_some-eq q) at_i, parse_canary_config-IsShare ingress),
    h.1,
  )

  see_non_canary-IsFound :
      (path : FieldPath) (found : Found) (i : ℕ) (o : Option ℕ)
      → IsSourceAt whole false i
      → IsFound found
      → IsFound (see_non_canary path found i o)
  unfolding IsFound
  see_non_canary-IsFound path found i (some j) at_i h = h
  see_non_canary-IsFound path found i none at_i h =
      (h.0, λ n q. subst (IsSourceAt whole false) (eq_of_some-eq q) at_i)

  see_source-IsFound :
      (path : FieldPath) (found : Found) (i : ℕ) (s : BackendSource) (o : Option Ingress)
      → get_elem? whole i ≡ some s
      → s.ingress ≡ o
      → IsFound found
      → IsFound (see_source path found i o)
  unfolding see_source
  see_source-IsFound path found i s none e q h = h
  see_source-IsFound path found i s (some ingress) e q h = elim (Bool-cases (is_canary ingress)) [
    | inl canary ↦
        rw canary (
          see_canary-IsFound path found i ingress found.canary_idx refl (s, ingress, e, q, canary)
            h)
    | inr other ↦
        rw other
          (see_non_canary-IsFound path found i found.non_canary_idx (s, ingress, e, q, other) h)
  ]

  see_sources-IsFound :
      (path : FieldPath) (found : Found) (i : ℕ) (sources : List BackendSource)
      → ((j : ℕ) (s : BackendSource)
          → get_elem? sources j ≡ some s
          → get_elem? whole (j + i) ≡ some s)
      → IsFound found
      → IsFound (see_sources path found i sources)
  unfolding see_sources
  see_sources-IsFound path found i [] hs h = h
  see_sources-IsFound path found i (s ∷ sources) hs h =
      see_sources-IsFound path (see_source path found i s.ingress) (i + 1) sources
        (λ j x e. subst (λ k. get_elem? whole k ≡ some x) (shift j i) (hs (suc j) x e))
        (see_source-IsFound path found i s s.ingress
          (subst (λ k. get_elem? whole k ≡ some s) (start i) (hs zero s refl)) refl h)
    where
      shift : (j i : ℕ) → suc j + i ≡ j + (i + 1)
      shift j i = omega arith

      start : (i : ℕ) → 0 + i ≡ i
      start i = omega arith

rest-of_IsShare :
    (w t : ℤ)
    → IsShare w t
    → (m : ℕ) × (k : ℕ) × (w ≡ pos m)
      × (int32 (t -ℤ w) ≡ pos k)
      × (t ≡ pos (m + k))
      × (1 ≤ m + k)
      × (m + k < 2147483648)
rest-of_IsShare w t (m, n, is_m, is_n, le, positive, small) = (
  m,
  n - m,
  is_m,
  rw (is_m, is_n) (rest m n le small),
  is_n ∙ ap pos (whole m n le),
  omega arith,
  omega arith,
)
  where
    rest : (m n : ℕ) → m ≤ n → n < 2147483648 → int32 (pos n -ℤ pos m) ≡ pos (n - m)
    rest m n le small = ground arith

    whole : (m n : ℕ) → m ≤ n → n ≡ m + (n - m)
    whole m n le = omega arith

-- The weights of a rule's two backends and the total they share.
abbrev pub IsSplit : CanaryInfo → Type 0
IsSplit info =
    (m : ℕ) × (k : ℕ) × (info.canary_weight ≡ pos m)
    × (info.non_canary_weight ≡ pos k)
    × (info.config.weight_total ≡ pos (m + k))
    × (1 ≤ m + k)
    × (m + k < 2147483648)

info_of-IsSplit :
    (whole : List BackendSource) (path : FieldPath) (found : Found) (oc on : Option ℕ) (c n : ℕ)
    → found.canary_idx ≡ oc
    → found.non_canary_idx ≡ on
    → IsFound whole found
    → (info_of path found oc on).indices ≡ some (c, n)
    → IsSourceAt whole true c × IsSourceAt whole false n × IsSplit (info_of path found oc on)
unfolding info_of IsFound
info_of-IsSplit whole path found none on c n eoc eon h e = cc
info_of-IsSplit whole path found (some i) none c n eoc eon h e = cc
info_of-IsSplit whole path found (some i) (some j) c n eoc eon h e =
    let same = eq_of_some-eq e in
    (
      subst (IsSourceAt whole true) (ap (λ (p : ℕ × ℕ). p.0) same) (h.0 i eoc).0,
      subst (IsSourceAt whole false) (ap (λ (p : ℕ × ℕ). p.1) same) (h.1 j eon),
      rest-of_IsShare found.config.weight found.config.weight_total (h.0 i eoc).1,
    )

-- If `getCanaryInfo` returns two indices, the first is that of a source whose Ingress has the
-- canary annotation "true" and the second that of a source whose Ingress has not; neither weight
-- is negative, and together they make the total, which is at least 1 and below 2^31.
pub get_canary_info-IsSplit :
    (sources : List BackendSource) (route_type name : String) (i c n : ℕ)
    → (get_canary_info sources route_type name i).indices ≡ some (c, n)
    → IsSourceAt sources true c
      × IsSourceAt sources false n
      × IsSplit (get_canary_info sources route_type name i)
unfolding get_canary_info IsFound
get_canary_info-IsSplit sources route_type name i c n e =
    let path = backends_path route_type name i in
    let found = see_sources path nothing_found 0 sources in
    info_of-IsSplit sources path found found.canary_idx found.non_canary_idx c n refl refl
      (see_sources-IsFound sources path nothing_found 0 sources
        (λ j s e. subst (λ k. get_elem? sources k ≡ some s) (at_zero j) e) (λ c q. cc, λ n q. cc))
      e
  where
    at_zero : (j : ℕ) → j ≡ j + 0
    at_zero j = omega arith
