-- ===== src/Ingressnginx/Canary/Bounds.antt =====
-- The weights that `parseCanaryConfig` and `getCanaryInfo` return.
use mathlib.Core.Path.{subst, ap₂}
use ingress2gateway.Base.{
  ℕ, zero, suc, ◌≤◌, ◌<◌, ◌≡◌, refl, sym, ◌∙◌, Bool, true, false, String, ◌==◌, string_comparable,
  if◌then◌else◌, arith, inl, inr, Bool-cases,
}
use ingress2gateway.Base.Int.{ℤ, pos, negsuc, ltb_ℤ, leb_ℤ}
use ingress2gateway.Base.ParseInt.{ParsedInt, parse_int, parse_int-bound, int32_count, IsCount}
use ingress2gateway.Api.Ingress.{Ingress}
use ingress2gateway.Ingressnginx.Canary.{
  CanaryConfig, annotation, start_config, parsed_weight, set_weight_of, parsed_total, set_total_of,
  cap_weight, parse_canary_config, canary_weight_annotation, canary_weight_total_annotation,
}

abbrev IsPositive : ℤ → Type 0
IsPositive z = (n : ℕ) × (z ≡ pos n) × (1 ≤ n) × (n < 2147483648)

-- A share of a total: 0 ≤ w ≤ t and 0 < t < 2^31.
abbrev pub IsShare : ℤ → ℤ → Type 0
IsShare w t = (m : ℕ) × (n : ℕ) × (w ≡ pos m) × (t ≡ pos n) × (m ≤ n) × (1 ≤ n) × (n < 2147483648)

not_negative : (n : ℕ) → ltb_ℤ (pos n) (pos 0) ≡ false
not_negative n = ground arith

negative : (n : ℕ) → ltb_ℤ (negsuc n) (pos 0) ≡ true
negative n = ground arith

not_positive : (n : ℕ) → leb_ℤ (negsuc n) (pos 0) ≡ true
not_positive n = ground arith

positive : (n : ℕ) → leb_ℤ (pos (suc n)) (pos 0) ≡ false
positive n = ground arith

parsed_weight-IsCount :
    (config : CanaryConfig) (text : String) (v : ℤ) (failed : Bool)
    → ((n : ℕ) → v ≡ pos n → n < 2147483648)
    → IsCount config.weight
    → IsCount (parsed_weight config text (record { value = v; failed = failed })).0.weight
parsed_weight-IsCount config text v true b h = h
parsed_weight-IsCount config text (negsuc n) false b h = rw (negative n) h
parsed_weight-IsCount config text (pos n) false b h =
    (n, rw (not_negative n) (int32_count n (b n refl)), b n refl)

parsed_total-IsPositive :
    (config : CanaryConfig) (text : String) (v : ℤ) (failed : Bool)
    → ((n : ℕ) → v ≡ pos n → n < 2147483648)
    → IsPositive config.weight_total
    → IsPositive (parsed_total config text (record { value = v; failed = failed })).0.weight_total
parsed_total-IsPositive config text (negsuc n) failed b h = rw (not_positive n) h
parsed_total-IsPositive config text (pos zero) failed b h = h
parsed_total-IsPositive config text (pos (suc n)) failed b h =
    (suc n, rw (positive n) (int32_count (suc n) (b (suc n) refl)), omega arith, b (suc n) refl)

parsed_total-weight :
    (config : CanaryConfig) (text : String) (w : ParsedInt)
    → (parsed_total config text w).0.weight ≡ config.weight
parsed_total-weight config text w = ground arith

set_weight_of-IsCount :
    (config : CanaryConfig) (text : String)
    → IsCount config.weight
    → IsCount (set_weight_of config text).0.weight
unfolding set_weight_of
set_weight_of-IsCount config text h = elim (Bool-cases (text == "")) [
  | inl empty ↦ rw empty h
  | inr set ↦ rw set (
      parsed_weight-IsCount config text (parse_int text).value (parse_int text).failed
        (parse_int-bound text) h)
]

set_weight_of-weight_total :
    (config : CanaryConfig) (text : String)
    → (set_weight_of config text).0.weight_total ≡ config.weight_total
unfolding set_weight_of
set_weight_of-weight_total config text = ground arith

set_total_of-IsPositive :
    (config : CanaryConfig) (text : String)
    → IsPositive config.weight_total
    → IsPositive (set_total_of config text).0.weight_total
unfolding set_total_of
set_total_of-IsPositive config text h = elim (Bool-cases (text == "")) [
  | inl empty ↦ rw empty h
  | inr set ↦ rw set (
      parsed_total-IsPositive config text (parse_int text).value (parse_int text).failed
        (parse_int-bound text) h)
]

set_total_of-weight :
    (config : CanaryConfig) (text : String) → (set_total_of config text).0.weight ≡ config.weight
unfolding set_total_of
set_total_of-weight config text = ground arith

cap_weight-weight :
    (config : CanaryConfig)
    → (cap_weight config).0.weight
      ≡ (if ltb_ℤ config.weight_total config.weight then config.weight_total else config.weight)
unfolding cap_weight
cap_weight-weight config = ground arith

cap_weight-weight_total :
    (config : CanaryConfig) → (cap_weight config).0.weight_total ≡ config.weight_total
unfolding cap_weight
cap_weight-weight_total config = ground arith

cap_weight-IsShare :
    (config : CanaryConfig) (m n : ℕ)
    → config.weight ≡ pos m
    → config.weight_total ≡ pos n
    → 1 ≤ n
    → n < 2147483648
    → IsShare (cap_weight config).0.weight (cap_weight config).0.weight_total
cap_weight-IsShare config m n w t positive small =
    let capped = cap_weight-weight config ∙ ap₂ (λ x y. if ltb_ℤ x y then x else y) t w in
    elim (Bool-cases (ltb_ℤ (pos n) (pos m))) [
      | inl over ↦ (
        n,
        n,
        rw over at capped,
        cap_weight-weight_total config ∙ t,
        omega arith,
        positive,
        small,
      )
      | inr within ↦ (
        m,
        n,
        rw within at capped,
        cap_weight-weight_total config ∙ t,
        ground arith,
        positive,
        small,
      )
    ]

-- The canary weight that `parseCanaryConfig` returns is at least 0 and at most the total, and the
-- total is at least 1 and below 2^31, whatever the annotations say.
pub parse_canary_config-IsShare :
    (ingress : Ingress)
    → IsShare (parse_canary_config ingress).0.weight (parse_canary_config ingress).0.weight_total
unfolding parse_canary_config
parse_canary_config-IsShare ingress =
    let weighted =
      (set_weight_of (start_config ingress) (annotation canary_weight_annotation ingress)).0 in
    let text = annotation canary_weight_total_annotation ingress in
    let (m, is_m, _) =
      set_weight_of-IsCount (start_config ingress) (annotation canary_weight_annotation ingress)
        (0, refl, omega arith) in
    let (n, is_n, positive, small) = set_total_of-IsPositive weighted text (
      subst IsPositive
        (sym (
          set_weight_of-weight_total (start_config ingress)
            (annotation canary_weight_annotation ingress)))
        (100, refl, omega arith, omega arith)) in
    cap_weight-IsShare (set_total_of weighted text).0 m n (set_total_of-weight weighted text ∙ is_m)
      is_n positive small
