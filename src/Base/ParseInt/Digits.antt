-- ===== src/Base/ParseInt/Digits.antt =====
-- `strconv.ParseInt` on texts of decimal digits, against the value that the places of the digits give.
use ingress2gateway.Base.{
  zero, suc, ◌==◌, string_comparable, ℕ, ◌+◌, ◌-◌, ◌*◌, ◌<◌, ◌≤◌, ◌≡◌, refl, sym, ap, inl, inr,
  Bool, true, false, ◌&&◌, arith, code, String, leb, if◌then◌else◌, Bool-cases,
}
use ingress2gateway.Base.Int.{pos}
use ingress2gateway.Base.ParseInt.{
  ParsedInt, Scan, scanned, out_of_range, scan_digits, parse_uint, parse_int_at,
}

abbrev pub is_digit : ℕ → Bool
is_digit n = leb b'0' n && leb n b'9'

abbrev pub all_digits : String → Bool
all_digits String.[] = true
all_digits (String.◌∷◌ c s) = is_digit (code c) && all_digits s

-- Ten to the number of the characters.
abbrev pub place : String → ℕ
place String.[] = 1
place (String.◌∷◌ c s) = 10 * place s

abbrev pub decimal : String → ℕ
decimal String.[] = 0
decimal (String.◌∷◌ c s) = (code c - b'0') * place s + decimal s

place-positive : (s : String) → 0 < place s
place-positive String.[] = omega arith
place-positive (String.◌∷◌ c s) = let h = place-positive s in omega arith

-- The digits after `n` stop the scan where the whole number is over the maximum.
abbrev scan_of : ℕ → ℕ → Scan
scan_of cutoff n = if leb (cutoff + cutoff) n then out_of_range else scanned n

regroup : (n d p v : ℕ) → n * (10 * p) + (d * p + v) ≡ (n * 10 + d) * p + v
regroup n d p v = grind arith

stays_over : (bound m p v : ℕ) → bound ≤ m → 0 < p → bound ≤ m * p + v
stays_over bound m zero v h positive = omega arith
stays_over bound m (suc p) v h positive = grind arith

scan_digits-decimal :
    (cutoff n : ℕ) (s : String)
    → all_digits s ≡ true
    → n < cutoff + cutoff
    → scan_digits cutoff n s ≡ scan_of cutoff (n * place s + decimal s)
unfolding scan_digits
scan_digits-decimal cutoff n String.[] h low =
    let over : leb (cutoff + cutoff) (n * 1 + 0) ≡ false = ground arith in
    let same : n * 1 + 0 ≡ n = omega arith in rw over (ap scanned (sym same))
scan_digits-decimal cutoff n (String.◌∷◌ c s) h low =
    let d = code c - b'0' in
    let digit : is_digit (code c) ≡ true = ground arith in
    let rest : all_digits s ≡ true = ground arith in
    rw (regroup n d (place s) (decimal s), digit)
      (elim (Bool-cases (leb (cutoff + cutoff) (n * 10 + d))) [
        | inl over ↦
            let bound : cutoff + cutoff ≤ n * 10 + d = ground arith in
            let total =
              stays_over (cutoff + cutoff) (n * 10 + d) (place s) (decimal s) bound
                (place-positive s) in
            let still : leb (cutoff + cutoff) ((n * 10 + d) * place s + decimal s) ≡ true =
              ground arith in
            rw (over, still) refl
        | inr under ↦
            let bound : n * 10 + d < cutoff + cutoff = ground arith in
            rw under (scan_digits-decimal cutoff (n * 10 + d) s rest bound)
      ])

abbrev pub parsed_of : ℕ → ℕ → ParsedInt
parsed_of cutoff n =
    if leb cutoff n
    then record { value = pos (cutoff - 1); failed = true }
    else record { value = pos n; failed = false }

-- A text of digits that is not empty parses to its decimal value, if that is below the cutoff, and
-- is out of range otherwise.
pub parse_int_at-decimal :
    (cutoff : ℕ) (s : String)
    → 0 < cutoff
    → (s == "") ≡ false
    → all_digits s ≡ true
    → parse_int_at cutoff s ≡ parsed_of cutoff (decimal s)
unfolding parse_int_at parse_uint
parse_int_at-decimal cutoff String.[] p given h = cc
parse_int_at-decimal cutoff (String.◌∷◌ c s) p given h =
    let minus : (leb b'-' (code c) && leb (code c) b'-') ≡ false = ground arith in
    let plus : (leb b'+' (code c) && leb (code c) b'+') ≡ false = ground arith in
    rw (minus, plus, scan_digits-decimal cutoff 0 (String.◌∷◌ c s) h (omega arith))
      (elim (Bool-cases (leb (cutoff + cutoff) (decimal (String.◌∷◌ c s)))) [
        | inl over ↦ ground arith
        | inr under ↦ ground arith
      ])
