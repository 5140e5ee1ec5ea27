-- ===== src/Base/ParseInt.antt =====
-- `strconv.ParseInt(s, 10, w)` for a width w, given by `cutoff`, 2 ^ (w - 1); and the conversions
-- to int32 and int64.
pub mod Digits
use ingress2gateway.Base.{
  zero, suc, refl, ℕ, ◌+◌, ◌-◌, ◌*◌, ◌%◌, ◌<◌, ◌≡◌, Bool, true, false, ◌&&◌, arith, code, String,
  leb, ltb, if◌then◌else◌,
}
use ingress2gateway.Base.Int.{ℤ, pos, negsuc, sub_ℕ}

-- The outcome of `ParseUint`. It stops at the first prefix over the maximum, 2 ^ w - 1, whatever
-- follows it.
pub data Scan : Type 0 where
  scanned : ℕ → Scan
  bad_syntax out_of_range : Scan

-- The digits `s` after those that made `n`.
unfoldable pub scan_digits : ℕ → ℕ → String → Scan
scan_digits cutoff n String.[] = scanned n
scan_digits cutoff n (String.◌∷◌ c s) =
    let m = n * 10 + (code c - b'0') in
    let rest = scan_digits cutoff m s in
    if leb b'0' (code c) && leb (code c) b'9'
    then (if leb (cutoff + cutoff) m then out_of_range else rest)
    else bad_syntax

unfoldable pub parse_uint : ℕ → String → Scan
parse_uint cutoff String.[] = bad_syntax
parse_uint cutoff (String.◌∷◌ c s) = scan_digits cutoff 0 (String.◌∷◌ c s)

-- The value, and whether there was an error. A range error returns the nearest value of the width.
pub record ParsedInt : Type 0 where
  pub value : ℤ
  pub failed : Bool

abbrev pub of_scan : ℕ → Bool → Scan → ParsedInt
of_scan cutoff neg bad_syntax = record { value = pos 0; failed = true }
of_scan cutoff false out_of_range = record { value = pos (cutoff - 1); failed = true }
of_scan cutoff true out_of_range = record { value = negsuc (cutoff - 1); failed = true }
of_scan cutoff false (scanned n) =
    if leb cutoff n
    then record { value = pos (cutoff - 1); failed = true }
    else record { value = pos n; failed = false }
of_scan cutoff true (scanned n) =
    if ltb cutoff n
    then record { value = negsuc (cutoff - 1); failed = true }
    else record { value = sub_ℕ 0 n; failed = false }

unfoldable pub parse_int_at : ℕ → String → ParsedInt
parse_int_at cutoff String.[] = record { value = pos 0; failed = true }
parse_int_at cutoff (String.◌∷◌ c s) =
    let minus = of_scan cutoff true (parse_uint cutoff s) in
    let plus = of_scan cutoff false (parse_uint cutoff s) in
    let unsigned = of_scan cutoff false (parse_uint cutoff (String.◌∷◌ c s)) in
    if leb b'-' (code c) && leb (code c) b'-'
    then minus
    else if leb b'+' (code c) && leb (code c) b'+'
    then plus
    else unsigned

-- At 32 bits, and at 64 bits, as `strconv.Atoi` has it.
unfoldable pub parse_int : String → ParsedInt
unfolding parse_int_at parse_uint scan_digits
parse_int s = parse_int_at 2147483648 s

unfoldable pub parse_int64 : String → ParsedInt
unfolding parse_int_at parse_uint scan_digits
parse_int64 s = parse_int_at 9223372036854775808 s

-- `int64(z)`, which wraps around.
abbrev pub int64 : ℤ → ℤ
int64 (pos n) =
    let m = n % 18446744073709551616 in
    if ltb m 9223372036854775808 then pos m else negsuc (18446744073709551615 - m)
int64 (negsuc n) =
    let m = n % 18446744073709551616 in
    if ltb m 9223372036854775808 then negsuc m else pos (18446744073709551615 - m)

-- `int32(z)`, which wraps around.
abbrev pub int32 : ℤ → ℤ
int32 (pos n) =
    let m = n % 4294967296 in if ltb m 2147483648 then pos m else negsuc (4294967295 - m)
int32 (negsuc n) =
    let m = n % 4294967296 in if ltb m 2147483648 then negsuc m else pos (4294967295 - m)

-- The values that an int32 has and that are not negative.
abbrev pub IsCount : ℤ → Type 0
IsCount z = (n : ℕ) × (z ≡ pos n) × (n < 2147483648)

of_scan-bound :
    (cutoff : ℕ) (neg : Bool) (s : Scan) (n : ℕ)
    → 0 < cutoff
    → (of_scan cutoff neg s).value ≡ pos n
    → n < cutoff
of_scan-bound cutoff neg bad_syntax n p h = ground arith
of_scan-bound cutoff false out_of_range n p h = ground arith
of_scan-bound cutoff true out_of_range n p h = cc
of_scan-bound cutoff false (scanned m) n p h = ground arith
of_scan-bound cutoff true (scanned m) n p h = ground arith

-- A value of `ParseInt` has the width.
pub parse_int_at-bound :
    (cutoff : ℕ) (s : String) (n : ℕ)
    → 0 < cutoff
    → (parse_int_at cutoff s).value ≡ pos n
    → n < cutoff
unfolding parse_int_at
parse_int_at-bound cutoff String.[] n p h = ground arith
parse_int_at-bound cutoff (String.◌∷◌ c s) n p h = ground (
  arith,
  of_scan-bound cutoff true (parse_uint cutoff s) n,
  of_scan-bound cutoff false (parse_uint cutoff s) n,
  of_scan-bound cutoff false (parse_uint cutoff (String.◌∷◌ c s)) n,
)

pub parse_int-bound : (s : String) (n : ℕ) → (parse_int s).value ≡ pos n → n < 2147483648
unfolding parse_int
parse_int-bound s n h = parse_int_at-bound 2147483648 s n (omega arith) h

pub int32_count : (n : ℕ) → n < 2147483648 → int32 (pos n) ≡ pos n
int32_count n h = ground arith

pub int64_count : (n : ℕ) → n < 9223372036854775808 → int64 (pos n) ≡ pos n
int64_count n h = ground arith

of_scan-low :
    (cutoff : ℕ) (neg : Bool) (s : Scan) (n : ℕ)
    → 0 < cutoff
    → (of_scan cutoff neg s).value ≡ negsuc n
    → n < cutoff
of_scan-low cutoff neg bad_syntax n p h = cc
of_scan-low cutoff false out_of_range n p h = cc
of_scan-low cutoff true out_of_range n p h = ground arith
of_scan-low cutoff false (scanned m) n p h = ground arith
of_scan-low cutoff true (scanned zero) n p h = ground arith
of_scan-low cutoff true (scanned (suc m)) n p h = ground arith

parse_int-low : (s : String) (n : ℕ) → (parse_int s).value ≡ negsuc n → n < 2147483648
unfolding parse_int parse_int_at
parse_int-low String.[] n h = ground arith
parse_int-low (String.◌∷◌ c s) n h = ground (
  arith,
  of_scan-low 2147483648 true (parse_uint 2147483648 s) n,
  of_scan-low 2147483648 false (parse_uint 2147483648 s) n,
  of_scan-low 2147483648 false (parse_uint 2147483648 (String.◌∷◌ c s)) n,
)

-- A value that `ParseInt` gives for 32 bits does not change as an int32.
pub int32_parsed : (s : String) → int32 (parse_int s).value ≡ (parse_int s).value
int32_parsed s = by_value (parse_int s).value refl
  where
    negative : (n : ℕ) → n < 2147483648 → int32 (negsuc n) ≡ negsuc n
    negative n h = ground arith

    by_value : (z : ℤ) → (parse_int s).value ≡ z → int32 z ≡ z
    by_value (pos n) e = int32_count n (parse_int-bound s n e)
    by_value (negsuc n) e = negative n (parse_int-low s n e)
