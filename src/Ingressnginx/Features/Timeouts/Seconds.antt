-- ===== src/Ingressnginx/Features/Timeouts/Seconds.antt =====
-- pkg/i2gw/providers/ingressnginx/timeouts.go: the durations that texts of digits get.
use ingress2gateway.Base.{
  ℕ, ◌*◌, ◌<◌, ◌≤◌, ◌≡◌, ◌≢◌, refl, ap, ◌⊎◌, inl, inr, true, false, arith, String,
  string_comparable, ◌==◌, leb, Bool-cases, zero, suc,
}
use ingress2gateway.Base.Int.{ℤ, pos, leb_ℤ}
use ingress2gateway.Base.ParseInt.{parse_int64, int64, int64_count}
use ingress2gateway.Base.ParseInt.Digits.{all_digits, decimal, parsed_of, parse_int_at-decimal}
use ingress2gateway.Ingressnginx.Features.Timeouts.{
  Timeout, duration, refused, timeout_of, parse_ingress_nginx_timeout,
}

-- What becomes of a number of seconds: 9223372036 is the most whose nanoseconds are an int64, and
-- 9223372036854775807 the most that is an int64 itself.
abbrev pub IsTimeout : ℕ → Timeout → Type 0
IsTimeout n t =
    ((n ≡ 0) × (t ≡ refused "must be > 0"))
    ⊎ (((0 < n) × (n ≤ 9223372036) × (t ≡ duration (pos (n * 1000000000))))
        ⊎ (((d : ℤ) × (9223372036 < n)
              × (n < 9223372036854775808)
              × (t ≡ duration d)
              × (d ≢ pos (n * 1000000000)))
            ⊎ ((9223372036854775808 ≤ n) × (t ≡ refused "must be an integer number of seconds"))))

wraps : (m : ℕ) → 9223372036854775808 ≤ m → int64 (pos m) ≢ pos m
wraps m high = ground arith

timeout_of-IsTimeout : (n : ℕ) → IsTimeout n (timeout_of (parsed_of 9223372036854775808 n))
timeout_of-IsTimeout zero = inl (refl, refl)
timeout_of-IsTimeout (suc n) = elim (Bool-cases (leb 9223372036854775808 (suc n))) [
  | inl over ↦ inr (inr (inr (ground arith, rw over refl)))
  | inr under ↦
      let positive : leb_ℤ (pos (suc n)) (pos 0) ≡ false = ground arith in
      let is_int : suc n < 9223372036854775808 = ground arith in
      elim (Bool-cases (leb (suc n) 9223372036)) [
        | inl low ↦
            let bound : suc n ≤ 9223372036 = ground arith in
            inr (
              inl (
                omega arith,
                bound,
                rw (under, positive) (ap duration (int64_count (suc n * 1000000000) (omega arith))),
              ))
        | inr high ↦
            let bound : 9223372036 < suc n = ground arith in
            inr (
              inr (
                inl (
                  int64 (pos (suc n * 1000000000)),
                  bound,
                  is_int,
                  rw (under, positive) refl,
                  wraps (suc n * 1000000000) (omega arith),
                )))
      ]
]

-- A text of decimal digits that is not empty is refused where its value is 0; is that many seconds,
-- in nanoseconds, where its value is from 1 to 9223372036; is some other duration where its value
-- is larger and is an int64; and is refused as no integer where it is no int64.
pub parse_ingress_nginx_timeout-IsTimeout :
    (s : String)
    → (s == "") ≡ false
    → all_digits s ≡ true
    → IsTimeout (decimal s) (parse_ingress_nginx_timeout s)
unfolding parse_ingress_nginx_timeout parse_int64
parse_ingress_nginx_timeout-IsTimeout s given digits =
    rw (given, parse_int_at-decimal 9223372036854775808 s (omega arith) given digits)
      (timeout_of-IsTimeout (decimal s))
