-- ===== src/Emitters/Common/Indices.antt =====
-- Rule indices in the common emitter.
use ingress2gateway.Base.{
  ℕ, zero, suc, ◌≡◌, refl, ap, ◌∙◌, Option, none, some, List, [], ◌∷◌, map, if◌then◌else◌, ltb,
  length, inl, inr, Bool-cases, Bool, true, not, arith,
}
use ingress2gateway.Base.Int.{ℤ, pos, negsuc}
use ingress2gateway.Base.Dict.{Dict}
use ingress2gateway.Api.Gateway.{HttpRouteRule}
use ingress2gateway.EmitterIr.{TcpTimeouts, HttpRouteContext}
use ingress2gateway.Emitters.Common.{
  Parser, Printer, set_timeout, set_timeout_at, is_out_of_range, index_error, apply_timeouts,
  apply_tcp_timeouts,
}

-- The integer is not the index of one of `n` rules.
abbrev pub is_no_index : ℕ → ℤ → Bool
is_no_index n (pos i) = not (ltb i n)
is_no_index n (negsuc i) = true

-- The indices with time-outs that are not those of one of the `n` rules.
abbrev pub late_indices : ℕ → Dict ℤ (Option TcpTimeouts) → List ℤ
late_indices n [] = []
late_indices n ((i, none) ∷ m) = late_indices n m
late_indices n ((i, some t) ∷ m) =
    let rest = late_indices n m in if is_no_index n i then i ∷ rest else rest

set_timeout-length :
    (parse : Parser) (print : Printer) (t : TcpTimeouts) (i : ℕ) (rules : List HttpRouteRule)
    → length (set_timeout parse print t i rules) ≡ length rules
unfolding set_timeout
set_timeout-length parse print t i [] = refl
set_timeout-length parse print t zero (r ∷ rules) = refl
set_timeout-length parse print t (suc i) (r ∷ rules) =
    ap suc (set_timeout-length parse print t i rules)

set_timeout_at-length :
    (parse : Parser) (print : Printer) (t : TcpTimeouts) (i : ℤ) (rules : List HttpRouteRule)
    → length (set_timeout_at parse print t i rules) ≡ length rules
set_timeout_at-length parse print t (pos i) rules = set_timeout-length parse print t i rules
set_timeout_at-length parse print t (negsuc i) rules = refl

is_out_of_range_lem : (n : ℕ) (i : ℤ) → is_out_of_range i n ≡ is_no_index n i
is_out_of_range_lem n (pos i) = ground arith
is_out_of_range_lem n (negsuc i) = ground arith

apply_timeouts_lem :
    (parse : Parser) (print : Printer) (rules : List HttpRouteRule)
    (m : Dict ℤ (Option TcpTimeouts))
    → (length (apply_timeouts parse print rules m).0 ≡ length rules)
      × ((apply_timeouts parse print rules m).1 ≡ map index_error (late_indices (length rules) m))
unfolding apply_timeouts
apply_timeouts_lem parse print rules [] = (refl, refl)
apply_timeouts_lem parse print rules ((i, none) ∷ m) = apply_timeouts_lem parse print rules m
apply_timeouts_lem parse print rules ((i, some t) ∷ m) =
    let kept = set_timeout_at-length parse print t i rules in
    let (l, e) = apply_timeouts_lem parse print (set_timeout_at parse print t i rules) m in
    let (l', e') = apply_timeouts_lem parse print rules m in
    let range = is_out_of_range_lem (length rules) i in
    elim (Bool-cases (is_no_index (length rules) i)) [
      | inr within ↦ (
        rw (range, within) (l ∙ kept),
        rw (range, within) (e ∙ ap (λ n. map index_error (late_indices n m)) kept),
      )
      | inl late ↦ (rw (range, late) l', rw (range, late) (ap (λ es. index_error i ∷ es) e'))
    ]

-- `applyTCPTimeouts` keeps the number of rules of a route, leaves no time-outs by rule index, and
-- returns one error, in order, for each index with time-outs that is not that of a rule.
pub apply_tcp_timeouts_lem :
    (parse : Parser) (print : Printer) (c : HttpRouteContext)
    → (length (apply_tcp_timeouts parse print c).0.route.rules ≡ length c.route.rules)
      × ((apply_tcp_timeouts parse print c).0.tcp_timeouts_by_rule_idx ≡ [])
      × ((apply_tcp_timeouts parse print c).1
          ≡ map index_error (late_indices (length c.route.rules) c.tcp_timeouts_by_rule_idx))
unfolding apply_tcp_timeouts
apply_tcp_timeouts_lem parse print c =
    let (l, e) = apply_timeouts_lem parse print c.route.rules c.tcp_timeouts_by_rule_idx in
    (l, refl, e)
