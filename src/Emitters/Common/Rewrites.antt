-- ===== src/Emitters/Common/Rewrites.antt =====
-- Which path rewrites the common emitter leaves.
use mathlib.Core.Path.{subst}
use ingress2gateway.Base.{
  ℕ, zero, suc, ◌≡◌, refl, sym, ap, ◌∙◌, Bool, true, false, Option, none, some, List, [], ◌∷◌,
  if◌then◌else◌, length, All, inl, inr, Bool-cases, Go, done, ◌>>=◌, Returns, >>=-Returns,
  >>=-Returns_of_eq, ◌<◌, arith, >>=-eq-done, eq_of_done-eq,
}
use ingress2gateway.Base.Int.{ℤ, pos, negsuc}
use ingress2gateway.Base.Dict.{Dict}
use ingress2gateway.Api.Gateway.{HttpRouteRule}
use ingress2gateway.EmitterIr.{PathRewrite, HttpRouteContext}
use ingress2gateway.Emitters.Common.{
  add_rewrite, add_rewrite_at, apply_rewrites, apply_path_rewrites,
}

-- The rewrite is nil or refers to the groups of a regular expression.
abbrev pub IsLeft : Option PathRewrite → Type 0
IsLeft none = Unit
IsLeft (some p) = p.regex_capture_group_references ≡ true

abbrev pub IsLeftEntry : ℤ × Option PathRewrite → Type 0
IsLeftEntry e = IsLeft e.1

add_rewrite-length :
    (p : PathRewrite) (i : ℕ) (rules rules' : List HttpRouteRule)
    → add_rewrite p i rules ≡ done rules'
    → length rules' ≡ length rules
unfolding add_rewrite
add_rewrite-length p i [] rules' h = cc
add_rewrite-length p zero (r ∷ rules) rules' h = ap length (sym (eq_of_done-eq h))
add_rewrite-length p (suc i) (r ∷ rules) rules' h =
    let (rest, is_rest, h1) = >>=-eq-done (add_rewrite p i rules) _ h in
    ap length (sym (eq_of_done-eq h1)) ∙ ap suc (add_rewrite-length p i rules rest is_rest)

add_rewrite_at-length :
    (p : PathRewrite) (i : ℤ) (rules rules' : List HttpRouteRule)
    → add_rewrite_at p i rules ≡ done rules'
    → length rules' ≡ length rules
add_rewrite_at-length p (pos i) rules rules' h = add_rewrite-length p i rules rules' h
add_rewrite_at-length p (negsuc i) rules rules' h = cc

abbrev Applied : Type 0
Applied = List HttpRouteRule × Dict ℤ (Option PathRewrite)

-- After the loop on `n` rules.
abbrev IsApplied : ℕ → Applied → Type 0
IsApplied n r = (length r.0 ≡ n) × All IsLeftEntry r.1

apply_rewrites-IsApplied :
    (rules : List HttpRouteRule) (m : Dict ℤ (Option PathRewrite)) (r : Applied)
    → apply_rewrites rules m ≡ done r
    → IsApplied (length rules) r
unfolding apply_rewrites
apply_rewrites-IsApplied rules [] r h =
    subst (IsApplied (length rules)) (eq_of_done-eq h) (refl, tt)
apply_rewrites-IsApplied rules ((i, none) ∷ m) r h =
    let (rest, is_rest, h1) = >>=-eq-done (apply_rewrites rules m) _ h in
    let (l, left) = apply_rewrites-IsApplied rules m rest is_rest in
    subst (IsApplied (length rules)) (eq_of_done-eq h1) (l, (tt, left))
apply_rewrites-IsApplied rules ((i, some p) ∷ m) r h =
    elim (Bool-cases p.regex_capture_group_references) [
      | inl regex ↦
          kept regex (sym (choose regex) ∙ h) (λ rest e. apply_rewrites-IsApplied rules m rest e)
      | inr plain ↦
          applied (sym (choose plain) ∙ h)
            (λ rules' rest e. apply_rewrites-IsApplied rules' m rest e)
    ]
  where
    after : Bool → Go Applied
    after b =
        if b
        then (apply_rewrites rules m >>= (λ r. done (r.0, (i, some p) ∷ r.1)))
        else (add_rewrite_at p i rules
            >>= (λ rules'. apply_rewrites rules' m >>= (λ r. done (r.0, (i, none) ∷ r.1))))

    choose :
        {b : Bool}
        → p.regex_capture_group_references ≡ b
        → after p.regex_capture_group_references ≡ after b
    choose e = ap after e

    kept :
        p.regex_capture_group_references ≡ true
        → after true ≡ done r
        → ((rest : Applied) → apply_rewrites rules m ≡ done rest → IsApplied (length rules) rest)
        → IsApplied (length rules) r
    kept regex e ih =
        let (rest, is_rest, h1) = >>=-eq-done (apply_rewrites rules m) _ e in
        let (l, left) = ih rest is_rest in
        subst (IsApplied (length rules)) (eq_of_done-eq h1) (l, (regex, left))

    applied :
        after false ≡ done r
        → ((rules' : List HttpRouteRule) (rest : Applied)
            → apply_rewrites rules' m ≡ done rest
            → IsApplied (length rules') rest)
        → IsApplied (length rules) r
    applied e ih =
        let (rules', is_rules', h0) = >>=-eq-done (add_rewrite_at p i rules) _ e in
        let (rest, is_rest, h1) = >>=-eq-done (apply_rewrites rules' m) _ h0 in
        let (l, left) = ih rules' rest is_rest in
        subst (IsApplied (length rules)) (eq_of_done-eq h1)
          (l ∙ add_rewrite_at-length p i rules rules' is_rules', (tt, left))

-- The integer is the index of one of `n` rules.
abbrev pub IsIndex : ℕ → ℤ → Type 0
IsIndex n (pos i) = i < n
IsIndex n (negsuc i) = ⊥

abbrev pub IsWithin : ℕ → ℤ × Option PathRewrite → Type 0
IsWithin n e = IsIndex n e.0

add_rewrite-Returns :
    (p : PathRewrite) (i : ℕ) (rules : List HttpRouteRule)
    → i < length rules
    → Returns (add_rewrite p i rules)
unfolding add_rewrite
add_rewrite-Returns p i [] h = elim h [ ]
add_rewrite-Returns p zero (r ∷ rules) h = (_, refl)
add_rewrite-Returns p (suc i) (r ∷ rules) h =
    >>=-Returns (add_rewrite p i rules) _ (add_rewrite-Returns p i rules (omega arith))
      (λ rest. (_, refl))

add_rewrite_at-Returns :
    (p : PathRewrite) (i : ℤ) (rules : List HttpRouteRule)
    → IsIndex (length rules) i
    → Returns (add_rewrite_at p i rules)
add_rewrite_at-Returns p (pos i) rules h = add_rewrite-Returns p i rules h
add_rewrite_at-Returns p (negsuc i) rules h = elim h [ ]

either-Returns :
    (b : Bool) (x y : Go Applied) → Returns x → Returns y → Returns (if b then x else y)
either-Returns true x y h k = h
either-Returns false x y h k = k

apply_rewrites-Returns :
    (n : ℕ) (rules : List HttpRouteRule) (m : Dict ℤ (Option PathRewrite))
    → length rules ≡ n
    → All (IsWithin n) m
    → Returns (apply_rewrites rules m)
unfolding apply_rewrites
apply_rewrites-Returns n rules [] l h = (_, refl)
apply_rewrites-Returns n rules ((i, none) ∷ m) l (_, h) =
    >>=-Returns (apply_rewrites rules m) _ (apply_rewrites-Returns n rules m l h) (λ r. (_, refl))
apply_rewrites-Returns n rules ((i, some p) ∷ m) l (within, h) =
    let (rules', added) =
      add_rewrite_at-Returns p i rules (subst (λ k. IsIndex k i) (sym l) within) in
    either-Returns p.regex_capture_group_references _ _
      (>>=-Returns (apply_rewrites rules m) _ (apply_rewrites-Returns n rules m l h)
        (λ r. (_, refl)))
      (>>=-Returns_of_eq (add_rewrite_at p i rules) _ rules' added (
        >>=-Returns (apply_rewrites rules' m) _
          (apply_rewrites-Returns n rules' m (add_rewrite_at-length p i rules rules' added ∙ l) h)
          (λ r. (_, refl))))

-- If every index with a path rewrite is that of a rule, `applyPathRewrites` returns and does not
-- panic, keeps the number of rules of a route, and leaves only path rewrites that are nil or refer
-- to the groups of a regular expression.
pub apply_path_rewrites_lem :
    (c : HttpRouteContext)
    → All (IsWithin (length c.route.rules)) c.path_rewrite_by_rule_idx
    → (c' : HttpRouteContext) × (apply_path_rewrites c ≡ done c')
      × (length c'.route.rules ≡ length c.route.rules)
      × All IsLeftEntry c'.path_rewrite_by_rule_idx
unfolding apply_path_rewrites
apply_path_rewrites_lem c h =
    let (r, is_r) =
      apply_rewrites-Returns (length c.route.rules) c.route.rules c.path_rewrite_by_rule_idx refl
        h in
    let (l, left) = apply_rewrites-IsApplied c.route.rules c.path_rewrite_by_rule_idx r is_r in
    (
      record c { route = record c.route { rules = r.0 }; path_rewrite_by_rule_idx = r.1 },
      ap
          (λ x. x >>= (λ r.
            done (record c {
              route = record c.route { rules = r.0 };
              path_rewrite_by_rule_idx = r.1;
            })))
          is_r,
      l,
      left,
    )
