-- ===== src/Ingressnginx/Canary/Total.antt =====
-- `canaryFeature` does not panic on a route whose sources stand beside its backends.
use mathlib.Core.Path.{subst}
use ingress2gateway.Base.{
  ℕ, zero, suc, ◌+◌, ◌<◌, ◌≡◌, refl, sym, ap, ◌∙◌, Bool, true, false, ◌||◌, not, Option, none, some,
  List, [], ◌∷◌, String, string_comparable, if◌then◌else◌, arith, eqb, inl, inr, Bool-cases, Go,
  done, Returns, >>=-Returns, >>=-Returns_of_eq, get_elem?, get_elem?-some_of_lt, length, Pointwise,
}
use ingress2gateway.Base.Int.{ℤ}
use ingress2gateway.Api.Gateway.{BackendRef, HttpRouteRule}
use ingress2gateway.ProviderIr.{BackendSource}
use ingress2gateway.Ingressnginx.Canary.{CanaryConfig}
use ingress2gateway.Ingressnginx.Canary.Backends.{CanaryInfo, get_canary_info}
use ingress2gateway.Ingressnginx.Canary.Laws.{get_canary_info-IsSplit}
use ingress2gateway.Ingressnginx.Canary.Rules.{
  nth, set_weight, without_canary, set_weights, remove_canary, split_header, change_rule,
  change_rules,
}

nth-eq_done {ℓ} :
    {A : Type ℓ} (xs : List A) (i : ℕ) (x : A) → get_elem? xs i ≡ some x → nth xs i ≡ done x
nth-eq_done xs i x e = rw (e, nth) refl

nth-Returns {ℓ} : {A : Type ℓ} (xs : List A) (i : ℕ) → i < length xs → Returns (nth xs i)
nth-Returns xs i h = let (x, e) = get_elem?-some_of_lt xs i h in (x, nth-eq_done xs i x e)

lt_of_get_elem? {ℓ} :
    {A : Type ℓ} (xs : List A) (i : ℕ) (x : A) → get_elem? xs i ≡ some x → i < length xs
lt_of_get_elem? [] i x h = cc
lt_of_get_elem? (y ∷ xs) zero x h = omega arith
lt_of_get_elem? (y ∷ xs) (suc i) x h = omega (arith, lt_of_get_elem? xs i x h)

-- A weight within range is set and keeps the number of backends.
set_weight-keeps :
    (refs : List BackendRef) (i : ℕ) (w : ℤ)
    → i < length refs
    → (refs' : List BackendRef) × (set_weight refs i w ≡ done refs') × (length refs' ≡ length refs)
unfolding set_weight
set_weight-keeps [] i w h = elim h [ ]
set_weight-keeps (r ∷ refs) zero w h = (record r { weight = some w } ∷ refs, refl, refl)
set_weight-keeps (r ∷ refs) (suc i) w h =
    let (refs', e, l) = set_weight-keeps refs i w (omega arith) in (r ∷ refs', rw e refl, ap suc l)

set_weights-keeps :
    (info : CanaryInfo) (c n : ℕ) (refs : List BackendRef)
    → c < length refs
    → n < length refs
    → (refs' : List BackendRef) × (set_weights info c n refs ≡ done refs')
      × (length refs' ≡ length refs)
set_weights-keeps info c n refs hc hn =
    elim (Bool-cases (info.config.is_weight || not info.config.is_header)) [
      | inl weighted ↦
          let (refs1, e1, l1) = set_weight-keeps refs c info.canary_weight hc in
          let (refs2, e2, l2) =
            set_weight-keeps refs1 n info.non_canary_weight (subst (λ l. n < l) (sym l1) hn) in
          (refs2, rw weighted (rw e1 e2), l2 ∙ l1)
      | inr plain ↦ (refs, rw plain refl, refl)
    ]

without_canary-Returns :
    (c i : ℕ) (refs : List BackendRef) (sources : List BackendSource)
    → i + length refs ≡ length sources
    → Returns (without_canary c i refs sources)
unfolding without_canary
without_canary-Returns c i [] sources h = (([], []), refl)
without_canary-Returns c i (r ∷ refs) sources h =
    >>=-Returns (without_canary c (i + 1) refs sources) _
      (without_canary-Returns c (i + 1) refs sources (omega arith))
      λ rest. elim (Bool-cases (eqb i c)) [
        | inl same ↦ rw same (rest, refl)
        | inr other ↦ rw other (
            >>=-Returns (nth sources i) _ (nth-Returns sources i (omega arith))
              (λ s. ((r ∷ rest.0, s ∷ rest.1), refl)))
      ]

remove_canary-Returns :
    (b : Bool) (c : ℕ) (rule : HttpRouteRule) (refs : List BackendRef)
    (sources : List BackendSource)
    → length refs ≡ length sources
    → Returns (remove_canary b c rule refs sources)
remove_canary-Returns true c rule refs sources h =
    ((record rule { backend_refs = refs }, sources), refl)
remove_canary-Returns false c rule refs sources h =
    >>=-Returns (without_canary c 0 refs sources) _
      (without_canary-Returns c 0 refs sources (omega arith))
      (λ kept. ((record rule { backend_refs = kept.0 }, kept.1), refl))

split_header-Returns :
    (config : CanaryConfig) (c n : ℕ) (rule : HttpRouteRule) (refs : List BackendRef)
    (sources : List BackendSource)
    → length refs ≡ length sources
    → c < length sources
    → n < length sources
    → Returns (split_header config c n rule refs sources)
unfolding split_header
split_header-Returns config c n rule refs sources h hc hn =
    >>=-Returns (nth refs c) _ (nth-Returns refs c (omega arith)) λ canary.
      >>=-Returns (nth refs n) _ (nth-Returns refs n (omega arith)) λ non_canary.
        >>=-Returns (nth sources c) _ (nth-Returns sources c hc) λ canary_source.
          >>=-Returns (nth sources n) _ (nth-Returns sources n hn) λ non_canary_source.
            >>=-Returns (remove_canary config.is_weight c rule refs sources) _
              (remove_canary-Returns config.is_weight c rule refs sources h) (λ left. (_, refl))

either_Returns {ℓ} :
    {A : Type ℓ} (b : Bool) (x y : Go A) → Returns x → Returns y → Returns (if b then x else y)
either_Returns true x y h k = h
either_Returns false x y h k = k

change_rule-Returns :
    (info : CanaryInfo) (o : Option (ℕ × ℕ)) (rule : HttpRouteRule) (sources : List BackendSource)
    → length rule.backend_refs ≡ length sources
    → ((c n : ℕ) → o ≡ some (c, n) → (c < length sources) × (n < length sources))
    → Returns (change_rule info o rule sources)
unfolding change_rule
change_rule-Returns info none rule sources h b = (_, refl)
change_rule-Returns info (some (c, n)) rule sources h b =
    let (hc, hn) = b c n refl in
    let (refs, e, l) = set_weights-keeps info c n rule.backend_refs (omega arith) (omega arith) in
    >>=-Returns_of_eq (set_weights info c n rule.backend_refs) _ refs e (
      either_Returns info.config.is_header _ _
        (split_header-Returns info.config c n rule refs sources (l ∙ h) hc hn) (_, refl))

-- `canaryFeature` returns on the rules of an HTTPRoute, without a panic, where there are as many
-- lists of sources as rules and, in each, as many sources as backends.
pub change_rules-Returns :
    (name : String) (i : ℕ) (rules : List HttpRouteRule) (sources : List (List BackendSource))
    → Pointwise
        (λ (rule : HttpRouteRule) (srcs : List BackendSource).
          length rule.backend_refs ≡ length srcs)
        rules
        sources
    → Returns (change_rules name i rules sources)
unfolding change_rules
change_rules-Returns name i [] [] h = (_, refl)
change_rules-Returns name i [] (srcs ∷ sources) h = elim h [ ]
change_rules-Returns name i (rule ∷ rules) [] h = elim h [ ]
change_rules-Returns name i (rule ∷ rules) (srcs ∷ sources) (h, rest) =
    let info = get_canary_info srcs "httproute" name i in
    >>=-Returns (change_rule info info.indices rule srcs) _
      (change_rule-Returns info info.indices rule srcs h in_range)
      λ x.
        >>=-Returns (change_rules name (i + 1) rules sources) _
          (change_rules-Returns name (i + 1) rules sources rest) (λ y. (_, refl))
  where
    in_range :
        (c n : ℕ)
        → (get_canary_info srcs "httproute" name i).indices ≡ some (c, n)
        → (c < length srcs) × (n < length srcs)
    in_range c n e =
        let ((s, _, at_c, _, _), (t, _, at_n, _, _), _) =
          get_canary_info-IsSplit srcs "httproute" name i c n e in
        (lt_of_get_elem? srcs c s at_c, lt_of_get_elem? srcs n t at_n)
