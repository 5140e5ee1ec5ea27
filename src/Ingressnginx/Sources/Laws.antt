-- ===== src/Ingressnginx/Sources/Laws.antt =====
-- Which Ingress a feature reads for a rule, and where the shared loop stores what it reads.
use mathlib.Core.Path.{subst}
use ingress2gateway.Base.{
  ℕ, zero, suc, ◌+◌, ◌<◌, ◌≡◌, ◌≢◌, refl, sym, ap, ◌∙◌, not, Option, none, some, List, [], ◌∷◌,
  done, All, keep, get_elem?, arith, nat_comparable, inl, inr, Bool-cases, eqb_iff,
}
use ingress2gateway.Base.Int.{pos, int_comparable}
use ingress2gateway.Base.Dict.{lookup, lookup-insert}
use ingress2gateway.Api.Ingress.{Ingress}
use ingress2gateway.Api.Gateway.{HttpRouteRule}
use ingress2gateway.ProviderIr.{BackendSource}
use ingress2gateway.Ingressnginx.Annotations.{Notice}
use ingress2gateway.Ingressnginx.Sources.{
  is_canary_ingress, first_non_canary, first_ingress, found_or, get_non_canary_ingress, ByRule,
  add_entry, entry_of, for_rules,
}

abbrev pub HasIngress : BackendSource → Type 0
HasIngress s = (ingress : Ingress) × (s.ingress ≡ some ingress)

abbrev pub ingresses_of : List BackendSource → List Ingress
ingresses_of [] = []
ingresses_of (s ∷ sources) = elim s.ingress [
  | none ↦ ingresses_of sources
  | some i ↦ i ∷ ingresses_of sources
]

abbrev pub head? : List Ingress → Option Ingress
head? [] = none
head? (i ∷ is) = some i

-- The first Ingress that is no canary, or else the first one.
abbrev pub main_ingress : List BackendSource → Option Ingress
main_ingress sources =
    found_or (head? (keep (λ i. not (is_canary_ingress i)) (ingresses_of sources)))
      (head? (ingresses_of sources))

first_non_canary_lem :
    (sources : List BackendSource)
    → All HasIngress sources
    → first_non_canary sources
      ≡ done (head? (keep (λ i. not (is_canary_ingress i)) (ingresses_of sources)))
unfolding first_non_canary
first_non_canary_lem [] h = refl
first_non_canary_lem (s ∷ sources) ((i, e), h) = elim (Bool-cases (is_canary_ingress i)) [
  | inl canary ↦ rw (e, canary) (first_non_canary_lem sources h)
  | inr other ↦ rw (e, other) refl
]

first_ingress_lem :
    (sources : List BackendSource)
    → All HasIngress sources
    → first_ingress sources ≡ head? (ingresses_of sources)
first_ingress_lem [] h = refl
first_ingress_lem (s ∷ sources) ((i, e), h) = rw e

-- `getNonCanaryIngress` returns the first Ingress of the sources that is no canary, or else the
-- first one, if every source has an Ingress.
pub get_non_canary_ingress_lem :
    (sources : List BackendSource)
    → All HasIngress sources
    → get_non_canary_ingress sources ≡ done (main_ingress sources)
unfolding get_non_canary_ingress
get_non_canary_ingress_lem sources h =
    rw (first_non_canary_lem sources h, first_ingress_lem sources h) refl

-- The entry that a feature has for a rule and its sources, where `old` was there before.
abbrev pub entry_for :
    {A : Type 0}
    → (Ingress → Option A × List Notice)
    → Option HttpRouteRule
    → Option (List BackendSource)
    → Option (Option A)
    → Option (Option A)
entry_for f none srcs old = old
entry_for f (some rule) none old = old
entry_for f (some rule) (some srcs) old = elim (main_ingress srcs) [
  | none ↦ old
  | some ingress ↦ elim (f ingress).0 [ none ↦ old | some a ↦ some (some a) ]
]

module _ {A : Type 0} (f : Ingress → Option A × List Notice) where
  add_entry-lookup :
      (i k : ℕ) (e : Option A × List Notice) (acc : ByRule A)
      → i ≢ k
      → lookup (pos k) (add_entry i e acc).0 ≡ lookup (pos k) acc.0
  add_entry-lookup i k (none, notices) acc h = refl
  add_entry-lookup i k (some a, notices) (m, all) h =
      ground (arith, lookup-insert (pos i) (pos k) (some a) m, eqb_iff i k)

  add_entry-lookup_self :
      (i : ℕ) (e : Option A × List Notice) (acc : ByRule A)
      → lookup (pos i) (add_entry i e acc).0
        ≡ elim e.0 [ none ↦ lookup (pos i) acc.0 | some a ↦ some (some a) ]
  add_entry-lookup_self i (none, notices) acc = refl
  add_entry-lookup_self i (some a, notices) (m, all) =
      ground (arith, lookup-insert (pos i) (pos i) (some a) m, eqb_iff i i)

  entry_of-lookup :
      (i k : ℕ) (acc : ByRule A) (o : Option Ingress)
      → i ≢ k
      → lookup (pos k) (entry_of f i acc o).0 ≡ lookup (pos k) acc.0
  entry_of-lookup i k acc none h = refl
  entry_of-lookup i k acc (some ingress) h = add_entry-lookup i k (f ingress) acc h

  entry_of-lookup_self :
      (i : ℕ) (acc : ByRule A) (rule : HttpRouteRule) (srcs : List BackendSource)
      → lookup (pos i) (entry_of f i acc (main_ingress srcs)).0
        ≡ entry_for f (some rule) (some srcs) (lookup (pos i) acc.0)
  entry_of-lookup_self i acc rule srcs = by_main (main_ingress srcs)
    where
      by_main :
          (o : Option Ingress)
          → lookup (pos i) (entry_of f i acc o).0 ≡ elim o [
            | none ↦ lookup (pos i) acc.0
            | some ingress ↦ elim (f ingress).0 [
              | none ↦ lookup (pos i) acc.0
              | some a ↦ some (some a)
            ]
          ]
      by_main none = refl
      by_main (some ingress) = add_entry-lookup_self i (f ingress) acc

  -- What the loop from the `i`th rule on has at an index.
  abbrev IsFilled :
      ℕ → ByRule A → List HttpRouteRule → List (List BackendSource) → ByRule A → Type 0
  IsFilled i acc rules sources r =
      ((j : ℕ) → j < i → lookup (pos j) r.0 ≡ lookup (pos j) acc.0)
      × ((k : ℕ)
          → lookup (pos (i + k)) r.0
            ≡ entry_for f (get_elem? rules k) (get_elem? sources k) (lookup (pos (i + k)) acc.0))

  entry_for-none :
      (rule : Option HttpRouteRule) (old : Option (Option A)) → entry_for f rule none old ≡ old
  entry_for-none none old = refl
  entry_for-none (some rule) old = refl

  for_rules-IsFilled :
      (i : ℕ) (acc : ByRule A) (rules : List HttpRouteRule) (sources : List (List BackendSource))
      → All (All HasIngress) sources
      → (r : ByRule A) × (for_rules f i acc rules sources ≡ done r) × IsFilled i acc rules sources r
  unfolding for_rules
  for_rules-IsFilled i acc [] sources h = (acc, refl, (λ j l. refl, λ k. refl))
  for_rules-IsFilled i acc (rule ∷ rules) [] h = (
    acc,
    refl,
    (
      λ j l. refl,
      λ k. sym (entry_for-none (get_elem? (rule ∷ rules) k) (lookup (pos (i + k)) acc.0)),
    ),
  )
  for_rules-IsFilled i acc (rule ∷ rules) (srcs ∷ sources) (q, h) =
      let acc' = entry_of f i acc (main_ingress srcs) in
      let (r, e, (before, after)) = for_rules-IsFilled (i + 1) acc' rules sources h in
      (
        r,
        rw (get_non_canary_ingress_lem srcs q) e,
        (
          λ j l.
              before j (omega arith)
              ∙ entry_of-lookup i j acc (main_ingress srcs) (λ same. omega arith),
          at_index r acc' before after refl,
        ),
      )
    where
      at_index :
          (r acc' : ByRule A)
          → ((j : ℕ) → j < i + 1 → lookup (pos j) r.0 ≡ lookup (pos j) acc'.0)
          → ((k : ℕ)
              → lookup (pos (i + 1 + k)) r.0
                ≡ entry_for f
                    (get_elem? rules k)
                    (get_elem? sources k)
                    (lookup (pos (i + 1 + k)) acc'.0))
          → acc' ≡ entry_of f i acc (main_ingress srcs)
          → (k : ℕ)
          → lookup (pos (i + k)) r.0
            ≡ entry_for f
                (get_elem? (rule ∷ rules) k)
                (get_elem? (srcs ∷ sources) k)
                (lookup (pos (i + k)) acc.0)
      at_index r acc' before after e zero =
          let zero_added : i + 0 ≡ i = omega arith in
          rw zero_added (
            before i (omega arith)
            ∙ ap (λ (x : ByRule A). lookup (pos i) x.0) e
            ∙ entry_of-lookup_self i acc rule srcs)
      at_index r acc' before after e (suc k) =
          let one_added : i + 1 + k ≡ i + suc k = omega arith in
          subst
            (λ n.
              lookup (pos n) r.0
              ≡ entry_for f (get_elem? rules k) (get_elem? sources k) (lookup (pos n) acc.0))
            one_added
            (after k
              ∙ ap (entry_for f (get_elem? rules k) (get_elem? sources k)) (
                  ap (λ (x : ByRule A). lookup (pos (i + 1 + k)) x.0) e
                  ∙ entry_of-lookup i (i + 1 + k) acc (main_ingress srcs) (λ same. omega arith)))

  -- The loop over the rules returns, if every source has an Ingress; and then the entry of the kth
  -- rule is what the feature reads from the Ingress of the kth rule's sources, if it reads
  -- something, and what was there before otherwise.
  pub for_rules_lem :
      (acc : ByRule A) (rules : List HttpRouteRule) (sources : List (List BackendSource))
      → All (All HasIngress) sources
      → (r : ByRule A) × (for_rules f 0 acc rules sources ≡ done r)
        × ((k : ℕ)
            → lookup (pos k) r.0
              ≡ entry_for f (get_elem? rules k) (get_elem? sources k) (lookup (pos k) acc.0))
  for_rules_lem acc rules sources h =
      let (r, e, (_, after)) = for_rules-IsFilled 0 acc rules sources h in
      (
        r,
        e,
        λ k.
            subst
              (λ n.
                lookup (pos n) r.0
                ≡ entry_for f (get_elem? rules k) (get_elem? sources k) (lookup (pos n) acc.0))
              (zero_plus k) (after k),
      )
    where
      zero_plus : (k : ℕ) → 0 + k ≡ k
      zero_plus k = omega arith
