-- ===== src/Ingressnginx/Features/Laws.antt =====
-- What the loop that the features of the emitter IR share leaves in the routes.
use mathlib.Core.Path.{subst}
use ingress2gateway.Base.{
  ℕ, ◌≡◌, refl, sym, ap, ◌∙◌, true, false, inl, inr, Bool-cases, Option, none, some, List, [], ◌∷◌,
  contains, distinct, done, ◌>>=◌, All, get_elem?, nat_comparable, Comparable, ◌==◌, ==_refl, arith,
}
use ingress2gateway.Base.Int.{ℤ, pos, int_comparable}
use ingress2gateway.Base.Dict.{Dict, lookup, lookup-insert}
use ingress2gateway.Base.Keys.{keys_in}
use ingress2gateway.Api.Ingress.{NamespacedName, namespaced_name_comparable}
use ingress2gateway.ProviderIr
use ingress2gateway.EmitterIr.{EmitterIr, HttpRouteContext}
use ingress2gateway.Ingressnginx.Annotations.{Notice}
use ingress2gateway.Ingressnginx.Sources.Laws.{HasIngress, entry_for, for_rules_lem}
use ingress2gateway.Ingressnginx.Features.{
  RuleFeature, AppliedRoutes, stored, apply_route, apply_routes, apply_feature,
}

module _ {K V : Type 0} ⦃e : Comparable K⦄ where
  pub lookup-none :
      (m : Dict K V) (key : K) → contains key (keys_in m) ≡ false → lookup key m ≡ none
  lookup-none [] key h = refl
  lookup-none ((k, v) ∷ m) key h =
      ground (arith, lookup-none m key, e.same_iff key k, e.same_iff k key)

  contains-of_distinct :
      (m : Dict K V) (key : K) (v : V)
      → distinct (keys_in ((key, v) ∷ m)) ≡ true
      → contains key (keys_in m) ≡ false
  contains-of_distinct m key v h = ground arith

  distinct-tail :
      (m : Dict K V) (key : K) (v : V)
      → distinct (keys_in ((key, v) ∷ m)) ≡ true
      → distinct (keys_in m) ≡ true
  distinct-tail m key v h = ground arith

-- Every source of every rule has an Ingress.
abbrev pub HasIngresses : NamespacedName × ProviderIr.HttpRouteContext → Type 0
HasIngresses r = All (All HasIngress) r.1.rule_backend_sources

module _ {A : Type 0} (feature : RuleFeature A) where
  -- What becomes of the emitter's route at a key. Of a route that both IRs have, the field of the
  -- feature gets the entries by rule index.
  abbrev pub IsAppliedAt :
      Option ProviderIr.HttpRouteContext
      → Option HttpRouteContext
      → Option HttpRouteContext
      → Type 0
  IsAppliedAt none old new = new ≡ old
  IsAppliedAt (some p) none new = new ≡ none
  IsAppliedAt (some p) (some e) new =
      (m : Dict ℤ (Option A)) × (new ≡ some (feature.set m e))
      × ((k : ℕ)
          → lookup (pos k) m
            ≡ entry_for (feature.read p) (get_elem? (feature.rules p e) k)
                (get_elem? p.rule_backend_sources k) (lookup (pos k) (feature.get e)))

  abbrev pub IsApplied :
      Dict NamespacedName ProviderIr.HttpRouteContext
      → Dict NamespacedName HttpRouteContext
      → Dict NamespacedName HttpRouteContext
      → Type 0
  IsApplied routes before after =
      (key : NamespacedName)
      → IsAppliedAt (lookup key routes) (lookup key before) (lookup key after)

  abbrev pub IsStep :
      NamespacedName → ProviderIr.HttpRouteContext → AppliedRoutes → AppliedRoutes → Type 0
  IsStep key p acc acc' =
      IsAppliedAt (some p) (lookup key acc.0) (lookup key acc'.0)
      × ((j : NamespacedName) → (key == j) ≡ false → lookup j acc'.0 ≡ lookup j acc.0)

  apply_route-IsStep :
      (key : NamespacedName) (p : ProviderIr.HttpRouteContext) (acc : AppliedRoutes)
      (o : Option HttpRouteContext)
      → lookup key acc.0 ≡ o
      → HasIngresses (key, p)
      → (acc' : AppliedRoutes) × (apply_route feature key p acc o ≡ done acc')
        × IsStep key p acc acc'
  apply_route-IsStep key p acc none e h = (acc, refl, (rw e refl, λ j other. refl))
  apply_route-IsStep key p (routes, notices) (some c) e h =
      let (m, run, entries) =
        for_rules_lem (feature.read p) (feature.get c, []) (feature.rules p c)
          p.rule_backend_sources h in
      (
        stored feature key c (routes, notices) m,
        ap (λ x. x >>= λ m. done (stored feature key c (routes, notices) m)) run,
        (
          rw e (
            m.0,
            lookup-insert key key (feature.set m.0 c) routes ∙ rw (==_refl key) refl,
            entries,
          ),
          λ j other. lookup-insert key j (feature.set m.0 c) routes ∙ rw other refl,
        ),
      )

  unchanged :
      (o : Option ProviderIr.HttpRouteContext) (old new : Option HttpRouteContext)
      → o ≡ none
      → IsAppliedAt o old new
      → new ≡ old
  unchanged none old new e h = h
  unchanged (some p) old new e h = cc

  -- A step for the first route, and the others after it.
  IsApplied-step :
      (key : NamespacedName) (p : ProviderIr.HttpRouteContext)
      (routes : Dict NamespacedName ProviderIr.HttpRouteContext) (acc acc1 acc2 : AppliedRoutes)
      → contains key (keys_in routes) ≡ false
      → IsStep key p acc acc1
      → IsApplied routes acc1.0 acc2.0
      → IsApplied ((key, p) ∷ routes) acc.0 acc2.0
  IsApplied-step key p routes acc acc1 acc2 c (here, elsewhere) later j =
      elim (Bool-cases (key == j)) [
        | inl same ↦
            let key_is_j : key ≡ j = (namespaced_name_comparable.same_iff key j).0 same in
            let kept : lookup key acc2.0 ≡ lookup key acc1.0 =
              unchanged (lookup key routes) (lookup key acc1.0) (lookup key acc2.0)
                (lookup-none routes key c) (later key) in
            let there : IsAppliedAt (some p) (lookup key acc.0) (lookup key acc2.0) =
              subst (λ new. IsAppliedAt (some p) (lookup key acc.0) new) (sym kept) here in
            rw same
              (subst (λ i. IsAppliedAt (some p) (lookup i acc.0) (lookup i acc2.0)) key_is_j there)
        | inr other ↦ rw other (
            subst (λ old. IsAppliedAt (lookup j routes) old (lookup j acc2.0)) (elsewhere j other)
              (later j))
      ]

  apply_routes-IsApplied :
      (routes : Dict NamespacedName ProviderIr.HttpRouteContext) (acc : AppliedRoutes)
      → All HasIngresses routes
      → distinct (keys_in routes) ≡ true
      → (acc' : AppliedRoutes) × (apply_routes feature routes acc ≡ done acc')
        × IsApplied routes acc.0 acc'.0
  unfolding apply_routes
  apply_routes-IsApplied [] acc h d = (acc, refl, λ key. refl)
  apply_routes-IsApplied ((key, p) ∷ routes) acc (q, h) d =
      let (acc1, first, (here, elsewhere)) =
        apply_route-IsStep key p acc (lookup key acc.0) refl q in
      let (acc2, rest, later) =
        apply_routes-IsApplied routes acc1 h (distinct-tail routes key p d) in
      (
        acc2,
        ap (λ x. x >>= λ a. apply_routes feature routes a) first ∙ rest,
        IsApplied-step key p routes acc acc1 acc2 (contains-of_distinct routes key p d)
            (here, elsewhere) later,
      )

  -- If no two routes of the provider IR have the same key and every source of a rule has an Ingress,
  -- then a feature of the emitter IR returns; it changes nothing but the routes that both IRs have,
  -- to what `set` gives for some map, and the entry of a rule in that map is what the feature reads
  -- from the rule's main Ingress, if it reads something, and the entry that was there otherwise.
  pub apply_feature-IsApplied :
      (pir : ProviderIr.ProviderIr) (eir : EmitterIr)
      → All HasIngresses pir.http_routes
      → distinct (keys_in pir.http_routes) ≡ true
      → (routes : Dict NamespacedName HttpRouteContext) × (notices : List Notice) × (apply_feature
            feature pir eir
          ≡ done (record eir { http_routes = routes }, notices))
        × IsApplied pir.http_routes eir.http_routes routes
  unfolding apply_feature
  apply_feature-IsApplied pir eir h d =
      let (acc, run, after) = apply_routes-IsApplied pir.http_routes (eir.http_routes, []) h d in
      (acc.0, acc.1, ap (λ x. x >>= λ r. done (record eir { http_routes = r.0 }, r.1)) run, after)
