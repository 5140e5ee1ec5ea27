-- ===== src/Ingressnginx/Passthrough/Laws.antt =====
-- The rules that `stripPassthroughRules` leaves, and their sources.
use ingress2gateway.Base.{
  false, inl, inr, Bool-cases, ◌≡◌, ◌≢◌, refl, ap, suc, List, [], ◌∷◌, length, All, Pointwise,
  arith,
}
use ingress2gateway.Api.Ingress.{NamespacedName}
use ingress2gateway.Api.Gateway.{BackendRef, HttpRouteRule}
use ingress2gateway.ProviderIr.{BackendSource, HttpRouteContext}
use ingress2gateway.Ingressnginx.Passthrough.{
  is_passthrough, kept_backends, keep_stripped, strip_rules, strip_passthrough_rules,
}

-- A rule has one source for each backend.
abbrev pub IsAligned : HttpRouteRule → List BackendSource → Type 0
IsAligned rule srcs = length rule.backend_refs ≡ length srcs

abbrev pub IsKept : List NamespacedName → HttpRouteRule → List BackendSource → Type 0
IsKept keys rule srcs =
    IsAligned rule srcs × (rule.backend_refs ≢ []) × All (λ s. is_passthrough keys s ≡ false) srcs

module _ (keys : List NamespacedName) where
  kept_backends-aligned :
      (refs : List BackendRef) (srcs : List BackendSource)
      → length refs ≡ length srcs
      → (length (kept_backends keys refs srcs).0 ≡ length (kept_backends keys refs srcs).1)
        × All (λ s. is_passthrough keys s ≡ false) (kept_backends keys refs srcs).1
  kept_backends-aligned [] srcs h = (refl, tt)
  kept_backends-aligned (b ∷ refs) [] h = cc
  kept_backends-aligned (b ∷ refs) (s ∷ srcs) h =
      let (same, clean) = kept_backends-aligned refs srcs (omega arith) in
      elim (Bool-cases (is_passthrough keys s)) [
        | inl passes ↦ rw passes (same, clean)
        | inr other ↦ rw other (ap suc same, (other, clean))
      ]

  keep_stripped-IsKept :
      (rule : HttpRouteRule) (kept : List BackendRef × List BackendSource)
      (rest : List HttpRouteRule × List (List BackendSource))
      → length kept.0 ≡ length kept.1
      → All (λ s. is_passthrough keys s ≡ false) kept.1
      → Pointwise (IsKept keys) rest.0 rest.1
      → Pointwise (IsKept keys) (keep_stripped rule kept rest).0 (keep_stripped rule kept rest).1
  keep_stripped-IsKept rule ([], srcs) rest e c h = h
  keep_stripped-IsKept rule (b ∷ bs, srcs) (rules, sources) e c h = ((e, (λ f. cc), c), h)

  strip_rules-IsKept :
      (rules : List HttpRouteRule) (sources : List (List BackendSource))
      → Pointwise IsAligned rules sources
      → Pointwise
          (IsKept keys)
          (strip_rules keys rules sources).0
          (strip_rules keys rules sources).1
  unfolding strip_rules
  strip_rules-IsKept [] sources h = tt
  strip_rules-IsKept (rule ∷ rules) [] h = elim h [ ]
  strip_rules-IsKept (rule ∷ rules) (srcs ∷ sources) (e, h) =
      let (same, clean) = kept_backends-aligned rule.backend_refs srcs e in
      keep_stripped-IsKept rule (kept_backends keys rule.backend_refs srcs)
        (strip_rules keys rules sources) same clean (strip_rules-IsKept rules sources h)

  -- If every rule of an HTTPRoute has one source for each backend, then so has every rule that
  -- `stripPassthroughRules` leaves; it has a backend, and none of its sources is a passthrough Ingress.
  pub strip_passthrough_rules-IsKept :
      (c : HttpRouteContext)
      → Pointwise IsAligned c.route.rules c.rule_backend_sources
      → Pointwise
          (IsKept keys)
          (strip_passthrough_rules keys c).route.rules
          (strip_passthrough_rules keys c).rule_backend_sources
  unfolding strip_passthrough_rules
  strip_passthrough_rules-IsKept c h = strip_rules-IsKept c.route.rules c.rule_backend_sources h
