-- ===== src/Ingressnginx/Sources.antt =====
-- pkg/i2gw/providers/ingressnginx/utils.go, and the loop over the rules of a route that the features
-- share.
pub mod Laws
use ingress2gateway.Base.{
  ℕ, ◌+◌, Bool, true, false, Option, none, some, List, [], ◌∷◌, ◌++◌, if◌then◌else◌, Go, done,
  panic, ◌>>=◌, nat_comparable,
}
use ingress2gateway.Base.Int.{ℤ, pos, int_comparable}
use ingress2gateway.Base.Dict.{Dict, insert}
use ingress2gateway.Base.Strings.{parse_bool, bool_or_false}
use ingress2gateway.Api.Ingress.{Ingress}
use ingress2gateway.Api.Gateway.{HttpRouteRule}
use ingress2gateway.ProviderIr.{BackendSource}
use ingress2gateway.Ingressnginx.Annotations.{annotation, canary_annotation, Notice}

-- `parsedVal, _ := strconv.ParseBool(ingress.Annotations[CanaryAnnotation])`
unfoldable pub is_canary_ingress : Ingress → Bool
unfolding parse_bool
is_canary_ingress ingress = bool_or_false (parse_bool (annotation canary_annotation ingress))

-- The loop of `getNonCanaryIngress`; a source without an Ingress panics.
unfoldable pub first_non_canary : List BackendSource → Go (Option Ingress)
first_non_canary [] = done none
first_non_canary (s ∷ sources) =
    let rest = first_non_canary sources in
    elim s.ingress [
      | none ↦ panic
      | some ingress ↦ if is_canary_ingress ingress then rest else done (some ingress)
    ]

abbrev pub first_ingress : List BackendSource → Option Ingress
first_ingress [] = none
first_ingress (s ∷ sources) = s.ingress

abbrev pub found_or : Option Ingress → Option Ingress → Option Ingress
found_or none other = other
found_or (some ingress) other = some ingress

-- `getNonCanaryIngress`
unfoldable pub get_non_canary_ingress : List BackendSource → Go (Option Ingress)
unfolding first_non_canary
get_non_canary_ingress sources =
    first_non_canary sources >>= λ found. done (found_or found (first_ingress sources))

-- The entries by rule index so far, and the notices.
abbrev pub ByRule : Type 0 → Type 0
ByRule A = Dict ℤ (Option A) × List Notice

-- What one rule adds.
abbrev pub add_entry : {A : Type 0} → ℕ → Option A × List Notice → ByRule A → ByRule A
add_entry i (none, notices) (m, all) = (m, all ++ notices)
add_entry i (some a, notices) (m, all) = (insert (pos i) (some a) m, all ++ notices)

abbrev pub entry_of :
    {A : Type 0} → (Ingress → Option A × List Notice) → ℕ → ByRule A → Option Ingress → ByRule A
entry_of f i acc none = acc
entry_of f i acc (some ingress) = add_entry i (f ingress) acc

-- The loop over the rules from the `i`th on: a rule without sources and a rule without an Ingress
-- are passed over; otherwise the feature reads the annotations of the Ingress.
unfoldable pub for_rules :
    {A : Type 0}
    → (Ingress → Option A × List Notice)
    → ℕ
    → ByRule A
    → List HttpRouteRule
    → List (List BackendSource)
    → Go (ByRule A)
for_rules f i acc [] sources = done acc
for_rules f i acc (r ∷ rules) [] = done acc
for_rules f i acc (r ∷ rules) (srcs ∷ sources) = get_non_canary_ingress srcs >>= λ found.
    for_rules f (i + 1) (entry_of f i acc found) rules sources
