-- ===== src/Ingressnginx/Features/Cors/Entries.antt =====
-- pkg/i2gw/providers/ingressnginx/cors.go: the CORS policies that `applyCorsToEmitterIR` stores.
use ingress2gateway.Base.{
  ℕ, ◌≡◌, sym, ap, ◌∙◌, ◌⊎◌, inl, inr, Bool, true, false, not, Bool-cases, Option, none, some, List,
  [], ◌∷◌, contains, distinct, get_elem?, done, All, string_comparable, if◌then◌else◌,
  nat_comparable,
}
use ingress2gateway.Base.Int.{ℤ, pos, int_comparable}
use ingress2gateway.Base.ParseInt.{parse_int}
use ingress2gateway.Base.Strings.{true_texts, false_texts}
use ingress2gateway.Base.Dict.{Dict, lookup}
use ingress2gateway.Base.Keys.{keys_in}
use ingress2gateway.Api.Ingress.{Ingress, NamespacedName, namespaced_name_comparable}
use ingress2gateway.Api.Gateway.{CorsFilter, HttpRouteRule}
use ingress2gateway.ProviderIr
use ingress2gateway.ProviderIr.{BackendSource}
use ingress2gateway.EmitterIr.{EmitterIr, HttpRouteContext}
use ingress2gateway.Ingressnginx.Annotations.{
  Notice, annotation?, enable_cors_annotation, cors_allow_origin_annotation,
  cors_allow_methods_annotation, cors_allow_headers_annotation, cors_expose_headers_annotation,
  cors_allow_credentials_annotation, cors_max_age_annotation,
}
use ingress2gateway.Ingressnginx.Sources.Laws.{main_ingress, entry_for}
use ingress2gateway.Ingressnginx.Features.{apply_feature}
use ingress2gateway.Ingressnginx.Features.Laws.{HasIngresses, IsAppliedAt, apply_feature-IsApplied}
use ingress2gateway.Ingressnginx.Features.Cors.{cors_feature, read_cors, cors_policy, is_enabled}
use ingress2gateway.Ingressnginx.Features.Cors.Texts.{
  text_at, listed, enabled_lem, credentials_lem, listed_lem, age_lem,
}

abbrev pub allows_cors : Ingress → Bool
allows_cors i = contains (text_at enable_cors_annotation i) true_texts

abbrev pub IsPolicy : Ingress → CorsFilter → Type 0
IsPolicy i c =
    (c.allow_origins ≡ listed ("*" ∷ []) (text_at cors_allow_origin_annotation i))
    × (c.allow_methods
        ≡ listed ("GET" ∷ "PUT" ∷ "POST" ∷ "DELETE" ∷ "PATCH" ∷ "OPTIONS" ∷ [])
            (text_at cors_allow_methods_annotation i))
    × (c.allow_headers
        ≡ listed
            ("DNT" ∷ "Keep-Alive" ∷ "User-Agent" ∷ "X-Requested-With" ∷ "If-Modified-Since"
              ∷ "Cache-Control" ∷ "Content-Type" ∷ "Range" ∷ "Authorization" ∷ [])
            (text_at cors_allow_headers_annotation i))
    × (c.expose_headers ≡ listed [] (text_at cors_expose_headers_annotation i))
    × (c.allow_credentials
        ≡ some (not (contains (text_at cors_allow_credentials_annotation i) false_texts)))
    × (c.max_age ≡ (
        if (parse_int (text_at cors_max_age_annotation i)).failed
        then pos 1728000
        else (parse_int (text_at cors_max_age_annotation i)).value))

-- The entry of a rule whose main Ingress is the first argument.
abbrev pub IsPolicyOf :
    Option Ingress → Option (Option CorsFilter) → Option (Option CorsFilter) → Type 0
IsPolicyOf none old new = new ≡ old
IsPolicyOf (some i) old new =
    ((allows_cors i ≡ false) × (new ≡ old))
    ⊎ ((c : CorsFilter) × (allows_cors i ≡ true) × (new ≡ some (some c)) × IsPolicy i c)

abbrev pub IsPolicyAt :
    Option HttpRouteRule
    → Option (List BackendSource)
    → Option (Option CorsFilter)
    → Option (Option CorsFilter)
    → Type 0
IsPolicyAt none sources old new = new ≡ old
IsPolicyAt (some rule) none old new = new ≡ old
IsPolicyAt (some rule) (some sources) old new = IsPolicyOf (main_ingress sources) old new

-- What becomes of the emitter's route of a key.
abbrev pub HasPolicies :
    Option ProviderIr.HttpRouteContext → Option HttpRouteContext → Option HttpRouteContext → Type 0
HasPolicies none old new = new ≡ old
HasPolicies (some p) none new = new ≡ none
HasPolicies (some p) (some e) new =
    (m : Dict ℤ (Option CorsFilter)) × (new ≡ some (record e { cors_policy_by_rule_idx = m }))
    × ((k : ℕ)
        → IsPolicyAt (get_elem? p.route.rules k) (get_elem? p.rule_backend_sources k)
            (lookup (pos k) e.cors_policy_by_rule_idx) (lookup (pos k) m))

cors_policy-IsPolicy : (i : Ingress) → IsPolicy i (cors_policy i).0
unfolding cors_policy
cors_policy-IsPolicy i = (
  listed_lem _ cors_allow_origin_annotation i,
  listed_lem _ cors_allow_methods_annotation i,
  listed_lem _ cors_allow_headers_annotation i,
  listed_lem _ cors_expose_headers_annotation i,
  ap some (credentials_lem (annotation? cors_allow_credentials_annotation i)),
  age_lem i,
)

read_cors-IsPolicyOf :
    (i : Ingress) (old new : Option (Option CorsFilter))
    → new ≡ elim (read_cors i).0 [ none ↦ old | some a ↦ some (some a) ]
    → IsPolicyOf (some i) old new
unfolding read_cors
read_cors-IsPolicyOf i old new e =
    let same = enabled_lem (annotation? enable_cors_annotation i) in
    elim (Bool-cases (is_enabled (annotation? enable_cors_annotation i))) [
      | inl on ↦ inr ((cors_policy i).0, sym same ∙ on, rw on at e, cors_policy-IsPolicy i)
      | inr off ↦ inl (sym same ∙ off, rw off at e)
    ]

main-IsPolicyOf :
    (o : Option Ingress) (old new : Option (Option CorsFilter))
    → new ≡ elim o [
      | none ↦ old
      | some i ↦ elim (read_cors i).0 [ none ↦ old | some a ↦ some (some a) ]
    ]
    → IsPolicyOf o old new
main-IsPolicyOf none old new e = e
main-IsPolicyOf (some i) old new e = read_cors-IsPolicyOf i old new e

entry-IsPolicyAt :
    (rule : Option HttpRouteRule) (sources : Option (List BackendSource))
    (old new : Option (Option CorsFilter))
    → new ≡ entry_for read_cors rule sources old
    → IsPolicyAt rule sources old new
entry-IsPolicyAt none sources old new e = e
entry-IsPolicyAt (some rule) none old new e = e
entry-IsPolicyAt (some rule) (some sources) old new e =
    main-IsPolicyOf (main_ingress sources) old new e

route-HasPolicies :
    (p : Option ProviderIr.HttpRouteContext) (old new : Option HttpRouteContext)
    → IsAppliedAt cors_feature p old new
    → HasPolicies p old new
route-HasPolicies none old new h = h
route-HasPolicies (some p) none new h = h
route-HasPolicies (some p) (some e) new (m, is_new, entries) = (
  m,
  is_new,
  λ k.
      entry-IsPolicyAt (get_elem? p.route.rules k) (get_elem? p.rule_backend_sources k)
        (lookup (pos k) e.cors_policy_by_rule_idx) (lookup (pos k) m) (entries k),
)

-- If no two HTTPRoutes of the provider IR have the same key and every source of a rule has an
-- Ingress, then `applyCorsToEmitterIR` returns and changes nothing but the CORS policies of the
-- routes that both IRs have. There, the entry of a rule of the provider's route that has sources is
-- set where the text of `enable-cors` on the main Ingress (the first one that is no canary, or else
-- the first one) is one that `ParseBool` reads as true, and is kept otherwise, as is every other
-- entry of an index. A policy that is set has the non-blank items of the four lists, or their
-- defaults ("*" for the origins, none for the exposed headers) where the text is empty; allows
-- credentials unless the text is one that `ParseBool` reads as false; and has the maximum age that
-- the text gives as an int32, or 1728000 where it gives none.
pub apply_feature-HasPolicies :
    (pir : ProviderIr.ProviderIr) (eir : EmitterIr)
    → All HasIngresses pir.http_routes
    → distinct (keys_in pir.http_routes) ≡ true
    → (routes : Dict NamespacedName HttpRouteContext) × (notices : List Notice) × (apply_feature
          cors_feature pir eir
        ≡ done (record eir { http_routes = routes }, notices))
      × ((key : NamespacedName)
          → HasPolicies
              (lookup key pir.http_routes)
              (lookup key eir.http_routes)
              (lookup key routes))
apply_feature-HasPolicies pir eir h d =
    let (routes, notices, run, after) = apply_feature-IsApplied cors_feature pir eir h d in
    (
      routes,
      notices,
      run,
      λ key.
          route-HasPolicies (lookup key pir.http_routes) (lookup key eir.http_routes)
            (lookup key routes) (after key),
    )
