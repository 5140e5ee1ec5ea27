-- ===== src/Ingressnginx/SessionAffinity.antt =====
-- pkg/i2gw/providers/ingressnginx/session_affinity.go.
use ingress2gateway.Base.{
  Bool, false, Option, none, some, List, [], ◌∷◌, String, string_comparable, ◌==◌, if◌then◌else◌,
  Go, done, panic, ◌>>=◌,
}
use ingress2gateway.Base.Int.{ℤ}
use ingress2gateway.Base.ParseInt.{ParsedInt, parse_int64}
use ingress2gateway.Base.Dict.{Dict, lookup, insert}
use ingress2gateway.Api.Ingress.{Ingress, NamespacedName, namespaced_name_comparable}
use ingress2gateway.Api.Gateway.{BackendRef, HttpRouteRule}
use ingress2gateway.EmitterIr.{SessionAffinity}
use ingress2gateway.ProviderIr.{ProviderIr, BackendSource, HttpRouteContext, ServiceIr}
use ingress2gateway.Ingressnginx.Annotations.{
  annotation?, full_name, annotation_path, affinity_annotation, session_cookie_expires_annotation,
}

abbrev pub Services : Type 0
Services = Dict NamespacedName ServiceIr

abbrev pub asks_for_cookie : Option String → Bool
asks_for_cookie none = false
asks_for_cookie (some val) = val == "cookie"

abbrev pub ttl_of_number : ParsedInt → Option ℤ
ttl_of_number ttl = if ttl.failed then none else some ttl.value

abbrev pub ttl_of : Option String → Option ℤ
ttl_of none = none
ttl_of (some val) = ttl_of_number (parse_int64 val)

abbrev pub cookie_ttl : Ingress → Option ℤ
cookie_ttl ing = ttl_of (annotation? session_cookie_expires_annotation ing)

abbrev pub affinity : Ingress → Option ℤ → SessionAffinity
affinity ing ttl = record {
  metadata = record {
    source = full_name ing;
    paths = annotation_path ing affinity_annotation ∷ elim ttl [
      | none ↦ []
      | some _ ↦ annotation_path ing session_cookie_expires_annotation ∷ []
    ];
    failure_message = "Session affinity is not supported";
  };
  type = "Cookie";
  cookie_ttl_sec = ttl;
}

-- The loop over the sources of a rule, up to the first Ingress that asks for cookies: a source
-- without an Ingress panics.
unfoldable pub affinity_of : List BackendSource → Go (Option SessionAffinity)
affinity_of [] = done none
affinity_of (s ∷ sources) =
    let rest = affinity_of sources in
    elim s.ingress [
      | none ↦ panic
      | some ing ↦
          if asks_for_cookie (annotation? affinity_annotation ing)
          then done (some (affinity ing (cookie_ttl ing)))
          else rest
    ]

abbrev pub with_affinity : SessionAffinity → Option ServiceIr → ServiceIr
with_affinity a none = record { session_affinity = some a; gce = none }
with_affinity a (some svc) = record svc { session_affinity = some a }

-- The assignments for the backends of a rule: the map is nil or not.
abbrev pub add_affinity : SessionAffinity → NamespacedName → Option Services → Go (Option Services)
add_affinity a key none = panic
add_affinity a key (some services) =
    done (some (insert key (with_affinity a (lookup key services)) services))

unfoldable pub add_affinities :
    String → SessionAffinity → List BackendRef → Option Services → Go (Option Services)
add_affinities namespace a [] services = done services
add_affinities namespace a (b ∷ bs) services =
    add_affinity a (record { namespace = namespace; name = b.name }) services >>= λ services'.
    add_affinities namespace a bs services'

abbrev pub affinity_rule :
    String → List BackendRef → Option Services → Option SessionAffinity → Go (Option Services)
affinity_rule namespace refs services none = done services
affinity_rule namespace refs services (some a) = add_affinities namespace a refs services

unfoldable pub affinity_rules :
    String → List HttpRouteRule → List (List BackendSource) → Option Services → Go (Option Services)
unfolding affinity_of add_affinities
affinity_rules namespace [] sources services = done services
affinity_rules namespace (rule ∷ rules) [] services = done services
affinity_rules namespace (rule ∷ rules) (srcs ∷ sources) services = affinity_of srcs >>= λ a.
    affinity_rule namespace rule.backend_refs services a >>= λ services'.
    affinity_rules namespace rules sources services'

unfoldable pub affinity_routes :
    Dict NamespacedName HttpRouteContext → Option Services → Go (Option Services)
unfolding affinity_rules
affinity_routes [] services = done services
affinity_routes ((key, c) ∷ routes) services =
    affinity_rules c.route.namespace c.route.rules c.rule_backend_sources services >>= λ services'.
    affinity_routes routes services'

-- `sessionAffinityFeature`
unfoldable pub session_affinity_feature : ProviderIr → Go ProviderIr
unfolding affinity_routes
session_affinity_feature ir = affinity_routes ir.http_routes ir.services >>= λ services.
    done (record ir { services = services })
