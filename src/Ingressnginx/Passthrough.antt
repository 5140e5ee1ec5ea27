-- ===== src/Ingressnginx/Passthrough.antt =====
-- pkg/i2gw/providers/ingressnginx/ssl_passthrough.go. The key of a backend, `name/port`, is the pair.
pub mod Laws
use ingress2gateway.Base.{
  ℕ, nat_comparable, Bool, true, false, ◌||◌, ◌&&◌, not, Option, none, some, List, [], ◌∷◌, ◌++◌,
  map, String, string_comparable, ◌==◌, ltb, contains, if◌then◌else◌, Go, done, panic, ◌>>=◌,
  get_elem?, Comparable,
}
use ingress2gateway.Base.Dict.{Dict, lookup, insert}
use ingress2gateway.Base.Text.{◌+++◌}
use ingress2gateway.Base.Strings.{parse_bool, bool_or_false}
use ingress2gateway.Api.Ingress.{Ingress, NamespacedName, namespaced_name_comparable}
use ingress2gateway.Api.Gateway.{
  BackendRef, HttpRoute, HttpRouteRule, TlsRoute, ParentRef, Listener,
}
use ingress2gateway.ProviderIr.{ProviderIr, BackendSource, HttpRouteContext, GatewayContext}
use ingress2gateway.Common.Names.{name_from_host}
use ingress2gateway.Ingressnginx.Annotations.{annotation?, ssl_passthrough_annotation}

abbrev pub enables_passthrough : Ingress → Bool
enables_passthrough ing = elim (annotation? ssl_passthrough_annotation ing) [
  | none ↦ false
  | some val ↦ bool_or_false (parse_bool val)
]

abbrev pub ingress_key : Ingress → NamespacedName
ingress_key ing = record { namespace = ing.namespace; name = ing.name }

-- `passthroughIngresses`: the keys of the map.
unfoldable pub passthrough_ingresses : List Ingress → List NamespacedName
passthrough_ingresses [] = []
passthrough_ingresses (ing ∷ ingresses) =
    let rest = passthrough_ingresses ingresses in
    if enables_passthrough ing then ingress_key ing ∷ rest else rest

-- Whether a source comes from such an Ingress; a source without an Ingress does not.
abbrev pub is_passthrough : List NamespacedName → BackendSource → Bool
is_passthrough keys src = elim src.ingress [
  | none ↦ false
  | some ing ↦ contains (ingress_key ing) keys
]

-- `hasPassthrough` and `hasNonPassthrough`.
abbrev pub has_passthrough : List NamespacedName → List BackendSource → Bool
has_passthrough keys [] = false
has_passthrough keys (s ∷ srcs) = is_passthrough keys s || has_passthrough keys srcs

abbrev pub has_non_passthrough : List NamespacedName → List BackendSource → Bool
has_non_passthrough keys [] = false
has_non_passthrough keys (s ∷ srcs) = not (is_passthrough keys s) || has_non_passthrough keys srcs

abbrev pub some_rule : (List BackendSource → Bool) → List (List BackendSource) → Bool
some_rule p [] = false
some_rule p (srcs ∷ sources) = p srcs || some_rule p sources

-- The backends that `stripPassthroughRules` keeps of a rule, and their sources; a backend beyond
-- the sources is kept.
abbrev pub kept_backends :
    List NamespacedName
    → List BackendRef
    → List BackendSource
    → List BackendRef × List BackendSource
kept_backends keys [] srcs = ([], [])
kept_backends keys (b ∷ bs) [] = (b ∷ bs, [])
kept_backends keys (b ∷ bs) (s ∷ srcs) =
    let rest = kept_backends keys bs srcs in
    if is_passthrough keys s then rest else (b ∷ rest.0, s ∷ rest.1)

abbrev pub keep_stripped :
    HttpRouteRule
    → List BackendRef × List BackendSource
    → List HttpRouteRule × List (List BackendSource)
    → List HttpRouteRule × List (List BackendSource)
keep_stripped rule ([], srcs) rest = rest
keep_stripped rule (b ∷ bs, srcs) (rules, sources) =
    (record rule { backend_refs = b ∷ bs } ∷ rules, srcs ∷ sources)

abbrev pub rest_of : List (List BackendSource) → List (List BackendSource)
rest_of [] = []
rest_of (srcs ∷ sources) = sources

abbrev pub first_of : List (List BackendSource) → List BackendSource
first_of [] = []
first_of (srcs ∷ sources) = srcs

unfoldable pub strip_rules :
    List NamespacedName
    → List HttpRouteRule
    → List (List BackendSource)
    → List HttpRouteRule × List (List BackendSource)
strip_rules keys [] sources = ([], [])
strip_rules keys (rule ∷ rules) sources =
    keep_stripped rule (kept_backends keys rule.backend_refs (first_of sources))
      (strip_rules keys rules (rest_of sources))

-- `stripPassthroughRules`
unfoldable pub strip_passthrough_rules : List NamespacedName → HttpRouteContext → HttpRouteContext
unfolding strip_rules
strip_passthrough_rules keys c =
    let kept = strip_rules keys c.route.rules c.rule_backend_sources in
    record { route = record c.route { rules = kept.0 }; rule_backend_sources = kept.1 }

-- The backends of a rule that `buildTLSRoute` looks at: all but those whose source has an Ingress
-- without passthrough.
abbrev pub is_tls_backend : List NamespacedName → BackendSource → Bool
is_tls_backend keys src = elim src.ingress [
  | none ↦ true
  | some ing ↦ contains (ingress_key ing) keys
]

abbrev pub tls_backends :
    List NamespacedName → List BackendRef → List BackendSource → List BackendRef
tls_backends keys [] srcs = []
tls_backends keys (b ∷ bs) [] = b ∷ bs
tls_backends keys (b ∷ bs) (s ∷ srcs) =
    let rest = tls_backends keys bs srcs in if is_tls_backend keys s then b ∷ rest else rest

unfoldable pub all_tls_backends :
    List NamespacedName → List HttpRouteRule → List (List BackendSource) → List BackendRef
all_tls_backends keys [] sources = []
all_tls_backends keys (rule ∷ rules) sources =
    tls_backends keys rule.backend_refs (first_of sources)
    ++ all_tls_backends keys rules (rest_of sources)

abbrev pub same_backend : String → ℕ → List (String × ℕ) → Bool
same_backend name port [] = false
same_backend name port ((n, p) ∷ seen) = ((name == n) && (port == p)) || same_backend name port seen

-- The backends that were not seen before: one without a port panics.
unfoldable pub unique_backends : List (String × ℕ) → List BackendRef → Go (List BackendRef)
unique_backends seen [] = done []
unique_backends seen (b ∷ bs) = elim b.port [
  | none ↦ panic
  | some port ↦
      let known = same_backend b.name port seen in
      unique_backends (if known then seen else (b.name, port) ∷ seen) bs >>= λ rest.
      done (if known then rest else b ∷ rest)
]

abbrev pub tls_section : List String → Option String
tls_section [] = none
tls_section (h ∷ hs) = some (name_from_host h +++ "-tls-passthrough")

abbrev pub tls_parent_ref : List String → ParentRef → ParentRef
tls_parent_ref hostnames p = record {
  group = p.group;
  namespace = p.namespace;
  name = p.name;
  section_name = tls_section hostnames;
  port = none;
}

abbrev pub one_rule : List BackendRef → List (List BackendRef)
one_rule [] = []
one_rule (b ∷ bs) = (b ∷ bs) ∷ []

-- `buildTLSRoute`
unfoldable pub build_tls_route : List NamespacedName → HttpRouteContext → Go TlsRoute
unfolding all_tls_backends unique_backends
build_tls_route keys c =
    unique_backends [] (all_tls_backends keys c.route.rules c.rule_backend_sources) >>= λ refs.
    done (record {
      namespace = c.route.namespace;
      name = c.route.name +++ "-tls-passthrough";
      parent_refs = map (tls_parent_ref c.route.hostnames) c.route.parent_refs;
      hostnames = c.route.hostnames;
      rules = one_rule refs;
    })

abbrev pub has_listener : String → List Listener → Bool
has_listener name [] = false
has_listener name (l ∷ ls) = (l.name == name) || has_listener name ls

abbrev pub passthrough_listener : String → String → Listener
passthrough_listener name h = record {
  name = name;
  hostname = some h;
  port = 443;
  protocol = "TLS";
  tls = some [];
  mode = some "Passthrough";
}

-- The loop over the hostnames.
unfoldable pub passthrough_listeners : List String → List Listener → List Listener
passthrough_listeners [] ls = ls
passthrough_listeners (h ∷ hs) ls =
    let name = name_from_host h +++ "-tls-passthrough" in
    passthrough_listeners hs
      (if has_listener name ls then ls else ls ++ passthrough_listener name h ∷ [])

abbrev pub passthrough_gateway : List String → GatewayContext → GatewayContext
passthrough_gateway hostnames g = record g {
  gateway = record g.gateway { listeners = passthrough_listeners hostnames g.gateway.listeners };
}

abbrev pub parent_key : String → ParentRef → NamespacedName
parent_key namespace p = record {
  namespace = elim p.namespace [ none ↦ namespace | some n ↦ n ];
  name = p.name;
}

-- `addPassthroughListeners`: the loop over the parent references.
unfoldable pub add_passthrough_listeners :
    HttpRoute
    → List ParentRef
    → Dict NamespacedName GatewayContext
    → Dict NamespacedName GatewayContext
unfolding passthrough_listeners
add_passthrough_listeners route [] gateways = gateways
add_passthrough_listeners route (p ∷ ps) gateways =
    let key = parent_key route.namespace p in
    add_passthrough_listeners route ps (elim (lookup key gateways) [
      | none ↦ gateways
      | some g ↦ insert key (passthrough_gateway route.hostnames g) gateways
    ])

-- What an HTTPRoute with passthrough adds to the IR.
abbrev pub with_tls_route : HttpRoute → TlsRoute → ProviderIr → ProviderIr
with_tls_route route t ir = record ir {
  tls_routes = insert (record { namespace = t.namespace; name = t.name }) t ir.tls_routes;
  gateways = add_passthrough_listeners route route.parent_refs ir.gateways;
}

abbrev pub replaced_by : List NamespacedName → HttpRouteContext → ProviderIr → Bool → Go ProviderIr
replaced_by keys c ir false = done ir
replaced_by keys c ir true = build_tls_route keys c >>= λ t. done (with_tls_route c.route t ir)

-- The loop over the HTTPRoutes, which leaves those that have other sources too.
unfoldable pub passthrough_routes :
    List NamespacedName
    → Dict NamespacedName HttpRouteContext
    → ProviderIr
    → Go (Dict NamespacedName HttpRouteContext × ProviderIr)
unfolding build_tls_route add_passthrough_listeners strip_passthrough_rules
passthrough_routes keys [] ir = done ([], ir)
passthrough_routes keys ((key, c) ∷ routes) ir =
    let passes = some_rule (has_passthrough keys) c.rule_backend_sources in
    replaced_by keys c ir passes >>= λ ir'. passthrough_routes keys routes ir' >>= λ y. done (
      if passes
          then (if some_rule (has_non_passthrough keys) c.rule_backend_sources
              then (key, strip_passthrough_rules keys c) ∷ y.0
              else y.0)
          else (key, c) ∷ y.0,
      y.1,
    )

-- `sslPassthroughFeature`
unfoldable pub ssl_passthrough_feature : List Ingress → ProviderIr → Go ProviderIr
unfolding passthrough_ingresses passthrough_routes
ssl_passthrough_feature ingresses ir = elim (passthrough_ingresses ingresses) [
  | [] ↦ done ir
  | k ∷ keys ↦ passthrough_routes (k ∷ keys) ir.http_routes ir >>= λ y.
      done (record y.1 { http_routes = y.0 })
]
