-- ===== src/ProviderIr/Conversion.antt =====
-- pkg/i2gw/provider_intermediate/conversion.go: from the IR of a provider to the IR of an emitter.
use ingress2gateway.Base.{◌≡◌, ◌↔◌, refl, ap, ◌∙◌, Option, some, none, [], eq_of_some-eq}
use ingress2gateway.Base.Dict.{Dict, lookup}
use ingress2gateway.Base.Copies.{and_then, copy_some, IsMap, lookup-copied}
use ingress2gateway.Api.Ingress.{NamespacedName, namespaced_name_comparable}
use ingress2gateway.EmitterIr as Emitter
use ingress2gateway.EmitterIr.Gce
use ingress2gateway.ProviderIr.{
  ProviderIr, GatewayContext, HttpRouteContext, GrpcRouteContext, ServiceIr,
}

abbrev pub emitter_gateway : GatewayContext → Emitter.GatewayContext
emitter_gateway c = record { gateway = c.gateway; gce = c.gce }

-- The features by rule index stay empty maps.
abbrev pub emitter_http_route : HttpRouteContext → Emitter.HttpRouteContext
emitter_http_route c = record {
  route = c.route;
  tcp_timeouts_by_rule_idx = [];
  path_rewrite_by_rule_idx = [];
  body_size_by_rule_idx = [];
  cors_policy_by_rule_idx = [];
  ip_range_control_by_rule_idx = [];
}

abbrev pub emitter_service : ServiceIr → Emitter.ServiceContext
emitter_service s = record { session_affinity = s.session_affinity }

-- A nil map has no entries.
abbrev pub services_of : ProviderIr → Dict NamespacedName ServiceIr
services_of ir = elim ir.services [ none ↦ [] | some m ↦ m ]

-- `ToEmitterIR`
unfoldable pub to_emitter_ir : ProviderIr → Emitter.EmitterIr
to_emitter_ir ir = record {
  gateways = copy_some (λ c. some (emitter_gateway c)) [] ir.gateways;
  http_routes = copy_some (λ c. some (emitter_http_route c)) [] ir.http_routes;
  gateway_classes = copy_some some [] ir.gateway_classes;
  tls_routes = copy_some some [] ir.tls_routes;
  tcp_routes = copy_some some [] ir.tcp_routes;
  udp_routes = copy_some some [] ir.udp_routes;
  grpc_routes = copy_some (λ (c : GrpcRouteContext). some c.route) [] ir.grpc_routes;
  backend_tls_policies = copy_some some [] ir.backend_tls_policies;
  reference_grants = copy_some some [] ir.reference_grants;
  services = copy_some (λ s. some (emitter_service s)) [] (services_of ir);
  gce_services = copy_some (λ (s : ServiceIr). s.gce) [] (services_of ir);
}

-- A value is found where one was found before, and the two are in a relation.
abbrev pub Found : {A B : Type 0} → (A → B → Type 0) → Option A → Option B → Type 0
Found R none new = new ≡ none
Found {B = B} R (some a) new = (b : B) × (new ≡ some b) × R a b

abbrev pub IsSameGateway : GatewayContext → Emitter.GatewayContext → Type 0
IsSameGateway c e = (e.gateway ≡ c.gateway) × (e.gce ≡ c.gce)

abbrev pub IsBareRoute : HttpRouteContext → Emitter.HttpRouteContext → Type 0
IsBareRoute c e =
    (e.route ≡ c.route)
    × (e.tcp_timeouts_by_rule_idx ≡ [])
    × (e.path_rewrite_by_rule_idx ≡ [])
    × (e.body_size_by_rule_idx ≡ [])
    × (e.cors_policy_by_rule_idx ≡ [])
    × (e.ip_range_control_by_rule_idx ≡ [])

abbrev pub IsSameService : ServiceIr → Emitter.ServiceContext → Type 0
IsSameService s e = e.session_affinity ≡ s.session_affinity

-- Every map has one entry to a key.
abbrev pub IsMaps : ProviderIr → Type 0
IsMaps ir =
    IsMap ir.gateways
    × IsMap ir.http_routes
    × IsMap ir.grpc_routes
    × IsMap (services_of ir)
    × IsMap ir.gateway_classes
    × IsMap ir.tls_routes
    × IsMap ir.tcp_routes
    × IsMap ir.udp_routes
    × IsMap ir.backend_tls_policies
    × IsMap ir.reference_grants

found_copy :
    {A B : Type 0} (R : A → B → Type 0) (f : A → B) (o : Option A)
    → ((a : A) → R a (f a))
    → Found R o (and_then (λ a. some (f a)) o)
found_copy R f none h = refl
found_copy R f (some a) h = (f a, refl, h a)

copied :
    {A B : Type 0} (R : A → B → Type 0) (f : A → B) (k : NamespacedName) (m : Dict NamespacedName A)
    → IsMap m
    → ((a : A) → R a (f a))
    → Found R (lookup k m) (lookup k (copy_some (λ a. some (f a)) [] m))
copied R f k m h each =
    rw (lookup-copied (λ a. some (f a)) k m h) (found_copy R f (lookup k m) each)

same_copy :
    {A : Type 0} (k : NamespacedName) (m : Dict NamespacedName A)
    → IsMap m
    → lookup k (copy_some some [] m) ≡ lookup k m
same_copy k m h = lookup-copied some k m h ∙ and_then-some (lookup k m)
  where
    and_then-some : {A : Type 0} (o : Option A) → and_then some o ≡ o
    and_then-some none = refl
    and_then-some (some a) = refl

gce_found :
    (g : Gce.ServiceIr) (o : Option ServiceIr)
    → (and_then (λ (s : ServiceIr). s.gce) o ≡ some g)
      ↔ ((s : ServiceIr) × (o ≡ some s) × (s.gce ≡ some g))
gce_found g none = (λ e. cc, λ (s, e, h). cc)
gce_found g (some t) =
    (λ e. (t, refl, e), λ (s, e, h). ap (λ (s : ServiceIr). s.gce) (eq_of_some-eq e) ∙ h)

-- `ToEmitterIR` of an IR whose maps have one entry to a key finds at a key what the IR has there,
-- and nothing else: a Gateway with the same Gateway and the same GCE extension; an HTTPRoute with
-- the same route and no feature by rule index; a GRPCRoute with the same route; a Service with the
-- same session affinity; and the same GatewayClass, TLSRoute, TCPRoute, UDPRoute, BackendTLSPolicy
-- and ReferenceGrant. A GCE Service is found exactly where a Service of the IR has it.
pub to_emitter_ir-lookup :
    (ir : ProviderIr) (k : NamespacedName)
    → IsMaps ir
    → Found IsSameGateway (lookup k ir.gateways) (lookup k (to_emitter_ir ir).gateways)
      × Found IsBareRoute (lookup k ir.http_routes) (lookup k (to_emitter_ir ir).http_routes)
      × Found
          (λ (c : GrpcRouteContext) r. r ≡ c.route)
          (lookup k ir.grpc_routes)
          (lookup k (to_emitter_ir ir).grpc_routes)
      × Found IsSameService (lookup k (services_of ir)) (lookup k (to_emitter_ir ir).services)
      × ((g : Gce.ServiceIr)
          → (lookup k (to_emitter_ir ir).gce_services ≡ some g)
            ↔ ((s : ServiceIr) × (lookup k (services_of ir) ≡ some s) × (s.gce ≡ some g)))
      × (lookup k (to_emitter_ir ir).gateway_classes ≡ lookup k ir.gateway_classes)
      × (lookup k (to_emitter_ir ir).tls_routes ≡ lookup k ir.tls_routes)
      × (lookup k (to_emitter_ir ir).tcp_routes ≡ lookup k ir.tcp_routes)
      × (lookup k (to_emitter_ir ir).udp_routes ≡ lookup k ir.udp_routes)
      × (lookup k (to_emitter_ir ir).backend_tls_policies ≡ lookup k ir.backend_tls_policies)
      × (lookup k (to_emitter_ir ir).reference_grants ≡ lookup k ir.reference_grants)
unfolding to_emitter_ir
to_emitter_ir-lookup ir k (hg, hh, hr, hs, h1, h2, h3, h4, h5, h6) = (
  copied IsSameGateway emitter_gateway k ir.gateways hg (λ c. (refl, refl)),
  copied IsBareRoute emitter_http_route k ir.http_routes hh
      (λ c. (refl, refl, refl, refl, refl, refl)),
  copied (λ (c : GrpcRouteContext) r. r ≡ c.route) (λ c. c.route) k ir.grpc_routes hr (λ c. refl),
  copied IsSameService emitter_service k (services_of ir) hs (λ s. refl),
  λ g.
      rw (lookup-copied (λ (s : ServiceIr). s.gce) k (services_of ir) hs)
        (gce_found g (lookup k (services_of ir))),
  same_copy k ir.gateway_classes h1,
  same_copy k ir.tls_routes h2,
  same_copy k ir.tcp_routes h3,
  same_copy k ir.udp_routes h4,
  same_copy k ir.backend_tls_policies h5,
  same_copy k ir.reference_grants h6,
)
