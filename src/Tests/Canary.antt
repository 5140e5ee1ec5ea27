-- ===== src/Tests/Canary.antt =====
-- The theorems of `ProviderIr` and `Ingressnginx` at two Ingresses of one path, one a canary.
use ingress2gateway.Base.{
  ◌≡◌, ◌↔◌, refl, true, false, none, some, List, [], ◌∷◌, String, string_comparable, done, panic,
  Returns, all,
}
use ingress2gateway.Base.Dict.{lookup}
use ingress2gateway.EmitterIr.Gce
use ingress2gateway.Base.ParseInt.{parse_int, parse_int_at, parse_uint, scan_digits}
use ingress2gateway.Api.Ingress.{Ingress, NamespacedName, namespaced_name_comparable}
use ingress2gateway.Api.Gateway.{Listener, BackendRef, HttpRouteRule}
use ingress2gateway.ProviderIr.{
  ProviderIr, GatewayContext, GrpcRouteContext, ServiceIr, BackendSource, empty_ir,
}
use ingress2gateway.ProviderIr.Conversion.{
  Found, IsSameGateway, IsBareRoute, IsSameService, services_of, to_emitter_ir,
  to_emitter_ir-lookup,
}
use ingress2gateway.ProviderIr.Merge.{merge_gateway_contexts, merge_if_sound, copy_irs, merge_irs}
use ingress2gateway.ProviderIr.Merge.Laws.{
  listeners_of, listeners_named, merge_gateway_contexts-listeners, IsMerged, merge_irs-IsMerged,
  has_no_services, merge_irs_panics_iff,
}
use ingress2gateway.Ingressnginx.Canary.{
  set_weight_of, set_total_of, cap_weight, parse_canary_config,
}
use ingress2gateway.Ingressnginx.Annotations.{
  canary_annotation, canary_weight_annotation, canary_weight_total_annotation, canary_by_header,
}
use ingress2gateway.Ingressnginx.Canary.Bounds.{IsShare, parse_canary_config-IsShare}
use ingress2gateway.Ingressnginx.Canary.Backends.{see_source, see_sources, info_of, get_canary_info}
use ingress2gateway.Ingressnginx.Canary.Laws.{IsSourceAt, IsSplit, get_canary_info-IsSplit}
use ingress2gateway.Ingressnginx.Canary.Rules.{change_rules}
use ingress2gateway.Ingressnginx.Canary.Total.{change_rules-Returns}
use ingress2gateway.Tests.Data.{shop, service_backend, path_to}

abbrev canary : Ingress
canary = record shop {
  annotations =
      (canary_annotation, "true")
      ∷ (canary_by_header, "X-Canary")
      ∷ (canary_weight_annotation, "30")
      ∷ (canary_weight_total_annotation, "20")
      ∷ [];
}

parse_canary_config_example :
    IsShare (parse_canary_config canary).0.weight (parse_canary_config canary).0.weight_total
parse_canary_config_example = parse_canary_config-IsShare canary

abbrev source_of : Ingress → BackendSource
source_of ingress = record {
  ingress = some ingress;
  path = some (path_to "/" (service_backend "cart" "" 80));
  default_backend = none;
}

abbrev two_sources : List BackendSource
two_sources = source_of shop ∷ source_of canary ∷ []

get_canary_info_example :
    IsSourceAt two_sources true 1
    × IsSourceAt two_sources false 0
    × IsSplit (get_canary_info two_sources "httproute" "r" 0)
unfolding get_canary_info see_sources see_source info_of parse_canary_config set_weight_of
    set_total_of cap_weight parse_int parse_int_at parse_uint scan_digits
get_canary_info_example = get_canary_info-IsSplit two_sources "httproute" "r" 0 1 0 refl

abbrev backend : String → BackendRef
backend name = record { group = none; kind = none; name = name; port = some 80; weight = none }

abbrev two_backends : HttpRouteRule
two_backends = record {
  name = none;
  matches = [];
  filters = [];
  backend_refs = backend "cart" ∷ backend "cart2" ∷ [];
  request_timeout = none;
}

change_rules_example : Returns (change_rules "r" 0 (two_backends ∷ []) (two_sources ∷ []))
change_rules_example = change_rules-Returns "r" 0 (two_backends ∷ []) (two_sources ∷ []) (refl, tt)

abbrev listener : String → Listener
listener name = record {
  name = name;
  hostname = none;
  port = 80;
  protocol = "HTTP";
  tls = none;
  mode = none;
}

abbrev gateway_name : NamespacedName
gateway_name = record { namespace = "store"; name = "nginx" }

abbrev context_with : String → GatewayContext
context_with name = record {
  gateway = record {
    namespace = "store";
    name = "nginx";
    class_name = "nginx";
    listeners = listener name ∷ [];
    addresses = "10.0.0.1" ∷ [];
  };
  gce = none;
}

abbrev ir_with : String → ProviderIr
ir_with name = record empty_ir { gateways = (gateway_name, context_with name) ∷ [] }

abbrev two_irs : List ProviderIr
two_irs = ir_with "a" ∷ ir_with "b" ∷ []

merge_gateway_contexts_example :
    listeners_of (lookup gateway_name (merge_gateway_contexts two_irs).0)
    ≡ listeners_named gateway_name two_irs
merge_gateway_contexts_example = merge_gateway_contexts-listeners two_irs gateway_name

abbrev merged_ir : ProviderIr
merged_ir = elim (merge_irs two_irs) [ done r ↦ r.0 | panic ↦ empty_ir ]

abbrev merged_context : GatewayContext
merged_context = elim (lookup gateway_name merged_ir.gateways) [
  | none ↦ context_with ""
  | some c ↦ c
]

merge_irs_example : IsMerged gateway_name merged_context
unfolding merge_irs merge_if_sound copy_irs merge_gateway_contexts
merge_irs_example = merge_irs-IsMerged two_irs merged_ir gateway_name merged_context refl refl

abbrev with_service : ProviderIr
with_service = record (ir_with "a") {
  services = some ((gateway_name, record { session_affinity = none; gce = none }) ∷ []);
}

merge_irs_panics_example : (merge_irs (with_service ∷ []) ≡ panic) ↔ (
    ((merge_gateway_contexts (with_service ∷ [])).1 ≡ [])
    × (all has_no_services (with_service ∷ []) ≡ false))
merge_irs_panics_example = merge_irs_panics_iff (with_service ∷ [])

to_emitter_ir_example :
    Found IsSameGateway
      (lookup gateway_name with_service.gateways)
      (lookup gateway_name (to_emitter_ir with_service).gateways)
    × Found IsBareRoute
        (lookup gateway_name with_service.http_routes)
        (lookup gateway_name (to_emitter_ir with_service).http_routes)
    × Found
        (λ (c : GrpcRouteContext) r. r ≡ c.route)
        (lookup gateway_name with_service.grpc_routes)
        (lookup gateway_name (to_emitter_ir with_service).grpc_routes)
    × Found IsSameService
        (lookup gateway_name (services_of with_service))
        (lookup gateway_name (to_emitter_ir with_service).services)
    × ((g : Gce.ServiceIr)
        → (lookup gateway_name (to_emitter_ir with_service).gce_services ≡ some g) ↔ (
            (s : ServiceIr) × (lookup gateway_name (services_of with_service) ≡ some s)
            × (s.gce ≡ some g)))
    × (lookup gateway_name (to_emitter_ir with_service).gateway_classes
        ≡ lookup gateway_name with_service.gateway_classes)
    × (lookup gateway_name (to_emitter_ir with_service).tls_routes
        ≡ lookup gateway_name with_service.tls_routes)
    × (lookup gateway_name (to_emitter_ir with_service).tcp_routes
        ≡ lookup gateway_name with_service.tcp_routes)
    × (lookup gateway_name (to_emitter_ir with_service).udp_routes
        ≡ lookup gateway_name with_service.udp_routes)
    × (lookup gateway_name (to_emitter_ir with_service).backend_tls_policies
        ≡ lookup gateway_name with_service.backend_tls_policies)
    × (lookup gateway_name (to_emitter_ir with_service).reference_grants
        ≡ lookup gateway_name with_service.reference_grants)
to_emitter_ir_example =
    to_emitter_ir-lookup with_service gateway_name
      ((refl, tt), tt, tt, (refl, tt), tt, tt, tt, tt, tt, tt)
