-- ===== src/ProviderIr.antt =====
-- pkg/i2gw/provider_intermediate: what the providers produce.
pub mod Merge
pub mod Conversion
use ingress2gateway.Base.{Option, none, List, [], ◌∷◌, String}
use ingress2gateway.Base.Dict.{Dict}
use ingress2gateway.Api.Ingress.{NamespacedName, Ingress, HttpIngressPath, IngressBackend}
use ingress2gateway.Api.Gateway.{Gateway, HttpRoute, GrpcRoute, TlsRoute, BackendTlsPolicy}
use ingress2gateway.EmitterIr.{Object, SessionAffinity}
use ingress2gateway.EmitterIr.Gce

-- Which Ingress, and which of its paths or default backend, a backend reference comes from.
pub record BackendSource : Type 0 where
  pub ingress : Option Ingress
  pub path : Option HttpIngressPath
  pub default_backend : Option IngressBackend

-- `ProviderSpecificIR` of a Gateway is its only field, `Gce`.
pub record GatewayContext : Type 0 where
  pub gateway : Gateway
  pub gce : Option Gce.GatewayIr

pub record HttpRouteContext : Type 0 where
  pub route : HttpRoute
  pub rule_backend_sources : List (List BackendSource)

pub record GrpcRouteContext : Type 0 where
  pub route : GrpcRoute
  pub rule_backend_sources : List (List BackendSource)

-- `ProviderSpecificServiceIR`
pub record ServiceIr : Type 0 where
  pub session_affinity : Option SessionAffinity
  pub gce : Option Gce.ServiceIr

-- `services` is absent where the map is nil.
pub record ProviderIr : Type 0 where
  pub gateways : Dict NamespacedName GatewayContext
  pub http_routes : Dict NamespacedName HttpRouteContext
  pub services : Option (Dict NamespacedName ServiceIr)
  pub gateway_classes : Dict NamespacedName Object
  pub tls_routes : Dict NamespacedName TlsRoute
  pub tcp_routes : Dict NamespacedName Object
  pub udp_routes : Dict NamespacedName Object
  pub grpc_routes : Dict NamespacedName GrpcRouteContext
  pub backend_tls_policies : Dict NamespacedName BackendTlsPolicy
  pub reference_grants : Dict NamespacedName Object

-- `ProviderIR{}`
abbrev pub empty_ir : ProviderIr
empty_ir = record {
  gateways = [];
  http_routes = [];
  services = none;
  gateway_classes = [];
  tls_routes = [];
  tcp_routes = [];
  udp_routes = [];
  grpc_routes = [];
  backend_tls_policies = [];
  reference_grants = [];
}
