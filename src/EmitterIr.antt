-- ===== src/EmitterIr.antt =====
-- pkg/i2gw/emitter_intermediate: what the emitters receive. Gateway API objects that the modelled
-- code only moves from map to map (GatewayClass, TCPRoute, UDPRoute, ReferenceGrant) are opaque: an `Object` is such an object as text.
pub mod Gce
use ingress2gateway.Base.{ℕ, Bool, Option, none, some, List, [], ◌∷◌, ◌++◌, String}
use ingress2gateway.Base.Int.{ℤ}
use ingress2gateway.Base.Dict.{Dict}
use ingress2gateway.Api.Field.{FieldPath}
use ingress2gateway.Api.Ingress.{NamespacedName}
use ingress2gateway.Api.Gateway.{
  Gateway, HttpRoute, GrpcRoute, TlsRoute, BackendTlsPolicy, CorsFilter,
}

abbrev pub Object : Type 0
Object = String

-- `ExtensionFeatureMetadata`
pub record Metadata : Type 0 where
  pub source : String
  pub paths : List FieldPath
  pub failure_message : String

pub record SessionAffinity : Type 0 where
  pub metadata : Metadata
  pub type : String
  pub cookie_ttl_sec : Option ℤ

pub record ServiceContext : Type 0 where
  pub session_affinity : Option SessionAffinity

-- `TCPTimeouts`
pub record TcpTimeouts : Type 0 where
  pub connect : Option String
  pub read : Option String
  pub write : Option String

pub record PathRewrite : Type 0 where
  pub metadata : Metadata
  pub replace_full_path : String
  pub headers : Dict String String
  pub regex_capture_group_references : Bool

-- A quantity is its text.
pub record BodySize : Type 0 where
  pub metadata : Metadata
  pub buffer_size : Option String
  pub max_size : Option String

pub record IpRangeControl : Type 0 where
  pub metadata : Metadata
  pub allow_list : List String
  pub deny_list : List String

pub record GatewayContext : Type 0 where
  pub gateway : Gateway
  pub gce : Option Gce.GatewayIr

-- A map by rule index has `none` for a nil pointer.
pub record HttpRouteContext : Type 0 where
  pub route : HttpRoute
  pub tcp_timeouts_by_rule_idx : Dict ℤ (Option TcpTimeouts)
  pub path_rewrite_by_rule_idx : Dict ℤ (Option PathRewrite)
  pub body_size_by_rule_idx : Dict ℤ (Option BodySize)
  pub cors_policy_by_rule_idx : Dict ℤ (Option CorsFilter)
  pub ip_range_control_by_rule_idx : Dict ℤ (Option IpRangeControl)

pub record EmitterIr : Type 0 where
  pub gateways : Dict NamespacedName GatewayContext
  pub http_routes : Dict NamespacedName HttpRouteContext
  pub gateway_classes : Dict NamespacedName Object
  pub tls_routes : Dict NamespacedName TlsRoute
  pub tcp_routes : Dict NamespacedName Object
  pub udp_routes : Dict NamespacedName Object
  pub grpc_routes : Dict NamespacedName GrpcRoute
  pub backend_tls_policies : Dict NamespacedName BackendTlsPolicy
  pub reference_grants : Dict NamespacedName Object
  pub services : Dict NamespacedName ServiceContext
  pub gce_services : Dict NamespacedName Gce.ServiceIr
