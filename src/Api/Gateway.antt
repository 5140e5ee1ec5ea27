-- ===== src/Api/Gateway.antt =====
-- sigs.k8s.io/gateway-api/apis/v1. `HTTPBackendRef` and `GRPCBackendRef` add only filters to
-- `BackendRef`, which the modelled code leaves empty, so one record stands for the three.
use Prim.Native.Nat.{ℕ}
use Prim.Native.String.{String}
use mathlib.Core.Bool.{Bool}
use mathlib.Core.Option.{Option}
use mathlib.Core.List.{List}
use ingress2gateway.Base.Int.{ℤ}

pub record BackendRef : Type 0 where
  pub group : Option String
  pub kind : Option String
  pub name : String
  pub port : Option ℕ
  pub weight : Option ℤ

pub record HttpPathMatch : Type 0 where
  pub type : Option String
  pub value : Option String

pub record HttpHeader : Type 0 where
  pub name : String
  pub value : String

pub record HttpRouteMatch : Type 0 where
  pub path : Option HttpPathMatch
  pub headers : List HttpHeader

-- `HTTPHeaderFilter`
pub record HeaderFilter : Type 0 where
  pub set_headers : List HttpHeader
  pub add_headers : List HttpHeader
  pub remove_headers : List String

-- `HTTPRequestRedirectFilter`; `path` is the full path that replaces the request's.
pub record RequestRedirect : Type 0 where
  pub scheme : Option String
  pub hostname : Option String
  pub port : Option ℤ
  pub path : Option String
  pub status_code : Option ℤ

-- `HTTPCORSFilter`
pub record CorsFilter : Type 0 where
  pub allow_origins : List String
  pub allow_methods : List String
  pub allow_headers : List String
  pub expose_headers : List String
  pub allow_credentials : Option Bool
  pub max_age : ℤ

-- `url_rewrite` is the full path that replaces the request's. The payloads that the modelled code
-- does not look into (mirror, extension, ...) are left out.
pub record HttpRouteFilter : Type 0 where
  pub type : String
  pub request_header_modifier : Option HeaderFilter
  pub response_header_modifier : Option HeaderFilter
  pub request_redirect : Option RequestRedirect
  pub url_rewrite : Option String
  pub cors : Option CorsFilter

pub record GrpcRouteFilter : Type 0 where
  pub type : String
  pub request_header_modifier : Option HeaderFilter
  pub response_header_modifier : Option HeaderFilter

pub record HttpRouteRule : Type 0 where
  pub name : Option String
  pub matches : List HttpRouteMatch
  pub filters : List HttpRouteFilter
  pub backend_refs : List BackendRef
  pub request_timeout : Option String

-- `ParentReference`
pub record ParentRef : Type 0 where
  pub group : Option String
  pub namespace : Option String
  pub name : String
  pub section_name : Option String
  pub port : Option ℕ

pub record HttpRoute : Type 0 where
  pub namespace : String
  pub name : String
  pub parent_refs : List ParentRef
  pub hostnames : List String
  pub rules : List HttpRouteRule

pub record GrpcMethodMatch : Type 0 where
  pub service : Option String
  pub method : Option String

pub record GrpcRouteMatch : Type 0 where
  pub method : Option GrpcMethodMatch

pub record GrpcRouteRule : Type 0 where
  pub matches : List GrpcRouteMatch
  pub backend_refs : List BackendRef

pub record GrpcRoute : Type 0 where
  pub namespace : String
  pub name : String
  pub parent_refs : List ParentRef
  pub hostnames : List String
  pub rules : List GrpcRouteRule

-- A rule of a TLSRoute is its backends.
pub record TlsRoute : Type 0 where
  pub namespace : String
  pub name : String
  pub parent_refs : List ParentRef
  pub hostnames : List String
  pub rules : List (List BackendRef)

-- `LocalObjectReference`
pub record LocalRef : Type 0 where
  pub group : String
  pub kind : String
  pub name : String

-- A BackendTLSPolicy: its target is a Service of the core group.
pub record BackendTlsPolicy : Type 0 where
  pub namespace : String
  pub name : String
  pub service : String
  pub hostname : String
  pub ca_refs : List LocalRef

-- `SecretObjectReference`
pub record SecretRef : Type 0 where
  pub group : Option String
  pub kind : Option String
  pub name : String

-- `tls` is `ListenerTLSConfig.CertificateRefs`, absent where the configuration is nil, and `mode`
-- its `Mode`.
pub record Listener : Type 0 where
  pub name : String
  pub hostname : Option String
  pub port : ℕ
  pub protocol : String
  pub tls : Option (List SecretRef)
  pub mode : Option String

pub record Gateway : Type 0 where
  pub namespace : String
  pub name : String
  pub class_name : String
  pub listeners : List Listener
  pub addresses : List String
