-- ===== src/Emitters/Resources.antt =====
-- pkg/i2gw/emitters/utils/utils.go: Gateway resources from the emitter IR, without duplicate backends.
pub mod Unique
pub mod Weights
use ingress2gateway.Base.{
  ℕ, ◌≡◌, ◌↔◌, Bool, true, ◌&&◌, Option, none, some, List, [], ◌∷◌, map, arith, String, ◌==◌,
  string_comparable, if◌then◌else◌, eqb, eqb_iff, Comparable,
}
use text.Mathlib.TextEquality.{eq_iff}
use ingress2gateway.Base.Dict.{Dict, lookup, insert}
use ingress2gateway.Base.Int.{ℤ, ◌+ℤ◌}
use ingress2gateway.Base.ParseInt.{int32}
use ingress2gateway.Base.Copies.{copy_some}
use ingress2gateway.Api.Ingress.{NamespacedName, namespaced_name_comparable}
use ingress2gateway.Api.Gateway.{
  BackendRef, HttpRouteRule, HttpRoute, GrpcRoute, Gateway, TlsRoute, BackendTlsPolicy,
}
use ingress2gateway.EmitterIr.{EmitterIr, Object, GatewayContext, HttpRouteContext}

-- `uniqueBackendRefsKey`, without the namespace, which is never set.
pub record RefKey : Type 0 where
  pub name : String
  pub port : ℕ
  pub group : String
  pub kind : String

abbrev pub same_ref : RefKey → RefKey → Bool
same_ref j k =
    (j.name == k.name) && (eqb j.port k.port && ((j.group == k.group) && (j.kind == k.kind)))

pub same_ref_iff : (j k : RefKey) → (same_ref j k ≡ true) ↔ (j ≡ k)
same_ref_iff j k = ground (
  arith,
  eq_iff j.name k.name,
  eqb_iff j.port k.port,
  eq_iff j.group k.group,
  eq_iff j.kind k.kind,
)

instance abbrev pub ref_key_comparable : Comparable RefKey
ref_key_comparable = record { same = same_ref; same_iff = same_ref_iff }

abbrev pub group_text : Option String → String
group_text none = ""
group_text (some g) = if g == "core" then "" else g

abbrev pub kind_text : Option String → String
kind_text none = "Service"
kind_text (some k) = k

abbrev pub port_or_zero : Option ℕ → ℕ
port_or_zero none = 0
port_or_zero (some n) = n

unfoldable pub ref_key : BackendRef → RefKey
ref_key r = record {
  name = r.name;
  port = port_or_zero r.port;
  group = group_text r.group;
  kind = kind_text r.kind;
}

-- Weights are added where both are set.
abbrev pub add_weights : Option ℤ → Option ℤ → Option ℤ
add_weights none w = none
add_weights (some v) none = some v
add_weights (some v) (some w) = some (int32 (v +ℤ w))

abbrev pub merged_ref : BackendRef → Option BackendRef → BackendRef
merged_ref r none = r
merged_ref r (some old) = record old { weight = add_weights old.weight r.weight }

abbrev pub add_ref : Dict RefKey BackendRef → BackendRef → Dict RefKey BackendRef
add_ref m r = insert (ref_key r) (merged_ref r (lookup (ref_key r) m)) m

abbrev pub add_refs : Dict RefKey BackendRef → List BackendRef → Dict RefKey BackendRef
add_refs m [] = m
add_refs m (r ∷ refs) = add_refs (add_ref m r) refs

-- `removeBackendRefsDuplicates`
unfoldable pub remove_backend_refs_duplicates : List BackendRef → List BackendRef
remove_backend_refs_duplicates refs = map (λ (e : RefKey × BackendRef). e.1) (add_refs [] refs)

-- `i2gw.GatewayResources`, of which this code leaves the extensions of an emitter empty.
pub record GatewayResources : Type 0 where
  pub gateways : Dict NamespacedName Gateway
  pub gateway_classes : Dict NamespacedName Object
  pub http_routes : Dict NamespacedName HttpRoute
  pub grpc_routes : Dict NamespacedName GrpcRoute
  pub tls_routes : Dict NamespacedName TlsRoute
  pub tcp_routes : Dict NamespacedName Object
  pub udp_routes : Dict NamespacedName Object
  pub backend_tls_policies : Dict NamespacedName BackendTlsPolicy
  pub reference_grants : Dict NamespacedName Object

abbrev pub unique_rule : HttpRouteRule → HttpRouteRule
unique_rule rule = record rule { backend_refs = remove_backend_refs_duplicates rule.backend_refs }

abbrev pub unique_route : HttpRouteContext → HttpRoute
unique_route c = record c.route { rules = map unique_rule c.route.rules }

-- `ToGatewayResources`, whose errors are always nil.
unfoldable pub to_gateway_resources : EmitterIr → GatewayResources
to_gateway_resources ir = record {
  gateways = copy_some (λ (c : GatewayContext). some c.gateway) [] ir.gateways;
  gateway_classes = copy_some some [] ir.gateway_classes;
  http_routes = copy_some (λ c. some (unique_route c)) [] ir.http_routes;
  grpc_routes = copy_some some [] ir.grpc_routes;
  tls_routes = copy_some some [] ir.tls_routes;
  tcp_routes = copy_some some [] ir.tcp_routes;
  udp_routes = copy_some some [] ir.udp_routes;
  backend_tls_policies = copy_some some [] ir.backend_tls_policies;
  reference_grants = copy_some some [] ir.reference_grants;
}
