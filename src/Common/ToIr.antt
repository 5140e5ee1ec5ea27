-- ===== src/Common/ToIr.antt =====
-- pkg/i2gw/providers/common/converter.go: `toRoutesAndGateways` and `ToIR`. Go sorts the keys of
-- the groups; the sort is here an insertion sort by `String.compare`, the order of UTF-8.
pub mod Total
pub mod Sources
use Prim.Native.String
use Prim.Native.Nat.{Ordering}
use ingress2gateway.Base.{
  ℕ, ◌+◌, ◌≡◌, refl, Bool, true, false, Option, none, some, List, [], ◌∷◌, ◌++◌, map, String, ◌==◌,
  if◌then◌else◌, string_comparable, Go, done, panic, ◌>>=◌,
}
use ingress2gateway.Base.Dict.{Dict, lookup, lookup_or, insert}
use ingress2gateway.Base.Text.{◌+++◌, split}
use ingress2gateway.Api.Field.{FieldError, FieldPath, new_path, index, invalid, Result, ok, err}
use ingress2gateway.Api.Ingress.{Ingress, NamespacedName, namespaced_name_comparable}
use ingress2gateway.Api.Gateway.{Listener, Gateway, HttpRoute, GrpcRoute, BackendRef, HttpRouteRule}
use ingress2gateway.ProviderIr.{
  BackendSource, ProviderIr, empty_ir, HttpRouteContext, GrpcRouteContext, GatewayContext,
}
use ingress2gateway.Common.Backends.{ServicePorts, to_backend_ref}
use ingress2gateway.Common.Aggregator.{
  Protocol, http, grpc, RuleGroup, DefaultBackend, Aggregator, aggregate,
}
use ingress2gateway.Common.Routes.{
  PathConverter, WithSources, to_http_route, to_grpc_route, parent_ref,
}
use ingress2gateway.Common.Listeners.{group_listener, merge_listeners}

sort_insert : String → List String → List String
sort_insert k [] = k ∷ []
sort_insert k (j ∷ js) =
    let rest = sort_insert k js in
    elim (String.compare k j) [ Ordering.gt ↦ j ∷ rest | _ ↦ k ∷ j ∷ js ]

-- `slices.SortFunc(keys, cmp.Compare)`
unfoldable pub sort : List String → List String
unfolding sort_insert
sort [] = []
sort (k ∷ ks) = sort_insert k (sort ks)

-- The variables of `toRoutesAndGateways`.
pub record Translation : Type 0 where
  pub http_routes : List (WithSources HttpRoute)
  pub grpc_routes : List (WithSources GrpcRoute)
  pub listeners : Dict String (List Listener)
  pub errors : List FieldError

abbrev pub gateway_key : RuleGroup → String
gateway_key rg = rg.namespace +++ "/" +++ rg.ingress_class

add_group_listener : Translation → RuleGroup → Translation
add_group_listener t rg = record t {
  listeners =
      insert (gateway_key rg) (lookup_or [] (gateway_key rg) t.listeners ++ group_listener rg ∷ [])
        t.listeners;
}

-- The branch on the protocol of a group.
add_route : Translation → RuleGroup → ServicePorts → PathConverter → Protocol → Go Translation
add_route t rg service_ports convert http = do
  r ← to_http_route rg service_ports convert
  done (record t { http_routes = t.http_routes ++ r.0 ∷ []; errors = t.errors ++ r.1 })
add_route t rg service_ports convert grpc = do
  r ← to_grpc_route rg service_ports
  done (record t { grpc_routes = t.grpc_routes ++ r.0 ∷ []; errors = t.errors ++ r.1 })

-- A key of the map has a group.
translate_group : Translation → ServicePorts → PathConverter → Option RuleGroup → Go Translation
unfolding add_group_listener add_route
translate_group t service_ports convert none = panic
translate_group t service_ports convert (some rg) =
    add_route (add_group_listener t rg) rg service_ports convert rg.protocol

translate_groups :
    Translation
    → ServicePorts
    → PathConverter
    → Dict String RuleGroup
    → List String
    → Go Translation
unfolding translate_group
translate_groups t service_ports convert groups [] = done t
translate_groups t service_ports convert groups (k ∷ ks) = do
  t' ← translate_group t service_ports convert (lookup k groups)
  translate_groups t' service_ports convert groups ks

-- The rules of the route of a default backend: none where the backend is an error.
default_rules : Result BackendRef → List HttpRouteRule
default_rules (err e) = []
default_rules (ok r) =
    record {
      name = none;
      matches = [];
      filters = [];
      backend_refs = r ∷ [];
      request_timeout = none;
    }
    ∷ []

error_of : Result BackendRef → List FieldError
error_of (err e) = e ∷ []
error_of (ok r) = []

default_backend_route : DefaultBackend → Result BackendRef → WithSources HttpRoute
unfolding default_rules
default_backend_route db r = record {
  route = record {
    namespace = db.namespace;
    name = db.name +++ "-default-backend";
    parent_refs = parent_ref db.ingress_class ∷ [];
    hostnames = [];
    rules = default_rules r;
  };
  sources =
      (record { ingress = some db.source_ingress; path = none; default_backend = some db.backend }
        ∷ [])
      ∷ [];
}

add_default_backends : Translation → ServicePorts → ℕ → List DefaultBackend → Go Translation
unfolding default_backend_route error_of
add_default_backends t service_ports i [] = done t
add_default_backends t service_ports i (db ∷ dbs) = do
  r ←
      to_backend_ref db.namespace db.backend service_ports
        (index (new_path (db.name ∷ "paths" ∷ "backends" ∷ [])) i)
  add_default_backends
      (record t {
        http_routes = t.http_routes ++ default_backend_route db r ∷ [];
        errors = t.errors ++ error_of r;
      })
      service_ports (i + 1) dbs

-- `parts[0]` and `parts[1]`, if there are just two parts.
two_parts : List String → Option (String × String)
two_parts (a ∷ b ∷ []) = some (a, b)
two_parts _ = none

abbrev pub Gateways : Type 0
Gateways = Dict String Gateway × List FieldError

gateway_or_new : Option Gateway → String → String → Gateway
gateway_or_new (some g) namespace name = g
gateway_or_new none namespace name = record {
  namespace = namespace;
  name = name;
  class_name = name;
  listeners = [];
  addresses = [];
}

-- One entry of the listeners by Gateway, by the parts of its key.
add_gateway : Gateways → String → List Listener → Option (String × String) → Go Gateways
unfolding gateway_or_new
add_gateway (by_key, errors) key listeners none = done (
  by_key,
  errors
      ++ invalid (new_path ("" ∷ [])) ("error generating Gateway listeners for key: " +++ key) ∷ [],
)
add_gateway (by_key, errors) key listeners (some (namespace, name)) = do
  let gateway = gateway_or_new (lookup key by_key) namespace name
  merged ← merge_listeners listeners
  done (insert key (record gateway { listeners = gateway.listeners ++ merged }) by_key, errors)

unfoldable pub add_gateways : Gateways → Dict String (List Listener) → Go Gateways
unfolding add_gateway two_parts
add_gateways acc [] = done acc
add_gateways acc ((key, listeners) ∷ rest) = do
  acc' ← add_gateway acc key listeners (two_parts (split b'/' key))
  add_gateways acc' rest

abbrev pub keys_of {ℓ} : {V : Type ℓ} → Dict String V → List String
keys_of m = map (λ e. e.0) m

abbrev pub values_of {ℓ} : {V : Type ℓ} → Dict String V → List V
values_of m = map (λ e. e.1) m

abbrev pub nothing_translated : Translation
nothing_translated = record { http_routes = []; grpc_routes = []; listeners = []; errors = [] }

-- The routes, the Gateways and the errors.
unfoldable pub to_routes_and_gateways :
    Aggregator → ServicePorts → PathConverter → Go (Translation × List Gateway)
unfolding translate_groups add_default_backends
to_routes_and_gateways a service_ports convert = do
  t ←
      translate_groups nothing_translated service_ports convert a.rule_groups
        (sort (keys_of a.rule_groups))
  t' ← add_default_backends t service_ports 0 a.default_backends
  gateways ← add_gateways ([], t'.errors) t'.listeners
  done (record t' { errors = gateways.1 }, values_of gateways.0)

http_by_key :
    Dict NamespacedName HttpRouteContext
    → List (WithSources HttpRoute)
    → Dict NamespacedName HttpRouteContext
http_by_key m [] = m
http_by_key m (r ∷ rs) =
    http_by_key
      (insert (record { namespace = r.route.namespace; name = r.route.name })
        (record { route = r.route; rule_backend_sources = r.sources }) m)
      rs

grpc_by_key :
    Dict NamespacedName GrpcRouteContext
    → List (WithSources GrpcRoute)
    → Dict NamespacedName GrpcRouteContext
grpc_by_key m [] = m
grpc_by_key m (r ∷ rs) =
    grpc_by_key
      (insert (record { namespace = r.route.namespace; name = r.route.name })
        (record { route = r.route; rule_backend_sources = r.sources }) m)
      rs

gateway_by_key :
    Dict NamespacedName GatewayContext → List Gateway → Dict NamespacedName GatewayContext
gateway_by_key m [] = m
gateway_by_key m (g ∷ gs) =
    gateway_by_key
      (insert (record { namespace = g.namespace; name = g.name })
        (record { gateway = g; gce = none }) m)
      gs

-- The end of `ToIR`: the errors, or the maps.
ir_of : Translation × List Gateway → ProviderIr × List FieldError
unfolding http_by_key grpc_by_key gateway_by_key
ir_of (t, gateways) = elim t.errors [
  | e ∷ es ↦ (empty_ir, e ∷ es)
  | [] ↦ (
    record {
      gateways = gateway_by_key [] gateways;
      http_routes = http_by_key [] t.http_routes;
      services = some [];
      gateway_classes = [];
      tls_routes = [];
      tcp_routes = [];
      udp_routes = [];
      grpc_routes = grpc_by_key [] t.grpc_routes;
      backend_tls_policies = [];
      reference_grants = [];
    },
    [],
  )
]

unfoldable pub to_ir :
    List Ingress → List Ingress → ServicePorts → PathConverter → Go (ProviderIr × List FieldError)
unfolding ir_of
to_ir http_ingresses grpc_ingresses service_ports convert = do
  r ← to_routes_and_gateways (aggregate http_ingresses grpc_ingresses) service_ports convert
  done (ir_of r)
