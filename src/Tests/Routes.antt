-- ===== src/Tests/Routes.antt =====
-- The theorems of `Common.ToIr` and `Common.Routes` at the shop.
use ingress2gateway.Base.{
  ◌≡◌, refl, none, some, [], ◌∷◌, string_comparable, done, panic, inl, inr, Returns, All, Pointwise,
  map,
}
use ingress2gateway.Base.Dict.{lookup}
use ingress2gateway.Api.Ingress.{NamespacedName, namespaced_name_comparable}
use ingress2gateway.ProviderIr.{ProviderIr, HttpRouteContext, empty_ir}
use ingress2gateway.Common.Backends.{to_backend_ref, named_port_ref, port_number}
use ingress2gateway.Api.Gateway.{HttpRoute, GrpcRoute}
use ingress2gateway.Common.Aggregator.{
  RuleGroup, Protocol, http, grpc, aggregate, add_ingress, add_ingress_rule, add_ingresses,
  rule_group_key,
}
use ingress2gateway.Common.Routes.{
  to_http_route, to_http_route_match, configure_backend_ref, to_grpc_route, to_grpc_route_match,
}
use ingress2gateway.Common.ToIr.{to_ir, to_routes_and_gateways, sort, add_gateways}
use ingress2gateway.Common.Names.{
  get_ingress_class, name_from_host, trim_special, is_alnum, replace_special, route_name,
}
use ingress2gateway.Common.Paths.{group_ingress_paths_by_match_key, get_path_match_key}
use ingress2gateway.Common.Listeners.{
  merge_listeners, group_listener, merge_refs, add_if_new, listener_prefix, add_listener,
  add_listeners, add_names, collect, dedup_refs, dedup_tls, secret_refs,
}
use ingress2gateway.Common.Grpc.{parse_grpc_service_method}
use ingress2gateway.Tests.Data.{shop, ports}
use ingress2gateway.Common.ToIr.Total.{to_ir-Returns}
use ingress2gateway.Common.Aggregator.Valid.{IsIngress}
use ingress2gateway.Common.Paths.{group_ingress_paths_by_match_key}
use ingress2gateway.Common.Paths.Grouping.{all_paths}
use ingress2gateway.Common.Routes.{WithSources, path_source, to_grpc_route}
use ingress2gateway.Common.Routes.Sources.{
  IsHttpRuleOf, IsGrpcRuleOf, path_groups, to_http_route_sources, to_grpc_route_sources,
}
use ingress2gateway.Common.Routes.Complete.{IsPath, to_route-Returns}
use ingress2gateway.Common.ToIr.Sources.{IsAligned, to_ir-IsAligned}

-- `ToIR` of the shop.
abbrev shop_ir : ProviderIr
shop_ir = elim (to_ir (shop ∷ []) [] ports none) [ done r ↦ r.0 | panic ↦ empty_ir ]

abbrev shop_route : NamespacedName
shop_route = record { namespace = "store"; name = "shop-a-example" }

no_context : HttpRouteContext
no_context = record {
  route = record { namespace = ""; name = ""; parent_refs = []; hostnames = []; rules = [] };
  rule_backend_sources = [];
}

abbrev shop_context : HttpRouteContext
shop_context = elim (lookup shop_route shop_ir.http_routes) [ none ↦ no_context | some c ↦ c ]

to_ir-IsAligned_example : IsAligned ports shop_context.route shop_context.rule_backend_sources
unfolding to_ir to_routes_and_gateways sort aggregate get_ingress_class to_http_route
    group_ingress_paths_by_match_key to_http_route_match configure_backend_ref to_backend_ref
    add_gateways merge_listeners group_listener merge_refs add_if_new listener_prefix name_from_host
    trim_special add_ingress add_ingress_rule add_ingresses rule_group_key named_port_ref
    port_number parse_grpc_service_method add_listener add_listeners add_names collect dedup_refs
    dedup_tls secret_refs is_alnum replace_special route_name get_path_match_key to_grpc_route
    to_grpc_route_match
to_ir-IsAligned_example =
    to_ir-IsAligned (shop ∷ []) [] ports none shop_ir shop_route shop_context refl refl

shop-IsIngress : IsIngress shop
shop-IsIngress = (
  (
    (
      (inl (λ e. cc), inr (inl refl)),
      ((inl (λ e. cc), inr (inl refl)), ((inl (λ e. cc), inr (inl refl)), tt)),
    ),
    tt,
  ),
  inl (λ e. cc),
)

to_ir-Returns_example : Returns (to_ir (shop ∷ []) [] ports none)
to_ir-Returns_example = to_ir-Returns (shop ∷ []) [] ports none (shop-IsIngress, tt) tt

abbrev shop_group : Protocol → RuleGroup
shop_group protocol = record {
  namespace = "store";
  name = "shop";
  ingress_class = "nginx";
  host = "a.example";
  tls = [];
  rules = map (λ r. record { ingress = shop; rule = r }) shop.rules;
  protocol = protocol;
}

abbrev shop_http : WithSources HttpRoute
shop_http = elim (to_http_route (shop_group http) ports none) [
  | done r ↦ r.0
  | panic ↦ record { route = no_context.route; sources = [] }
]

to_http_route_sources_example :
    let groups = group_ingress_paths_by_match_key (shop_group http).rules in
    Pointwise
      (IsHttpRuleOf ports "store" none)
      (path_groups groups groups.keys)
      shop_http.route.rules
    × (shop_http.sources ≡ map (λ g. map path_source g) (path_groups groups groups.keys))
unfolding to_ir to_routes_and_gateways sort aggregate get_ingress_class to_http_route
    group_ingress_paths_by_match_key to_http_route_match configure_backend_ref to_backend_ref
    add_gateways merge_listeners group_listener merge_refs add_if_new listener_prefix name_from_host
    trim_special add_ingress add_ingress_rule add_ingresses rule_group_key named_port_ref
    port_number parse_grpc_service_method add_listener add_listeners add_names collect dedup_refs
    dedup_tls secret_refs is_alnum replace_special route_name get_path_match_key to_grpc_route
    to_grpc_route_match
to_http_route_sources_example = to_http_route_sources (shop_group http) ports none shop_http refl

abbrev shop_grpc : WithSources GrpcRoute
shop_grpc = elim (to_grpc_route (shop_group grpc) ports) [
  | done r ↦ r.0
  | panic ↦ record {
    route = record { namespace = ""; name = ""; parent_refs = []; hostnames = []; rules = [] };
    sources = [];
  }
]

to_grpc_route_sources_example :
    let groups = group_ingress_paths_by_match_key (shop_group grpc).rules in
    Pointwise (IsGrpcRuleOf ports "store") (path_groups groups groups.keys) shop_grpc.route.rules
    × (shop_grpc.sources ≡ map (λ g. map path_source g) (path_groups groups groups.keys))
unfolding to_ir to_routes_and_gateways sort aggregate get_ingress_class to_http_route
    group_ingress_paths_by_match_key to_http_route_match configure_backend_ref to_backend_ref
    add_gateways merge_listeners group_listener merge_refs add_if_new listener_prefix name_from_host
    trim_special add_ingress add_ingress_rule add_ingresses rule_group_key named_port_ref
    port_number parse_grpc_service_method add_listener add_listeners add_names collect dedup_refs
    dedup_tls secret_refs is_alnum replace_special route_name get_path_match_key to_grpc_route
    to_grpc_route_match
to_grpc_route_sources_example = to_grpc_route_sources (shop_group grpc) ports shop_grpc refl

shop_paths : All IsPath (all_paths 0 (shop_group http).rules)
shop_paths = (
  (inl (λ e. cc), inr (inl refl)),
  ((inl (λ e. cc), inr (inl refl)), ((inl (λ e. cc), inr (inl refl)), tt)),
)

to_route-Returns_example :
    Returns (to_http_route (shop_group http) ports none)
    × Returns (to_grpc_route (shop_group http) ports)
to_route-Returns_example = to_route-Returns (shop_group http) ports none shop_paths
