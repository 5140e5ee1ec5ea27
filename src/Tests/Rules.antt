-- ===== src/Tests/Rules.antt =====
-- The theorems of `Common` on names, backends, paths, groups and listeners.
use ingress2gateway.Base.{
  ◌≡◌, ◌≢◌, ◌↔◌, ◌⊎◌, refl, true, false, not, none, some, List, [], ◌∷◌, ◌++◌, map, String, ◌==◌,
  string_comparable, done, panic, All, keep, distinct, Pointwise,
}
use ingress2gateway.Base.Dict.{Dict, lookup, lookup_or}
use ingress2gateway.Base.Firsts.{firsts_by}
use ingress2gateway.Base.Text.{◌+++◌, has_char, trim_prefix}
use ingress2gateway.Api.Field.{FieldError, new_path, err}
use ingress2gateway.Api.Ingress.{
  NamespacedName, namespaced_name_comparable, Service, ServiceBackend,
}
use ingress2gateway.Api.Gateway.{HttpRoute, HttpRouteRule, HttpRouteFilter, Listener}
use ingress2gateway.Common.Names.{name_from_host, route_name}
use ingress2gateway.Common.Names.Chars.{
  is_name, starts_plain, no_alnum, name_from_host-is_name, name_from_host-eq-empty_iff,
}
use ingress2gateway.Common.Names.Collisions.{route_name-wildcard}
use ingress2gateway.Common.Names.{is_alnum}
use ingress2gateway.Common.Backends.{
  service_ref, port_number, named_port_ref, to_backend_ref, group_service_ports_by_port_name,
}
use ingress2gateway.Common.Backends.Laws.{
  Refers, resolved_port, missing_port, to_backend_ref-Refers, to_backend_ref_fails, last_port_of,
  port_number-group_service_ports,
}
use ingress2gateway.Common.Grpc.{
  parse_grpc_service_method, convert_http_filters_to_grpc_filters, is_http_backend,
  remove_grpc_rules_from_http_route,
}
use ingress2gateway.Common.Grpc.Laws.{
  parse_grpc-format, format-parse_grpc, is_modifier, has_headers, IsCopy, convert_http_filters_lem,
  backends_of, remove_grpc_rules_lem,
}
use ingress2gateway.Common.Paths.{RuleSource, get_path_match_key, group_ingress_paths_by_match_key}
use ingress2gateway.Common.Paths.Grouping.{
  all_paths, keys_of, group_ingress_paths_entries, group_ingress_paths_keys,
}
use ingress2gateway.Common.Aggregator.{http, no_groups, add_ingresses}
use ingress2gateway.Common.Aggregator.Grouping.{
  group_rules, all_keyed_rules, AllKeyed, add_ingresses-rules, add_ingresses-AllKeyed,
  rule_group_key-injective,
}
use ingress2gateway.Common.Listeners.{merge_listeners}
use ingress2gateway.Common.Listeners.Unique.{names_of, IsMerged, merge_listeners_lem}
use ingress2gateway.Tests.Data.{shop, ports, service_backend}

abbrev wild_listener : Listener
wild_listener = record {
  name = "";
  hostname = some "*.a.example";
  port = 0;
  protocol = "";
  tls = some (record { group = none; kind = none; name = "cert" } ∷ []);
  mode = none;
}

merge_listeners_example :
    (merged : List Listener) × (merge_listeners (wild_listener ∷ wild_listener ∷ []) ≡ done merged)
    × (distinct (names_of merged) ≡ true)
    × All IsMerged merged
merge_listeners_example = merge_listeners_lem (wild_listener ∷ wild_listener ∷ [])

add_ingresses-rules_example :
    group_rules "store/nginx/a.example/http" (add_ingresses no_groups (shop ∷ shop ∷ []) http)
    ≡ group_rules "store/nginx/a.example/http" no_groups
      ++ all_keyed_rules "store/nginx/a.example/http" http (shop ∷ shop ∷ [])
add_ingresses-rules_example =
    add_ingresses-rules no_groups (shop ∷ shop ∷ []) http "store/nginx/a.example/http"

no_groups-AllKeyed : AllKeyed no_groups
no_groups-AllKeyed k rg e = cc

add_ingresses-AllKeyed_example : AllKeyed (add_ingresses no_groups (shop ∷ shop ∷ []) http)
add_ingresses-AllKeyed_example =
    add_ingresses-AllKeyed no_groups (shop ∷ shop ∷ []) http no_groups-AllKeyed

abbrev store : String
store = "store"

rule_group_key-injective_example :
    (store ≡ store) × (store ≡ store) × (store ≡ store) × (http ≡ http)
rule_group_key-injective_example =
    rule_group_key-injective store store store store store store http http (refl, refl, refl)
      (refl, refl, refl) refl

abbrev shop_rules : List RuleSource
shop_rules = map (λ r. record { ingress = shop; rule = r }) shop.rules

group_ingress_paths_entries_example :
    lookup_or [] "Prefix//cart" (group_ingress_paths_by_match_key shop_rules).entries
    ≡ keep (λ p. get_path_match_key p == "Prefix//cart") (all_paths 0 shop_rules)
group_ingress_paths_entries_example = group_ingress_paths_entries shop_rules "Prefix//cart"

group_ingress_paths_keys_example :
    (group_ingress_paths_by_match_key shop_rules).keys
    ≡ firsts_by (λ k. k) (keys_of (all_paths 0 shop_rules))
group_ingress_paths_keys_example = group_ingress_paths_keys shop_rules

to_backend_ref-Refers_example :
    Refers ports "store" (service_backend "cart" "web" 0) (service_ref "cart" 9090)
unfolding to_backend_ref named_port_ref port_number
to_backend_ref-Refers_example =
    to_backend_ref-Refers ports "store" (service_backend "cart" "web" 0) (new_path [])
      (service_ref "cart" 9090) refl

abbrev no_port : FieldError
no_port =
    missing_port (record { name = "cart"; port = record { name = "admin"; number = 0 } })
      (new_path [])

to_backend_ref_fails_example :
    ((to_backend_ref "store" (service_backend "cart" "admin" 0) ports (new_path []) ≡ panic) ↔ (
      ((service_backend "cart" "admin" 0).service ≡ none)
      × ((service_backend "cart" "admin" 0).resource ≡ none)))
    × ((to_backend_ref "store" (service_backend "cart" "admin" 0) ports (new_path [])
          ≡ done (err no_port))
        ↔ ((s : ServiceBackend) × ((service_backend "cart" "admin" 0).service ≡ some s)
            × (resolved_port ports "store" s ≡ none)
            × (no_port ≡ missing_port s (new_path []))))
to_backend_ref_fails_example =
    to_backend_ref_fails ports "store" (service_backend "cart" "admin" 0) (new_path []) no_port

abbrev services : Dict NamespacedName Service
services =
    (
      record { namespace = "store"; name = "cart" },
      record {
        ports = record { name = "web"; port = 80 } ∷ record { name = "web"; port = 81 } ∷ [];
      },
    )
    ∷ []

port_number-group_service_ports_example :
    port_number (group_service_ports_by_port_name services) "store" "cart" "web"
    ≡ last_port_of "web" (lookup (record { namespace = "store"; name = "cart" }) services)
port_number-group_service_ports_example =
    port_number-group_service_ports services "store" "cart" "web" refl

name_from_host-is_name_example :
    (is_name (name_from_host "*.a.example") ≡ true)
    × (starts_plain (name_from_host "*.a.example") ≡ true)
name_from_host-is_name_example = name_from_host-is_name "*.a.example"

abbrev stars : String
stars = "**"

name_from_host-eq-empty_example :
    (name_from_host stars ≡ "") ↔ ((stars ≢ "") × (stars ≢ "*") × (no_alnum stars ≡ true))
name_from_host-eq-empty_example = name_from_host-eq-empty_iff stars

route_name-wildcard_example :
    route_name "shop" ("*." +++ "a.example") ≡ route_name "shop" "a.example"
unfolding is_alnum
route_name-wildcard_example = route_name-wildcard "shop" "a.example" refl

parse_grpc-format_example :
    parse_grpc_service_method ("/" +++ "pkg.Svc" +++ "/" +++ "Get/x") ≡ ("pkg.Svc", "Get/x")
parse_grpc-format_example = parse_grpc-format "pkg.Svc" "Get/x" refl

format-parse_grpc_example :
    let (service, method) = parse_grpc_service_method "/pkg.Svc/Get" in
    (has_char b'/' service ≡ false)
    × (((trim_prefix b'/' "/pkg.Svc/Get" ≡ service) × (method ≡ ""))
        ⊎ (trim_prefix b'/' "/pkg.Svc/Get" ≡ service +++ "/" +++ method))
format-parse_grpc_example = format-parse_grpc "/pkg.Svc/Get"

abbrev filters : List HttpRouteFilter
filters =
    record {
      type = "RequestHeaderModifier";
      request_header_modifier = some (record {
        set_headers = record { name = "a"; value = "b" } ∷ [];
        add_headers = [];
        remove_headers = [];
      });
      response_header_modifier = none;
      request_redirect = none;
      url_rewrite = none;
      cors = none;
    }
    ∷ record {
      type = "URLRewrite";
      request_header_modifier = none;
      response_header_modifier = none;
      request_redirect = none;
      url_rewrite = none;
      cors = none;
    }
    ∷ []

convert_http_filters_example :
    let result = convert_http_filters_to_grpc_filters filters in
    Pointwise IsCopy (keep has_headers filters) result.grpc_filters
    × (result.unsupported_types ≡ map (λ f. f.type) (keep (λ f. not (is_modifier f)) filters))
convert_http_filters_example = convert_http_filters_lem filters

abbrev mixed : HttpRoute
mixed = record {
  namespace = "store";
  name = "shop";
  parent_refs = [];
  hostnames = [];
  rules =
      record {
        name = none;
        matches = [];
        filters = [];
        backend_refs = service_ref "cart" 80 ∷ service_ref "rpc" 81 ∷ [];
        request_timeout = none;
      }
      ∷ record {
        name = none;
        matches = [];
        filters = [];
        backend_refs = service_ref "rpc" 81 ∷ [];
        request_timeout = none;
      }
      ∷ [];
}

remove_grpc_rules_example :
    (backends_of (remove_grpc_rules_from_http_route mixed ("rpc" ∷ []))
      ≡ keep (is_http_backend ("rpc" ∷ [])) (backends_of mixed.rules))
    × All
        (λ (r : HttpRouteRule). r.backend_refs ≢ [])
        (remove_grpc_rules_from_http_route mixed ("rpc" ∷ []))
remove_grpc_rules_example = remove_grpc_rules_lem mixed ("rpc" ∷ [])
