-- ===== src/Ingressnginx/Canary/Feature.antt =====
-- `canaryFeature` of pkg/i2gw/providers/ingressnginx/canary.go: the routes of every rule group.
use ingress2gateway.Base.{ℕ, ◌+◌, Option, none, some, List, [], ◌∷◌, ◌++◌, String, Go, done, ◌>>=◌}
use ingress2gateway.Base.Dict.{Dict, lookup, insert}
use ingress2gateway.Api.Field.{FieldError, internal, new_path, index}
use ingress2gateway.Api.Ingress.{Ingress, NamespacedName, namespaced_name_comparable}
use ingress2gateway.Api.Gateway.{GrpcRouteRule}
use ingress2gateway.ProviderIr.{ProviderIr, BackendSource, HttpRouteContext, GrpcRouteContext}
use ingress2gateway.Common.Names.{route_name}
use ingress2gateway.Common.Features.{FeatureGroup, get_rule_groups}
use ingress2gateway.Ingressnginx.Canary.{Notice}
use ingress2gateway.Ingressnginx.Canary.Backends.{CanaryInfo, get_canary_info}
use ingress2gateway.Ingressnginx.Canary.Rules.{set_weight, RouteChange, change_rules}

-- The IR, the errors and the notices so far.
pub record CanaryState : Type 0 where
  pub ir : ProviderIr
  pub errors : List FieldError
  pub notices : List Notice

abbrev pub changed_context : HttpRouteContext → RouteChange → HttpRouteContext
changed_context c x = record {
  route = record c.route { rules = x.rules ++ x.rules_to_add };
  rule_backend_sources = x.sources ++ x.sources_to_add;
}

abbrev pub canary_http : CanaryState → NamespacedName → Option HttpRouteContext → Go CanaryState
canary_http st key none = done st
canary_http st key (some c) =
    change_rules c.route.name 0 c.route.rules c.rule_backend_sources >>= λ x. done (record {
      ir = record st.ir { http_routes = insert key (changed_context c x) st.ir.http_routes };
      errors = st.errors ++ x.errors;
      notices = st.notices ++ x.notices;
    })

pub record GrpcChange : Type 0 where
  pub rules : List GrpcRouteRule
  pub errors : List FieldError
  pub notices : List Notice

abbrev pub change_grpc_rule : CanaryInfo → Option (ℕ × ℕ) → GrpcRouteRule → Go GrpcRouteRule
change_grpc_rule info none rule = done rule
change_grpc_rule info (some (c, n)) rule =
    set_weight rule.backend_refs c info.canary_weight >>= λ refs.
    set_weight refs n info.non_canary_weight >>= λ refs'.
    done (record rule { backend_refs = refs' })

-- The loop over the sources of a GRPCRoute, from the `i`th on. Sources beyond the rules are errors.
unfoldable pub change_grpc_rules :
    String → ℕ → List (List BackendSource) → List GrpcRouteRule → Go GrpcChange
change_grpc_rules name i [] rules = done (record { rules = rules; errors = []; notices = [] })
change_grpc_rules name i (srcs ∷ sources) [] = change_grpc_rules name (i + 1) sources [] >>= λ y.
    done (record {
      rules = y.rules;
      errors =
          internal (index (new_path ("grpcroute" ∷ name ∷ "spec" ∷ "rules" ∷ [])) i)
            "rule index exceeds available rules"
          ∷ y.errors;
      notices = y.notices;
    })
change_grpc_rules name i (srcs ∷ sources) (rule ∷ rules) =
    let info = get_canary_info srcs "grpcroute" name i in
    change_grpc_rule info info.indices rule >>= λ rule'.
    change_grpc_rules name (i + 1) sources rules >>= λ y. done (record {
      rules = rule' ∷ y.rules;
      errors = info.errors ++ y.errors;
      notices = info.notices ++ y.notices;
    })

-- The rules are changed in place, so the context in the map has the new ones.
abbrev pub canary_grpc : CanaryState → NamespacedName → Option GrpcRouteContext → Go CanaryState
canary_grpc st key none = done st
canary_grpc st key (some c) =
    change_grpc_rules c.route.name 0 c.rule_backend_sources c.route.rules >>= λ x. done (record {
      ir = record st.ir {
        grpc_routes =
            insert key (record c { route = record c.route { rules = x.rules } }) st.ir.grpc_routes;
      };
      errors = st.errors ++ x.errors;
      notices = st.notices ++ x.notices;
    })

abbrev pub group_route : FeatureGroup → NamespacedName
group_route rg = record { namespace = rg.namespace; name = route_name rg.name rg.host }

unfoldable pub canary_groups : CanaryState → Dict String FeatureGroup → Go CanaryState
canary_groups st [] = done st
canary_groups st ((k, rg) ∷ groups) =
    canary_http st (group_route rg) (lookup (group_route rg) st.ir.http_routes) >>= λ st1.
    canary_grpc st1 (group_route rg) (lookup (group_route rg) st1.ir.grpc_routes) >>= λ st2.
    canary_groups st2 groups

-- `canaryFeature`
unfoldable pub canary_feature : List Ingress → ProviderIr → Go CanaryState
canary_feature ingresses ir =
    canary_groups (record { ir = ir; errors = []; notices = [] }) (get_rule_groups ingresses)
