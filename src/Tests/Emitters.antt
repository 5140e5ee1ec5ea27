-- ===== src/Tests/Emitters.antt =====
-- The theorems of `Emitters` at a rule with two references to one service.
use ingress2gateway.Base.{
  done, All, false, arith, ℕ, ◌≡◌, refl, true, Option, none, some, List, [], ◌∷◌, map, String,
  length,
}
use ingress2gateway.Base.Int.{pos, negsuc}
use ingress2gateway.Api.Gateway.{BackendRef}
use ingress2gateway.EmitterIr.{HttpRouteContext}
use ingress2gateway.Emitters.Resources.{remove_backend_refs_duplicates}
use ingress2gateway.Emitters.Resources.Unique.{
  all_different, has_same, remove_backend_refs_duplicates_lem,
}
use ingress2gateway.Emitters.Resources.Weights.{
  IsWeighted, total_weight, total_weight-remove_backend_refs_duplicates,
}
use ingress2gateway.Emitters.Common.{
  Parser, Printer, apply_path_rewrites, apply_tcp_timeouts, index_error,
}
use ingress2gateway.Emitters.Common.Rewrites.{IsLeftEntry, apply_path_rewrites_lem}
use ingress2gateway.Emitters.Common.Indices.{late_indices, apply_tcp_timeouts_lem}

abbrev weighted : String → Option String → ℕ → BackendRef
weighted name group w = record {
  group = group;
  kind = none;
  name = name;
  port = some 80;
  weight = some (pos w);
}

abbrev doubled : List BackendRef
doubled = weighted "cart" none 30 ∷ weighted "pay" none 10 ∷ weighted "cart" (some "core") 60 ∷ []

remove_backend_refs_duplicates_example :
    (all_different (remove_backend_refs_duplicates doubled) ≡ true)
    × ((r : BackendRef) → has_same r (remove_backend_refs_duplicates doubled) ≡ has_same r doubled)
remove_backend_refs_duplicates_example = remove_backend_refs_duplicates_lem doubled

total_weight_example :
    All IsWeighted (remove_backend_refs_duplicates doubled)
    × (total_weight (remove_backend_refs_duplicates doubled) ≡ total_weight doubled)
total_weight_example =
    total_weight-remove_backend_refs_duplicates doubled ((30, refl), ((10, refl), ((60, refl), tt)))
      (omega arith)

abbrev parse_all : Parser
parse_all s = some (pos 7)

abbrev print_any : Printer
print_any d = "70ns"

abbrev timed : HttpRouteContext
timed = record {
  route = record {
    namespace = "store";
    name = "shop";
    parent_refs = [];
    hostnames = [];
    rules =
        record {
          name = none;
          matches = [];
          filters = [];
          backend_refs = doubled;
          request_timeout = none;
        }
        ∷ [];
  };
  tcp_timeouts_by_rule_idx =
      (pos 0, some (record { connect = some "7ns"; read = none; write = none }))
      ∷ (pos 3, some (record { connect = some "7ns"; read = none; write = none }))
      ∷ (negsuc 0, some (record { connect = some "7ns"; read = none; write = none }))
      ∷ [];
  path_rewrite_by_rule_idx =
      (
        pos 0,
        some (record {
          metadata = record { source = "store/shop"; paths = []; failure_message = "" };
          replace_full_path = "/";
          headers = ("X-Forwarded-Prefix", "/shop") ∷ [];
          regex_capture_group_references = false;
        }),
      )
      ∷ [];
  body_size_by_rule_idx = [];
  cors_policy_by_rule_idx = [];
  ip_range_control_by_rule_idx = [];
}

apply_tcp_timeouts_example :
    (length (apply_tcp_timeouts parse_all print_any timed).0.route.rules ≡ length timed.route.rules)
    × ((apply_tcp_timeouts parse_all print_any timed).0.tcp_timeouts_by_rule_idx ≡ [])
    × ((apply_tcp_timeouts parse_all print_any timed).1
        ≡ map index_error (late_indices (length timed.route.rules) timed.tcp_timeouts_by_rule_idx))
apply_tcp_timeouts_example = apply_tcp_timeouts_lem parse_all print_any timed

apply_path_rewrites_example :
    (c : HttpRouteContext) × (apply_path_rewrites timed ≡ done c)
    × (length c.route.rules ≡ length timed.route.rules)
    × All IsLeftEntry c.path_rewrite_by_rule_idx
apply_path_rewrites_example = apply_path_rewrites_lem timed (omega arith, tt)
