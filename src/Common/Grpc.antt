-- ===== src/Common/Grpc.antt =====
-- pkg/i2gw/providers/common/utils.go: gRPC services and methods in paths, filters that gRPC
-- routes can take over, and the removal of gRPC backends from HTTP routes.
pub mod Laws
use ingress2gateway.Base.{
  ℕ, ◌≡◌, refl, Bool, true, false, not, Option, none, some, List, [], ◌∷◌, ◌++◌, arith, String,
  ◌==◌, string_comparable, if◌then◌else◌, get_elem?, contains, keep, zero, suc, ◌||◌,
}
use ingress2gateway.Base.Text.{split2, trim_prefix}
use ingress2gateway.Api.Gateway.{
  BackendRef, HttpRouteFilter, GrpcRouteFilter, HttpRoute, HttpRouteRule, HeaderFilter,
}

-- `parts[i]` if it is there, and "" otherwise.
abbrev pub part_or_empty : List String → ℕ → String
part_or_empty parts i = elim (get_elem? parts i) [ none ↦ "" | some s ↦ s ]

-- The service and the method of a path, "" where one is missing.
unfoldable pub parse_grpc_service_method : String → String × String
parse_grpc_service_method path =
    let parts = split2 b'/' (trim_prefix b'/' path) in
    (part_or_empty parts 0, part_or_empty parts 1)

abbrev pub request_header_modifier_type : String
request_header_modifier_type = "RequestHeaderModifier"

abbrev pub response_header_modifier_type : String
response_header_modifier_type = "ResponseHeaderModifier"

-- `GRPCFilterConversionResult`
pub record GrpcFilterConversionResult : Type 0 where
  pub grpc_filters : List GrpcRouteFilter
  pub unsupported_types : List String

-- The lists of the filter, one by one.
abbrev pub copied_headers : HeaderFilter → HeaderFilter
copied_headers h = record {
  set_headers = h.set_headers;
  add_headers = h.add_headers;
  remove_headers = h.remove_headers;
}

abbrev pub request_modifier : HeaderFilter → GrpcRouteFilter
request_modifier h = record {
  type = request_header_modifier_type;
  request_header_modifier = some (copied_headers h);
  response_header_modifier = none;
}

abbrev pub response_modifier : HeaderFilter → GrpcRouteFilter
response_modifier h = record {
  type = response_header_modifier_type;
  request_header_modifier = none;
  response_header_modifier = some (copied_headers h);
}

add_modifier :
    (HeaderFilter → GrpcRouteFilter)
    → Option HeaderFilter
    → List GrpcRouteFilter
    → List GrpcRouteFilter
add_modifier make none filters = filters
add_modifier make (some h) filters = filters ++ make h ∷ []

-- One round of the loop: the two header modifiers are copied, every other type is reported.
convert_filter : HttpRouteFilter → GrpcFilterConversionResult → GrpcFilterConversionResult
unfolding add_modifier
convert_filter f acc =
    if f.type == request_header_modifier_type
    then record acc {
      grpc_filters = add_modifier request_modifier f.request_header_modifier acc.grpc_filters;
    }
    else if f.type == response_header_modifier_type
    then record acc {
      grpc_filters = add_modifier response_modifier f.response_header_modifier acc.grpc_filters;
    }
    else record acc { unsupported_types = acc.unsupported_types ++ f.type ∷ [] }

convert_filters : List HttpRouteFilter → GrpcFilterConversionResult → GrpcFilterConversionResult
convert_filters [] acc = acc
convert_filters (f ∷ fs) acc = convert_filters fs (convert_filter f acc)

unfoldable pub convert_http_filters_to_grpc_filters :
    List HttpRouteFilter → GrpcFilterConversionResult
unfolding convert_filters convert_filter
convert_http_filters_to_grpc_filters filters =
    convert_filters filters (record { grpc_filters = []; unsupported_types = [] })

-- Whether the backend is no gRPC service; the set is the list of its members.
abbrev pub is_http_backend : List String → BackendRef → Bool
is_http_backend grpc_services r = not (contains r.name grpc_services)

keep_rule : List String → HttpRouteRule → List HttpRouteRule → List HttpRouteRule
keep_rule grpc_services rule rest = elim (keep (is_http_backend grpc_services) rule.backend_refs) [
  | [] ↦ rest
  | r ∷ rs ↦ record rule { backend_refs = r ∷ rs } ∷ rest
]

remaining_rules : List String → List HttpRouteRule → List HttpRouteRule
unfolding keep_rule
remaining_rules grpc_services [] = []
remaining_rules grpc_services (rule ∷ rules) =
    keep_rule grpc_services rule (remaining_rules grpc_services rules)

unfoldable pub remove_grpc_rules_from_http_route : HttpRoute → List String → List HttpRouteRule
unfolding remaining_rules
remove_grpc_rules_from_http_route route grpc_services = remaining_rules grpc_services route.rules
