-- ===== src/Common/Routes.antt =====
-- pkg/i2gw/providers/common/converter.go: the HTTPRoute or the GRPCRoute of a rule group. The
-- provider's converter of paths, `options.ToImplementationSpecificHTTPPathTypeMatch`, is a
-- parameter, `none` where it is nil.
pub mod Sources
pub mod Complete
use ingress2gateway.Base.{
  ℕ, ◌+◌, ◌≡◌, refl, Bool, true, false, ◌||◌, not, Option, none, some, List, [], ◌∷◌, ◌++◌, map,
  String, ◌==◌, if◌then◌else◌, string_comparable, Go, done, panic, ◌>>=◌,
}
use ingress2gateway.Base.Dict.{Dict, lookup_or}
use ingress2gateway.Api.Field.{
  FieldPath, new_path, index, child, FieldError, invalid, Result, ok, err,
}
use ingress2gateway.Api.Ingress.{HttpIngressPath}
use ingress2gateway.Api.Gateway.{
  BackendRef, HttpPathMatch, HttpRouteMatch, HttpRouteRule, HttpRoute, GrpcMethodMatch,
  GrpcRouteMatch, GrpcRouteRule, GrpcRoute, ParentRef,
}
use ingress2gateway.ProviderIr.{BackendSource}
use ingress2gateway.Common.Names.{route_name}
use ingress2gateway.Common.Backends.{ServicePorts, to_backend_ref}
use ingress2gateway.Common.Grpc.{parse_grpc_service_method}
use ingress2gateway.Common.Paths.{IngressPath, OrderedPaths, group_ingress_paths_by_match_key}
use ingress2gateway.Common.Aggregator.{RuleGroup}

abbrev pub PathConverter : Type 0
PathConverter = Option (HttpPathMatch → HttpPathMatch)

abbrev pub path_match : Option String → String → HttpPathMatch
path_match type value = record { type = type; value = some value }

abbrev pub route_match : HttpPathMatch → HttpRouteMatch
route_match p = record { path = some p; headers = [] }

-- The branch for `ImplementationSpecific`.
convert_path : HttpIngressPath → FieldPath → PathConverter → Result HttpRouteMatch
convert_path p path none = err (
    invalid (child path ("pathType" ∷ []))
      "implementationSpecific path type is not supported in generic translation, and your provider does not provide custom support to translate it")
convert_path p path (some convert) = ok (route_match (convert (path_match none p.path)))

-- The default branch prints the type of the match, which is still a nil pointer there.
match_of_type :
    HttpIngressPath → FieldPath → PathConverter → Option String → Go (Result HttpRouteMatch)
unfolding convert_path
match_of_type p path convert none =
    done (err (invalid (child path ("pathType" ∷ [])) "pathType is required"))
match_of_type p path convert (some type) =
    if type == "Prefix"
    then done (ok (route_match (path_match (some "PathPrefix") p.path)))
    else if type == "Exact"
    then done (ok (route_match (path_match (some "Exact") p.path)))
    else if type == "ImplementationSpecific"
    then done (convert_path p path convert)
    else panic

unfoldable pub to_http_route_match :
    HttpIngressPath → FieldPath → PathConverter → Go (Result HttpRouteMatch)
unfolding match_of_type
to_http_route_match p path convert = match_of_type p path convert p.path_type

abbrev optional : String → Option String
optional s = if s == "" then none else some s

unfoldable pub to_grpc_route_match : HttpIngressPath → GrpcRouteMatch
to_grpc_route_match p =
    let (service, method) = parse_grpc_service_method p.path in
    record {
      method =
          if not (service == "") || not (method == "")
          then some (record { service = optional service; method = optional method })
          else none;
    }

-- What a loop over backends or rules has made: references or rules, the sources that stand
-- beside them, and errors.
pub record Made (R S : Type 0) : Type 0 where
  pub items : List R
  pub sources : List S
  pub errors : List FieldError

abbrev pub nothing_made : {R S : Type 0} → Made R S
nothing_made = record { items = []; sources = []; errors = [] }

-- The source of a path's backend.
abbrev pub path_source : IngressPath → BackendSource
path_source p = record {
  ingress = some p.source_ingress;
  path = some p.path;
  default_backend = none;
}

add_backend :
    IngressPath → Result BackendRef → Made BackendRef BackendSource → Made BackendRef BackendSource
add_backend p (err e) rest = record rest { errors = e ∷ rest.errors }
add_backend p (ok r) rest = record rest {
  items = r ∷ rest.items;
  sources = path_source p ∷ rest.sources;
}

-- `configureBackendRef` and `configureGRPCBackendRef`, which differ only in the type of the
-- reference; the number is the index of the first path.
unfoldable pub configure_backend_ref :
    String → ServicePorts → ℕ → List IngressPath → Go (Made BackendRef BackendSource)
unfolding add_backend
configure_backend_ref namespace service_ports i [] = done nothing_made
configure_backend_ref namespace service_ports i (p ∷ paths) = do
  r ←
      to_backend_ref namespace p.path.backend service_ports
        (index (new_path ("paths" ∷ "backends" ∷ [])) i)
  rest ← configure_backend_ref namespace service_ports (i + 1) paths
  done (add_backend p r rest)

abbrev pub path_field : IngressPath → FieldPath
path_field p =
    index
      (child (child (index (new_path ("spec" ∷ "rules" ∷ [])) p.rule_idx) (p.rule_type ∷ []))
        ("paths" ∷ []))
      p.path_idx

abbrev pub http_rule : HttpRouteMatch → List BackendRef → HttpRouteRule
http_rule m refs = record {
  name = none;
  matches = m ∷ [];
  filters = [];
  backend_refs = refs;
  request_timeout = none;
}

-- The rest of the loop body, after the match.
add_http_rule :
    Result HttpRouteMatch
    → Made BackendRef BackendSource
    → Made HttpRouteRule (List BackendSource)
    → Made HttpRouteRule (List BackendSource)
add_http_rule (err e) made rest = record rest { errors = e ∷ rest.errors }
add_http_rule (ok m) made rest = record {
  items = http_rule m made.items ∷ rest.items;
  sources = made.sources ∷ rest.sources;
  errors = made.errors ++ rest.errors;
}

-- The backends are read only where there is a match.
backends_if_matched :
    Result HttpRouteMatch
    → String
    → ServicePorts
    → List IngressPath
    → Go (Made BackendRef BackendSource)
backends_if_matched (err e) namespace service_ports paths = done nothing_made
backends_if_matched (ok m) namespace service_ports paths =
    configure_backend_ref namespace service_ports 0 paths

-- One key: `paths[0]` panics on an empty list.
http_rule_of :
    String
    → ServicePorts
    → PathConverter
    → List IngressPath
    → Made HttpRouteRule (List BackendSource)
    → Go (Made HttpRouteRule (List BackendSource))
unfolding add_http_rule backends_if_matched
http_rule_of namespace service_ports convert [] rest = panic
http_rule_of namespace service_ports convert (p ∷ paths) rest = do
  m ← to_http_route_match p.path (path_field p) convert
  made ← backends_if_matched m namespace service_ports (p ∷ paths)
  done (add_http_rule m made rest)

http_rules :
    String
    → ServicePorts
    → PathConverter
    → OrderedPaths
    → List String
    → Go (Made HttpRouteRule (List BackendSource))
unfolding http_rule_of
http_rules namespace service_ports convert groups [] = done nothing_made
http_rules namespace service_ports convert groups (key ∷ keys) = do
  rest ← http_rules namespace service_ports convert groups keys
  http_rule_of namespace service_ports convert (lookup_or [] key groups.entries) rest

-- A reference to a Gateway by its name alone.
abbrev pub parent_ref : String → ParentRef
parent_ref name = record {
  group = none;
  namespace = none;
  name = name;
  section_name = none;
  port = none;
}

-- A list with the text, or the empty list for "".
abbrev pub unless_empty : String → List String
unless_empty s = if s == "" then [] else s ∷ []

-- A route with its sources: `httpRouteWithSources` and `grpcRouteWithSources`.
pub record WithSources (R : Type 0) : Type 0 where
  pub route : R
  pub sources : List (List BackendSource)

abbrev pub Converted : Type 0 → Type 0
Converted R = Go (WithSources R × List FieldError)

unfoldable pub to_http_route : RuleGroup → ServicePorts → PathConverter → Converted HttpRoute
unfolding http_rules
to_http_route rg service_ports convert = do
  let groups = group_ingress_paths_by_match_key rg.rules
  made ← http_rules rg.namespace service_ports convert groups groups.keys
  done (
    record {
      route = record {
        namespace = rg.namespace;
        name = route_name rg.name rg.host;
        parent_refs = map parent_ref (unless_empty rg.ingress_class);
        hostnames = unless_empty rg.host;
        rules = made.items;
      };
      sources = made.sources;
    },
    made.errors,
  )

-- The matches of a gRPC rule: none where there is nothing to match.
abbrev pub grpc_matches : GrpcRouteMatch → List GrpcRouteMatch
grpc_matches m = elim m.method [ none ↦ [] | some _ ↦ m ∷ [] ]

add_grpc_rule :
    GrpcRouteMatch
    → Made BackendRef BackendSource
    → Made GrpcRouteRule (List BackendSource)
    → Made GrpcRouteRule (List BackendSource)
add_grpc_rule m made rest = record {
  items = record { matches = grpc_matches m; backend_refs = made.items } ∷ rest.items;
  sources = made.sources ∷ rest.sources;
  errors = made.errors ++ rest.errors;
}

grpc_rule_of :
    String
    → ServicePorts
    → List IngressPath
    → Made GrpcRouteRule (List BackendSource)
    → Go (Made GrpcRouteRule (List BackendSource))
unfolding add_grpc_rule
grpc_rule_of namespace service_ports [] rest = panic
grpc_rule_of namespace service_ports (p ∷ paths) rest = do
  made ← configure_backend_ref namespace service_ports 0 (p ∷ paths)
  done (add_grpc_rule (to_grpc_route_match p.path) made rest)

grpc_rules :
    String
    → ServicePorts
    → OrderedPaths
    → List String
    → Go (Made GrpcRouteRule (List BackendSource))
unfolding grpc_rule_of
grpc_rules namespace service_ports groups [] = done nothing_made
grpc_rules namespace service_ports groups (key ∷ keys) = do
  rest ← grpc_rules namespace service_ports groups keys
  grpc_rule_of namespace service_ports (lookup_or [] key groups.entries) rest

unfoldable pub to_grpc_route : RuleGroup → ServicePorts → Converted GrpcRoute
unfolding grpc_rules
to_grpc_route rg service_ports = do
  let groups = group_ingress_paths_by_match_key rg.rules
  made ← grpc_rules rg.namespace service_ports groups groups.keys
  done (
    record {
      route = record {
        namespace = rg.namespace;
        name = route_name rg.name rg.host;
        parent_refs = map parent_ref (unless_empty rg.ingress_class);
        hostnames = unless_empty rg.host;
        rules = made.items;
      };
      sources = made.sources;
    },
    made.errors,
  )
