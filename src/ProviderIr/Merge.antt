-- ===== src/ProviderIr/Merge.antt =====
-- pkg/i2gw/provider_intermediate/utils.go: several IRs become one.
pub mod Laws
use ingress2gateway.Base.{
  ℕ, Bool, true, false, Option, none, some, List, [], ◌∷◌, ◌++◌, String, if◌then◌else◌, ltb, length,
  Go, done, panic, ◌>>=◌,
}
use ingress2gateway.Base.Dict.{Dict, lookup, insert, copy_into}
use ingress2gateway.Base.Text.{◌+++◌}
use ingress2gateway.Api.Field.{FieldError, FieldPath, invalid, new_path, child}
use ingress2gateway.Api.Ingress.{NamespacedName, namespaced_name_comparable}
use ingress2gateway.Api.Gateway.{Gateway}
use ingress2gateway.ProviderIr.{ProviderIr, GatewayContext, ServiceIr, empty_ir}

abbrev pub Merged : Type 0
Merged = Dict NamespacedName GatewayContext × List FieldError

abbrev pub name_of : Gateway → NamespacedName
name_of g = record { namespace = g.namespace; name = g.name }

-- The listeners and addresses of an earlier Gateway of the same name are appended.
abbrev pub extend_gateway : Gateway → Option GatewayContext → Gateway
extend_gateway g none = g
extend_gateway g (some c) = record g {
  listeners = g.listeners ++ c.gateway.listeners;
  addresses = g.addresses ++ c.gateway.addresses;
}

abbrev pub spec_path : Gateway → String → FieldPath
spec_path g field =
    child (child (new_path ((g.namespace +++ "/" +++ g.name) ∷ [])) ("spec" ∷ [])) (field ∷ [])

abbrev pub size_errors : Gateway → List FieldError
size_errors g =
    (if ltb 64 (length g.listeners)
      then invalid (spec_path g "listeners")
          "error while merging gateway listeners: a gateway cannot have more than 64 listeners"
        ∷ []
      else [])
    ++ (if ltb 16 (length g.addresses)
        then invalid (spec_path g "addresses")
            "error while merging gateway listeners: a gateway cannot have more than 16 addresses"
          ∷ []
        else [])

-- The body of the inner loop. The new context has no extension of a provider.
abbrev pub add_extended : Merged → Gateway → Merged
add_extended (m, errs) g =
    (insert (name_of g) (record { gateway = g; gce = none }) m, errs ++ size_errors g)

abbrev pub add_context : Merged → GatewayContext → Merged
add_context acc c = add_extended acc (extend_gateway c.gateway (lookup (name_of c.gateway) acc.0))

abbrev pub add_contexts : Merged → Dict NamespacedName GatewayContext → Merged
add_contexts acc [] = acc
add_contexts acc ((k, c) ∷ cs) = add_contexts (add_context acc c) cs

abbrev pub add_irs : Merged → List ProviderIr → Merged
add_irs acc [] = acc
add_irs acc (ir ∷ irs) = add_irs (add_contexts acc ir.gateways) irs

-- `mergeGatewayContexts`
unfoldable pub merge_gateway_contexts : List ProviderIr → Merged
merge_gateway_contexts irs = add_irs ([], []) irs

-- `maps.Copy` between maps that may be nil: an assignment to an entry of a nil map panics.
abbrev pub copy_services :
    Option (Dict NamespacedName ServiceIr)
    → Option (Dict NamespacedName ServiceIr)
    → Go (Option (Dict NamespacedName ServiceIr))
copy_services dst none = done dst
copy_services dst (some []) = done dst
copy_services none (some (s ∷ src)) = panic
copy_services (some dst) (some (s ∷ src)) = done (some (copy_into dst (s ∷ src)))

-- The body of the second loop of `MergeIRs`.
abbrev pub copy_ir : ProviderIr → ProviderIr → Go ProviderIr
copy_ir merged ir = copy_services merged.services ir.services >>= λ services. done (record merged {
  gateway_classes = copy_into merged.gateway_classes ir.gateway_classes;
  http_routes = copy_into merged.http_routes ir.http_routes;
  services = services;
  tls_routes = copy_into merged.tls_routes ir.tls_routes;
  tcp_routes = copy_into merged.tcp_routes ir.tcp_routes;
  udp_routes = copy_into merged.udp_routes ir.udp_routes;
  grpc_routes = copy_into merged.grpc_routes ir.grpc_routes;
  backend_tls_policies = copy_into merged.backend_tls_policies ir.backend_tls_policies;
  reference_grants = copy_into merged.reference_grants ir.reference_grants;
})

unfoldable pub copy_irs : ProviderIr → List ProviderIr → Go ProviderIr
copy_irs merged [] = done merged
copy_irs merged (ir ∷ irs) = copy_ir merged ir >>= λ merged'. copy_irs merged' irs

unfoldable pub merge_if_sound : List ProviderIr → Merged → Go (ProviderIr × List FieldError)
merge_if_sound irs (gateways, []) =
    copy_irs (record empty_ir { gateways = gateways }) irs >>= λ ir. done (ir, [])
merge_if_sound irs (gateways, e ∷ errs) = done (empty_ir, e ∷ errs)

-- `MergeIRs`
unfoldable pub merge_irs : List ProviderIr → Go (ProviderIr × List FieldError)
merge_irs irs = merge_if_sound irs (merge_gateway_contexts irs)
