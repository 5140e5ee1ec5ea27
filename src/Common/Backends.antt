-- ===== src/Common/Backends.antt =====
-- pkg/i2gw/providers/common/utils.go: the backend of a path, and the port numbers of services.
pub mod Laws
use ingress2gateway.Base.{
  ℕ, ◌≡◌, refl, Bool, true, false, not, Option, none, some, List, [], ◌∷◌, arith, String, ◌==◌,
  string_comparable, if◌then◌else◌, Go, done, panic,
}
use ingress2gateway.Base.Dict.{Dict, lookup, insert}
use ingress2gateway.Base.Text.{◌+++◌}
use ingress2gateway.Api.Field.{FieldPath, child, FieldError, invalid, Result, ok, err}
use ingress2gateway.Api.Ingress.{
  NamespacedName, namespaced_name_comparable, ServiceBackend, ResourceBackend, IngressBackend,
  Service, ServicePort,
}
use ingress2gateway.Api.Gateway.{BackendRef}

-- `map[types.NamespacedName]map[string]int32`
abbrev pub ServicePorts : Type 0
ServicePorts = Dict NamespacedName (Dict String ℕ)

-- `servicePorts[NamespacedName{...}][name]`: a lookup in a missing map finds nothing.
unfoldable pub port_number : ServicePorts → String → String → String → Option ℕ
port_number service_ports namespace service name =
    elim (lookup (record { namespace = namespace; name = service }) service_ports) [
      | none ↦ none
      | some ports ↦ lookup name ports
    ]

abbrev pub service_ref : String → ℕ → BackendRef
service_ref name port = record {
  group = none;
  kind = none;
  name = name;
  port = some port;
  weight = none;
}

abbrev pub resource_ref : ResourceBackend → BackendRef
resource_ref r = record {
  group = r.api_group;
  kind = some r.kind;
  name = r.name;
  port = none;
  weight = none;
}

-- The branch for a port that is given by name.
unfoldable pub named_port_ref : ServiceBackend → Option ℕ → FieldPath → Result BackendRef
named_port_ref s none path = err (
    invalid (child path ("service" ∷ "port" ∷ []))
      ("cannot find port with name " +++ s.port.name +++ " in service " +++ s.name))
named_port_ref s (some number) path = ok (service_ref s.name number)

-- A backend with neither a service nor a resource is a nil pointer.
unfoldable pub to_backend_ref :
    String → IngressBackend → ServicePorts → FieldPath → Go (Result BackendRef)
to_backend_ref namespace ib service_ports path = elim ib.service [
  | some s ↦
      if s.port.name == ""
      then done (ok (service_ref s.name s.port.number))
      else done (named_port_ref s (port_number service_ports namespace s.name s.port.name) path)
  | none ↦ elim ib.resource [ none ↦ panic | some r ↦ done (ok (resource_ref r)) ]
]

-- The inner loop of `GroupServicePortsByPortName`.
unfoldable pub ports_by_name : Dict String ℕ → List ServicePort → Dict String ℕ
ports_by_name m [] = m
ports_by_name m (p ∷ ps) = ports_by_name (insert p.name p.port m) ps

group_services : ServicePorts → Dict NamespacedName Service → ServicePorts
group_services acc [] = acc
group_services acc ((nn, service) ∷ rest) =
    group_services (insert nn (ports_by_name [] service.ports) acc) rest

unfoldable pub group_service_ports_by_port_name : Dict NamespacedName Service → ServicePorts
unfolding group_services
group_service_ports_by_port_name services = group_services [] services
