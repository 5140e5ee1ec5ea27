-- ===== src/Common/Backends/Laws.antt =====
-- The branches of `ToBackendRef`, and what `GroupServicePortsByPortName` finds.
use ingress2gateway.Base.{
  ℕ, ◌≡◌, refl, ap, ◌∙◌, ◌↔◌, ◌⊎◌, inl, inr, true, false, Option, none, some, List, [], ◌∷◌, map,
  arith, String, ◌==◌, string_comparable, if◌then◌else◌, done, panic, Option-cases, Bool-cases,
  distinct, contains,
}
use ingress2gateway.Base.Dict.{Dict, lookup, insert, lookup-insert}
use ingress2gateway.Base.Text.{◌+++◌}
use ingress2gateway.Api.Field.{FieldPath, child, FieldError, invalid, ok, err}
use ingress2gateway.Api.Ingress.{
  NamespacedName, namespaced_name_comparable, same_name_iff, ServiceBackend, ResourceBackend,
  IngressBackend, Service, ServicePort,
}
use ingress2gateway.Api.Gateway.{BackendRef}
use ingress2gateway.Common.Backends.{
  ServicePorts, port_number, service_ref, resource_ref, named_port_ref, to_backend_ref,
  ports_by_name, group_services, group_service_ports_by_port_name,
}

-- The port that a service backend stands for: its number, or the number of its named port.
abbrev pub resolved_port : ServicePorts → String → ServiceBackend → Option ℕ
resolved_port service_ports namespace s =
    if s.port.name == ""
    then some s.port.number
    else port_number service_ports namespace s.name s.port.name

-- The error for a port name that the service lacks.
abbrev pub missing_port : ServiceBackend → FieldPath → FieldError
missing_port s path =
    invalid (child path ("service" ∷ "port" ∷ []))
      ("cannot find port with name " +++ s.port.name +++ " in service " +++ s.name)

-- A backend reference is made exactly as the backend says.
abbrev pub Refers : ServicePorts → String → IngressBackend → BackendRef → Type 0
Refers service_ports namespace ib r =
    ((s : ServiceBackend) × (n : ℕ) × (ib.service ≡ some s)
      × (resolved_port service_ports namespace s ≡ some n)
      × (r ≡ service_ref s.name n))
    ⊎ ((q : ResourceBackend) × (ib.service ≡ none) × (ib.resource ≡ some q) × (r ≡ resource_ref q))

module _ (service_ports : ServicePorts) (namespace : String) (ib : IngressBackend)
    (path : FieldPath) where
  -- A reference is returned only for a service whose port is a number or a port name that the
  -- service has, or for a resource, and it names just that service and port, or that resource.
  pub to_backend_ref-Refers :
      (r : BackendRef)
      → to_backend_ref namespace ib service_ports path ≡ done (ok r)
      → Refers service_ports namespace ib r
  unfolding to_backend_ref named_port_ref
  to_backend_ref-Refers r h = elim (Option-cases ib.service) [
    | inl no_service ↦ elim (Option-cases ib.resource) [
      | inl no_resource ↦ ground arith
      | inr (q, e) ↦ inr (q, no_service, e, ground arith)
    ]
    | inr (s, e) ↦ elim (Bool-cases (s.port.name == "")) [
      | inl numbered ↦ inl (s, s.port.number, e, rw numbered, ground arith)
      | inr named ↦ elim (Option-cases (port_number service_ports namespace s.name s.port.name)) [
        | inl missing ↦ ground arith
        | inr (n, found) ↦ inl (s, n, e, rw (named, found), ground arith)
      ]
    ]
  ]

  -- The call panics exactly for a backend with neither a service nor a resource, and returns an
  -- error exactly for a service that lacks the port that is asked for by name; the error names both.
  pub to_backend_ref_fails :
      (e : FieldError)
      → ((to_backend_ref namespace ib service_ports path ≡ panic)
          ↔ ((ib.service ≡ none) × (ib.resource ≡ none)))
        × ((to_backend_ref namespace ib service_ports path ≡ done (err e)) ↔ (
            (s : ServiceBackend) × (ib.service ≡ some s)
            × (resolved_port service_ports namespace s ≡ none)
            × (e ≡ missing_port s path)))
  unfolding to_backend_ref named_port_ref
  to_backend_ref_fails e = ((λ h. (ground arith, ground arith), λ h. ground arith), (to, from))
    where
      to :
          to_backend_ref namespace ib service_ports path ≡ done (err e)
          → (s : ServiceBackend) × (ib.service ≡ some s)
            × (resolved_port service_ports namespace s ≡ none)
            × (e ≡ missing_port s path)
      to h = elim (Option-cases ib.service) [
        | inl no_service ↦ ground arith
        | inr (s, is_s) ↦ elim (Bool-cases (s.port.name == "")) [
          | inl numbered ↦ ground arith
          | inr named ↦
              elim (Option-cases (port_number service_ports namespace s.name s.port.name)) [
                | inl missing ↦ (s, is_s, rw (named, missing), ground arith)
                | inr (n, found) ↦ ground arith
              ]
        ]
      ]

      from :
          ((s : ServiceBackend) × (ib.service ≡ some s)
            × (resolved_port service_ports namespace s ≡ none)
            × (e ≡ missing_port s path))
          → to_backend_ref namespace ib service_ports path ≡ done (err e)
      from (s, is_s, unresolved, same) = ground arith

-- The number of the last port of the list with that name.
abbrev pub last_port : String → List ServicePort → Option ℕ
last_port name [] = none
last_port name (p ∷ ps) = elim (last_port name ps) [
  | some n ↦ some n
  | none ↦ if p.name == name then some p.port else none
]

or_else : Option ℕ → Option ℕ → Option ℕ
or_else none other = other
or_else (some n) other = some n

ports_by_name_lem :
    (m : Dict String ℕ) (ps : List ServicePort) (name : String)
    → lookup name (ports_by_name m ps) ≡ or_else (last_port name ps) (lookup name m)
unfolding ports_by_name or_else
ports_by_name_lem m [] name = refl
ports_by_name_lem m (p ∷ ps) name =
    ports_by_name_lem (insert p.name p.port m) ps name
    ∙ ground (arith, lookup-insert p.name name p.port m)

abbrev pub keys_of {ℓ} : {V : Type ℓ} → Dict NamespacedName V → List NamespacedName
keys_of services = map (λ e. e.0) services

abbrev port_map : Option Service → Option (Dict String ℕ) → Option (Dict String ℕ)
port_map none other = other
port_map (some service) other = some (ports_by_name [] service.ports)

lookup_missing :
    {V : Type 0} (nn : NamespacedName) (services : Dict NamespacedName V)
    → contains nn (keys_of services) ≡ false
    → lookup nn services ≡ none
lookup_missing nn [] h = refl
lookup_missing nn ((k, v) ∷ rest) h =
    ground (arith, lookup_missing nn rest, same_name_iff nn k, same_name_iff k nn)

group_services_lem :
    (acc : ServicePorts) (services : Dict NamespacedName Service) (nn : NamespacedName)
    → distinct (keys_of services) ≡ true
    → lookup nn (group_services acc services) ≡ port_map (lookup nn services) (lookup nn acc)
unfolding group_services
group_services_lem acc [] nn d = refl
group_services_lem acc ((k, service) ∷ rest) nn d =
    group_services_lem (insert k (ports_by_name [] service.ports) acc) rest nn (ground arith)
    ∙ ground (
      arith,
      lookup-insert k nn (ports_by_name [] service.ports) acc,
      same_name_iff k nn,
      lookup_missing k rest,
    )

abbrev pub last_port_of : String → Option Service → Option ℕ
last_port_of name none = none
last_port_of name (some s) = last_port name s.ports

found_port : String → Option (Dict String ℕ) → Option ℕ
found_port name none = none
found_port name (some ports) = lookup name ports

found_port-port_map :
    (name : String) (o : Option Service) → found_port name (port_map o none) ≡ last_port_of name o
unfolding found_port or_else
found_port-port_map name none = refl
found_port-port_map name (some s) =
    ports_by_name_lem [] s.ports name ∙ or_none (last_port name s.ports)
  where
    or_none : (o : Option ℕ) → or_else o none ≡ o
    or_none o = ground arith

port_number_lem :
    (m : ServicePorts) (namespace service name : String)
    → port_number m namespace service name
      ≡ found_port name (lookup (record { namespace = namespace; name = service }) m)
unfolding port_number found_port
port_number_lem m namespace service name = ground arith

-- The port that is found for a service and a port name is the last of the service's ports with
-- that name, and nothing is found for a service that is not there; no two services have one key.
pub port_number-group_service_ports :
    (services : Dict NamespacedName Service) (namespace service name : String)
    → distinct (keys_of services) ≡ true
    → port_number (group_service_ports_by_port_name services) namespace service name
      ≡ last_port_of name (lookup (record { namespace = namespace; name = service }) services)
unfolding group_service_ports_by_port_name
port_number-group_service_ports services namespace service name d =
    port_number_lem (group_services [] services) namespace service name
    ∙ ap (found_port name)
        (group_services_lem [] services (record { namespace = namespace; name = service }) d)
    ∙ found_port-port_map name (lookup (record { namespace = namespace; name = service }) services)
