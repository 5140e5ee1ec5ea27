-- ===== src/Tests/Data.antt =====
-- An Ingress with a default backend and three paths, two of them the same.
use ingress2gateway.Base.{ℕ, none, some, [], ◌∷◌, String, string_comparable}
use ingress2gateway.Api.Ingress.{
  Ingress, HttpIngressPath, IngressBackend, namespaced_name_comparable,
}
use ingress2gateway.Common.Backends.{ServicePorts}

abbrev pub service_backend : String → String → ℕ → IngressBackend
service_backend name port_name number = record {
  service = some (record { name = name; port = record { name = port_name; number = number } });
  resource = none;
}

abbrev pub path_to : String → IngressBackend → HttpIngressPath
path_to path backend = record { path = path; path_type = some "Prefix"; backend = backend }

abbrev pub shop : Ingress
shop = record {
  namespace = "store";
  name = "shop";
  annotations = [];
  ingress_class_name = some "nginx";
  rules =
      record {
        host = "a.example";
        http = some (
            path_to "/cart" (service_backend "cart" "web" 0)
            ∷ path_to "/pay" (service_backend "pay" "" 8080)
            ∷ path_to "/cart" (service_backend "cart2" "" 81)
            ∷ []);
      }
      ∷ [];
  tls = record { hosts = "a.example" ∷ []; secret_name = "cert" } ∷ [];
  default_backend = some (service_backend "fallback" "" 80);
}

abbrev pub ports : ServicePorts
ports = (record { namespace = "store"; name = "cart" }, ("web", 9090) ∷ []) ∷ []
