-- ===== src/Api/Ingress.antt =====
-- k8s.io/api/networking/v1 and the names of k8s.io/apimachinery/pkg/types. A port number is an
-- int32 that the program only copies, so it is a natural number.
use Prim.Native.Nat.{ℕ}
use Prim.Native.String.{String}
use mathlib.Core.Bool.{Bool, ◌&&◌}
use mathlib.Core.Path.{◌≡◌}
use mathlib.Core.Bool.{true}
use mathlib.Core.Logic.{◌↔◌}
use mathlib.Core.Option.{Option}
use mathlib.Core.List.{List}
use native.Mathlib.Omega.{arith}
use text.Mathlib.Text.{◌==◌ as text_eq}
use text.Mathlib.TextEquality.{eq_iff}
use ingress2gateway.Base.Tests.{Comparable}
use ingress2gateway.Base.Dict.{Dict}

pub record NamespacedName : Type 0 where
  pub namespace : String
  pub name : String

abbrev pub same_name : NamespacedName → NamespacedName → Bool
same_name a b = text_eq a.namespace b.namespace && text_eq a.name b.name

pub same_name_iff : (a b : NamespacedName) → (same_name a b ≡ true) ↔ (a ≡ b)
same_name_iff a b = ground (arith, eq_iff a.namespace b.namespace, eq_iff a.name b.name)

instance abbrev pub namespaced_name_comparable : Comparable NamespacedName
namespaced_name_comparable = record { same = same_name; same_iff = same_name_iff }

pub record ServiceBackendPort : Type 0 where
  pub name : String
  pub number : ℕ

pub record ServiceBackend : Type 0 where
  pub name : String
  pub port : ServiceBackendPort

-- `TypedLocalObjectReference`
pub record ResourceBackend : Type 0 where
  pub api_group : Option String
  pub kind : String
  pub name : String

pub record IngressBackend : Type 0 where
  pub service : Option ServiceBackend
  pub resource : Option ResourceBackend

pub record HttpIngressPath : Type 0 where
  pub path : String
  pub path_type : Option String
  pub backend : IngressBackend

-- `http` is `IngressRuleValue.HTTP.Paths`, absent where `HTTP` is nil.
pub record IngressRule : Type 0 where
  pub host : String
  pub http : Option (List HttpIngressPath)

pub record IngressTls : Type 0 where
  pub hosts : List String
  pub secret_name : String

-- `ObjectMeta` and `Spec` in one record.
pub record Ingress : Type 0 where
  pub namespace : String
  pub name : String
  pub annotations : Dict String String
  pub ingress_class_name : Option String
  pub rules : List IngressRule
  pub tls : List IngressTls
  pub default_backend : Option IngressBackend

-- `v1.ServicePort` and `v1.Service`.
pub record ServicePort : Type 0 where
  pub name : String
  pub port : ℕ

pub record Service : Type 0 where
  pub ports : List ServicePort
