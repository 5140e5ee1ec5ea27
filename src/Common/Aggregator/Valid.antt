-- ===== src/Common/Aggregator/Valid.antt =====
-- Ingresses that the API server would accept give groups that it would accept.
use ingress2gateway.Base.{
  ℕ, ◌+◌, ◌≡◌, refl, Option, none, some, List, [], ◌∷◌, String, ◌==◌, string_comparable, All,
  All-append, Bool-cases, inl, inr,
}
use ingress2gateway.Api.Ingress.{Ingress, IngressRule, HttpIngressPath, IngressBackend}
use ingress2gateway.Common.Names.{get_ingress_class}
use ingress2gateway.Common.Paths.{RuleSource}
use ingress2gateway.Common.Paths.Grouping.{numbered_paths, all_paths}
use ingress2gateway.Common.Aggregator.{
  Protocol, http, grpc, DefaultBackend, Aggregator, rule_group_key, add_rules, add_ingress_rule,
  add_default_backend, add_ingress, add_ingresses, no_groups, aggregate,
}
use ingress2gateway.Common.Aggregator.Grouping.{
  group_rules, keyed_rules, all_keyed_rules, add_ingresses-rules,
}
use ingress2gateway.Common.Routes.Complete.{IsBackend, IsPathType, IsPath}

-- Every path has a backend and a known path type, and the default backend is one.
abbrev pub IsHttpPath : HttpIngressPath → Type 0
IsHttpPath p = IsBackend p.backend × IsPathType p.path_type

abbrev pub AllOf {ℓ} : {A : Type ℓ} → (A → Type 0) → Option A → Type 0
AllOf P none = Unit
AllOf P (some a) = P a

abbrev pub IsRule : IngressRule → Type 0
IsRule rule = AllOf (All IsHttpPath) rule.http

abbrev pub IsIngress : Ingress → Type 0
IsIngress i = All IsRule i.rules × AllOf IsBackend i.default_backend

numbered_paths-All :
    (i j : ℕ) (ingress : Ingress) (ps : List HttpIngressPath)
    → All IsHttpPath ps
    → All IsPath (numbered_paths i j ingress ps)
numbered_paths-All i j ingress [] h = tt
numbered_paths-All i j ingress (p ∷ ps) (q, h) = (q, numbered_paths-All i (j + 1) ingress ps h)

abbrev pub IsSourceRule : RuleSource → Type 0
IsSourceRule s = IsRule s.rule

rule_paths-All :
    (i : ℕ) (ingress : Ingress) (o : Option (List HttpIngressPath))
    → AllOf (All IsHttpPath) o
    → All IsPath (elim o [ none ↦ [] | some paths ↦ numbered_paths i 0 ingress paths ])
rule_paths-All i ingress none h = tt
rule_paths-All i ingress (some ps) h = numbered_paths-All i 0 ingress ps h

pub all_paths-All :
    (i : ℕ) (rules : List RuleSource) → All IsSourceRule rules → All IsPath (all_paths i rules)
all_paths-All i [] h = tt
all_paths-All i (r ∷ rules) (q, h) =
    All-append IsPath _ (all_paths (i + 1) rules) (rule_paths-All i r.ingress r.rule.http q)
      (all_paths-All (i + 1) rules h)

keyed_rules-All :
    (k : String) (p : Protocol) (ingress : Ingress) (rules : List IngressRule)
    → All IsRule rules
    → All IsSourceRule (keyed_rules k p ingress rules)
keyed_rules-All k p ingress [] h = tt
keyed_rules-All k p ingress (r ∷ rules) (q, h) =
    elim (Bool-cases (rule_group_key ingress.namespace (get_ingress_class ingress) r.host p == k)) [
      | inl same ↦ rw same (q, keyed_rules-All k p ingress rules h)
      | inr other ↦ rw other (keyed_rules-All k p ingress rules h)
    ]

all_keyed_rules-All :
    (k : String) (p : Protocol) (is : List Ingress)
    → All IsIngress is
    → All IsSourceRule (all_keyed_rules k p is)
all_keyed_rules-All k p [] h = tt
all_keyed_rules-All k p (i ∷ is) (q, h) =
    All-append IsSourceRule (keyed_rules k p i i.rules) (all_keyed_rules k p is)
      (keyed_rules-All k p i i.rules q.0) (all_keyed_rules-All k p is h)

-- Every group has good rules, and every default backend is one.
pub record IsGood (a : Aggregator) : Type 0 where
  pub groups : (k : String) → All IsSourceRule (group_rules k a)
  pub defaults : All (λ (d : DefaultBackend). IsBackend d.backend) a.default_backends

add_rules-defaults :
    (a : Aggregator) (ingress : Ingress) (class : String) (rules : List IngressRule) (p : Protocol)
    → (add_rules a ingress class rules p).default_backends ≡ a.default_backends
unfolding add_rules add_ingress_rule
add_rules-defaults a ingress class [] p = refl
add_rules-defaults a ingress class (r ∷ rules) p =
    add_rules-defaults (add_ingress_rule a ingress class r p) ingress class rules p

add_default_backend-defaults :
    (a : Aggregator) (ingress : Ingress) (class : String) (o : Option IngressBackend)
    → AllOf IsBackend o
    → All (λ (d : DefaultBackend). IsBackend d.backend) a.default_backends
    → All
        (λ (d : DefaultBackend). IsBackend d.backend)
        (add_default_backend a ingress class o).default_backends
unfolding add_default_backend
add_default_backend-defaults a ingress class none q h = h
add_default_backend-defaults a ingress class (some b) q h =
    All-append (λ (d : DefaultBackend). IsBackend d.backend) a.default_backends _ h (q, tt)

add_ingresses-defaults :
    (a : Aggregator) (is : List Ingress) (p : Protocol)
    → All IsIngress is
    → All (λ (d : DefaultBackend). IsBackend d.backend) a.default_backends
    → All (λ (d : DefaultBackend). IsBackend d.backend) (add_ingresses a is p).default_backends
unfolding add_ingresses add_ingress
add_ingresses-defaults a [] p q h = h
add_ingresses-defaults a (i ∷ is) p (q, qs) h = add_ingresses-defaults (add_ingress a i p) is p qs (
    add_default_backend-defaults (add_rules a i (get_ingress_class i) i.rules p) i
      (get_ingress_class i) i.default_backend q.1
      (rw (add_rules-defaults a i (get_ingress_class i) i.rules p) h))

pub aggregate-IsGood :
    (https grpcs : List Ingress)
    → All IsIngress https
    → All IsIngress grpcs
    → IsGood (aggregate https grpcs)
unfolding aggregate
aggregate-IsGood https grpcs h g = record {
  groups = λ k.
      rw
        (
          add_ingresses-rules (add_ingresses no_groups https http) grpcs grpc k,
          add_ingresses-rules no_groups https http k,
        )
        (All-append IsSourceRule (all_keyed_rules k http https) (all_keyed_rules k grpc grpcs)
          (all_keyed_rules-All k http https h) (all_keyed_rules-All k grpc grpcs g));
  defaults =
      add_ingresses-defaults (add_ingresses no_groups https http) grpcs grpc g
        (add_ingresses-defaults no_groups https http h tt);
}
