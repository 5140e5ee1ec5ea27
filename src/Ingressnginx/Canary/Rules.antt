-- ===== src/Ingressnginx/Canary/Rules.antt =====
-- `canaryFeature` of pkg/i2gw/providers/ingressnginx/canary.go: the weights and the header rules of
-- the routes of every rule group. An index out of range panics.
use ingress2gateway.Base.{
  ℕ, ◌+◌, zero, suc, Bool, true, false, ◌||◌, not, Option, none, some, List, [], ◌∷◌, ◌++◌, String,
  ◌==◌, string_comparable, if◌then◌else◌, eqb, Go, done, panic, ◌>>=◌, get_elem?,
}
use ingress2gateway.Base.Int.{ℤ}
use ingress2gateway.Api.Field.{FieldError}
use ingress2gateway.Api.Ingress.{namespaced_name_comparable}
use ingress2gateway.Api.Gateway.{BackendRef, HttpPathMatch, HttpRouteMatch, HttpRouteRule}
use ingress2gateway.ProviderIr.{BackendSource}
use ingress2gateway.Ingressnginx.Canary.{CanaryConfig, Notice}
use ingress2gateway.Ingressnginx.Canary.Backends.{CanaryInfo, get_canary_info}

-- `xs[i]`
abbrev pub nth {ℓ} : {A : Type ℓ} → List A → ℕ → Go A
nth xs i = elim (get_elem? xs i) [ none ↦ panic | some x ↦ done x ]

-- `refs[i].Weight = &w`
unfoldable pub set_weight : List BackendRef → ℕ → ℤ → Go (List BackendRef)
set_weight [] i w = panic
set_weight (r ∷ refs) zero w = done (record r { weight = some w } ∷ refs)
set_weight (r ∷ refs) (suc i) w = set_weight refs i w >>= λ refs'. done (r ∷ refs')

abbrev pub first_path : List HttpRouteMatch → Option HttpPathMatch
first_path [] = none
first_path (m ∷ matches) = m.path

-- `createHeaderMatchRule`
unfoldable pub create_header_match_rule :
    String → String → List HttpRouteMatch → BackendRef → HttpRouteRule
create_header_match_rule header value existing_matches backend = record {
  name = none;
  matches =
      record {
        path = first_path existing_matches;
        headers = record { name = header; value = value } ∷ [];
      }
      ∷ [];
  filters = [];
  backend_refs = backend ∷ [];
  request_timeout = none;
}

-- The backends other than the canary, from the `i`th on, and their sources.
unfoldable pub without_canary :
    ℕ → ℕ → List BackendRef → List BackendSource → Go (List BackendRef × List BackendSource)
without_canary c i [] sources = done ([], [])
without_canary c i (r ∷ refs) sources = without_canary c (i + 1) refs sources >>= λ rest.
    if eqb i c then done rest else (nth sources i >>= (λ s. done (r ∷ rest.0, s ∷ rest.1)))

-- A rule and its sources, with the rules and sources to add to the route.
pub record RuleChange : Type 0 where
  pub rule : HttpRouteRule
  pub sources : List BackendSource
  pub rules_to_add : List HttpRouteRule
  pub sources_to_add : List (List BackendSource)

abbrev pub set_weights : CanaryInfo → ℕ → ℕ → List BackendRef → Go (List BackendRef)
set_weights info c n refs =
    if info.config.is_weight || not info.config.is_header
    then (set_weight refs c info.canary_weight
        >>= (λ refs'. set_weight refs' n info.non_canary_weight))
    else done refs

abbrev pub unweighted : BackendRef → BackendRef
unweighted r = record r { weight = none }

-- The rule and the sources that are left, without the canary if there is no weight.
abbrev pub remove_canary :
    Bool
    → ℕ
    → HttpRouteRule
    → List BackendRef
    → List BackendSource
    → Go (HttpRouteRule × List BackendSource)
remove_canary true c rule refs sources = done (record rule { backend_refs = refs }, sources)
remove_canary false c rule refs sources =
    without_canary c 0 refs sources >>= λ kept. done (record rule { backend_refs = kept.0 }, kept.1)

-- The branch on a header.
unfoldable pub split_header :
    CanaryConfig → ℕ → ℕ → HttpRouteRule → List BackendRef → List BackendSource → Go RuleChange
split_header config c n rule refs sources = nth refs c >>= (λ canary. nth refs n >>= (λ non_canary.
    nth sources c >>= (λ canary_source. nth sources n >>= (λ non_canary_source.
      remove_canary config.is_weight c rule refs sources >>= (λ left.
        let value = if config.header_value == "" then "always" else config.header_value in
        done (record {
          rule = left.0;
          sources = left.1;
          rules_to_add =
              create_header_match_rule config.header value rule.matches (unweighted canary)
              ∷ (if config.header_value == ""
                  then create_header_match_rule config.header "never" rule.matches
                      (unweighted non_canary)
                    ∷ []
                  else []);
          sources_to_add =
              (canary_source ∷ non_canary_source ∷ [])
              ∷ (if config.header_value == "" then (non_canary_source ∷ []) ∷ [] else []);
        }))))))

unfoldable pub change_rule :
    CanaryInfo → Option (ℕ × ℕ) → HttpRouteRule → List BackendSource → Go RuleChange
change_rule info none rule sources =
    done (record { rule = rule; sources = sources; rules_to_add = []; sources_to_add = [] })
change_rule info (some (c, n)) rule sources = set_weights info c n rule.backend_refs >>= λ refs.
    let plain : RuleChange = record {
      rule = record rule { backend_refs = refs };
      sources = sources;
      rules_to_add = [];
      sources_to_add = [];
    } in
    let header = split_header info.config c n rule refs sources in
    if info.config.is_header then header else done plain

pub record RouteChange : Type 0 where
  pub rules : List HttpRouteRule
  pub sources : List (List BackendSource)
  pub rules_to_add : List HttpRouteRule
  pub sources_to_add : List (List BackendSource)
  pub errors : List FieldError
  pub notices : List Notice

abbrev pub prepend_change : RuleChange → CanaryInfo → RouteChange → RouteChange
prepend_change x info y = record {
  rules = x.rule ∷ y.rules;
  sources = x.sources ∷ y.sources;
  rules_to_add = x.rules_to_add ++ y.rules_to_add;
  sources_to_add = x.sources_to_add ++ y.sources_to_add;
  errors = info.errors ++ y.errors;
  notices = info.notices ++ y.notices;
}

-- The loop over the rules of an HTTPRoute, from the `i`th on.
unfoldable pub change_rules :
    String → ℕ → List HttpRouteRule → List (List BackendSource) → Go RouteChange
change_rules name i [] sources = done (record {
  rules = [];
  sources = sources;
  rules_to_add = [];
  sources_to_add = [];
  errors = [];
  notices = [];
})
change_rules name i (rule ∷ rules) [] = panic
change_rules name i (rule ∷ rules) (srcs ∷ sources) =
    let info = get_canary_info srcs "httproute" name i in
    change_rule info info.indices rule srcs >>= λ x.
    change_rules name (i + 1) rules sources >>= λ y. done (prepend_change x info y)
