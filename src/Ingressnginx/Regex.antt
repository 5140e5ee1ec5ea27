-- ===== src/Ingressnginx/Regex.antt =====
-- pkg/i2gw/providers/ingressnginx/regex.go.
pub mod Laws
use ingress2gateway.Base.{
  ℕ, nat_comparable, Bool, true, false, ◌&&◌, ◌||◌, not, Option, none, some, List, [], ◌∷◌, ◌++◌,
  String, string_comparable, ◌==◌, contains, if◌then◌else◌, Go, done, panic, ◌>>=◌,
}
use ingress2gateway.Base.Dict.{Dict, lookup, insert}
use ingress2gateway.Base.Text.{◌+++◌}
use ingress2gateway.Base.Strings.{parse_bool, bool_or_false}
use ingress2gateway.Api.Ingress.{Ingress, IngressRule}
use ingress2gateway.Api.Gateway.{HttpPathMatch}
use ingress2gateway.Ingressnginx.Annotations.{
  Notice, inform, annotation, use_regex_annotation, rewrite_target_annotation,
}
use ingress2gateway.Ingressnginx.Sources.{is_canary_ingress}

-- Whether the Ingress makes its hosts use regular expressions.
abbrev pub drives_regex : Ingress → Bool
drives_regex ingress =
    not (is_canary_ingress ingress)
    && (bool_or_false (parse_bool (annotation use_regex_annotation ingress))
        || not (annotation rewrite_target_annotation ingress == ""))

abbrev pub hosts_of_rules : List IngressRule → List String
hosts_of_rules [] = []
hosts_of_rules (rule ∷ rules) =
    let rest = hosts_of_rules rules in if rule.host == "" then rest else rule.host ∷ rest

-- `regexHosts`: the keys of the map, which may repeat here.
unfoldable pub regex_hosts : List Ingress → List String
regex_hosts [] = []
regex_hosts (ingress ∷ ingresses) =
    let rest = regex_hosts ingresses in
    if drives_regex ingress then hosts_of_rules ingress.rules ++ rest else rest

-- The loop that sets `hasRegex`: some hostname is among the hosts.
abbrev pub has_host_in : List String → List String → Bool
has_host_in hosts [] = false
has_host_in hosts (h ∷ hs) = contains h hosts || has_host_in hosts hs

-- The path objects in memory, by address. Routes hold pointers to them: a rule that `canaryFeature`
-- adds for a header has the pointer of the rule that it was made from.
abbrev pub Store : Type 0
Store = Dict ℕ HttpPathMatch

-- What the feature reads of an HTTPRoute: its hostnames, and for each match of each rule its pointer
-- to a path, absent where it is nil.
pub record RouteInMemory : Type 0 where
  pub hostnames : List String
  pub paths : List (List (Option ℕ))

abbrev pub regex_value : String → String
regex_value value = "(?i)" +++ value +++ ".*"

-- The two assignments: a path without a value panics.
abbrev pub regex_path : Option String → Go HttpPathMatch
regex_path none = panic
regex_path (some value) =
    done (record { type = some "RegularExpression"; value = some (regex_value value) })

-- The assignments through a pointer.
abbrev pub regex_at : ℕ → Store → Option HttpPathMatch → Go Store
regex_at a store none = panic
regex_at a store (some path) = regex_path path.value >>= λ path'. done (insert a path' store)

-- The loop over the matches of a rule, and the loop over the rules.
unfoldable pub regex_matches : List (Option ℕ) → Store → Go Store
regex_matches [] store = done store
regex_matches (none ∷ paths) store = regex_matches paths store
regex_matches (some a ∷ paths) store =
    regex_at a store (lookup a store) >>= λ store'. regex_matches paths store'

unfoldable pub regex_rules : List (List (Option ℕ)) → Store → Go Store
unfolding regex_matches
regex_rules [] store = done store
regex_rules (paths ∷ rules) store = regex_matches paths store >>= λ store'. regex_rules rules store'

abbrev pub regex_notice : Notice
regex_notice = inform "Using case-insensitive regex path matches. You may want to change this." []

-- The loop over the HTTPRoutes.
unfoldable pub regex_routes : List String → List RouteInMemory → Store → Go (Store × List Notice)
unfolding regex_rules
regex_routes hosts [] store = done (store, [])
regex_routes hosts (r ∷ routes) store =
    let skipped = regex_routes hosts routes store in
    if has_host_in hosts r.hostnames
    then (regex_rules r.paths store >>= λ store'.
        regex_routes hosts routes store' >>= λ y. done (y.0, regex_notice ∷ y.1))
    else skipped

-- `regexFeature`
unfoldable pub regex_feature : List Ingress → List RouteInMemory → Store → Go (Store × List Notice)
unfolding regex_hosts regex_routes
regex_feature ingresses routes store = regex_routes (regex_hosts ingresses) routes store
