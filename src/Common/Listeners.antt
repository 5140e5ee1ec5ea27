-- ===== src/Common/Listeners.antt =====
-- pkg/i2gw/providers/common/converter.go: the listeners of a Gateway, merged by name. A set of
-- names is the list of its members in the order in which they came.
pub mod Unique
use ingress2gateway.Base.{
  ℕ, ◌≡◌, refl, Bool, true, false, ◌||◌, not, Option, none, some, List, [], ◌∷◌, ◌++◌, String, ◌==◌,
  if◌then◌else◌, string_comparable, contains, Go, done, panic, ◌>>=◌,
}
use ingress2gateway.Base.Dict.{Dict, lookup, insert}
use ingress2gateway.Base.Text.{◌+++◌}
use ingress2gateway.Api.Ingress.{IngressTls}
use ingress2gateway.Api.Gateway.{SecretRef, Listener}
use ingress2gateway.Common.Names.{name_from_host}
use ingress2gateway.Common.Aggregator.{RuleGroup}

-- `certNames`: the names of the secrets, each once.
unfoldable pub add_names : List String → List IngressTls → List String
add_names names [] = names
add_names names (t ∷ tls) =
    add_names (if contains t.secret_name names then names else names ++ t.secret_name ∷ []) tls

abbrev pub secret_ref : String → SecretRef
secret_ref name = record { group = some ""; kind = some "Secret"; name = name }

unfoldable pub secret_refs : List String → List SecretRef
secret_refs [] = []
secret_refs (name ∷ names) = secret_ref name ∷ secret_refs names

-- The host of the only TLS entry, if it has one host.
sole_host : List IngressTls → Option String
sole_host (t ∷ []) = elim t.hosts [ h ∷ rest ↦ elim rest [ [] ↦ some h | _ ↦ none ] | [] ↦ none ]
sole_host _ = none

-- The nameless listener of a rule group.
unfoldable pub group_listener : RuleGroup → Listener
unfolding sole_host add_names secret_refs
group_listener rg = record {
  name = "";
  hostname = if not (rg.host == "") then some rg.host else sole_host rg.tls;
  port = 0;
  protocol = "";
  tls = elim rg.tls [ [] ↦ none | _ ∷ _ ↦ some (secret_refs (add_names [] rg.tls)) ];
  mode = none;
}

-- `uniqueListeners` and `orderedNames`.
pub record Named : Type 0 where
  pub unique : Dict String Listener
  pub ordered : List String

host_prefix : Option String → String
host_prefix none = ""
host_prefix (some h) = if not (h == "") then name_from_host h +++ "-" else ""

unfoldable pub listener_prefix : Listener → String
unfolding host_prefix
listener_prefix l = host_prefix l.hostname

-- A listener is added under its name if there is none of that name.
unfoldable pub add_if_new : String → Listener → Named → Named
add_if_new name l acc = elim (lookup name acc.unique) [
  | some _ ↦ acc
  | none ↦ record { unique = insert name l acc.unique; ordered = acc.ordered ++ name ∷ [] }
]

-- `uniqueListeners[name].TLS.CertificateRefs = append(...)`, where a missing listener and a
-- missing TLS configuration are nil pointers.
append_refs : Listener → Option (List SecretRef) → List SecretRef → Go Listener
append_refs l none refs = panic
append_refs l (some old) refs = done (record l { tls = some (old ++ refs) })

unfoldable pub merge_refs : String → List SecretRef → Named → Go Named
unfolding append_refs
merge_refs name refs acc = elim (lookup name acc.unique) [
  | none ↦ panic
  | some l ↦ do
    l' ← append_refs l l.tls refs
    done (record acc { unique = insert name l' acc.unique })
]

abbrev pub http_listener : String → Option String → Listener
http_listener name host = record {
  name = name;
  hostname = host;
  port = 80;
  protocol = "HTTP";
  tls = none;
  mode = none;
}

abbrev pub https_listener : String → Option String → Listener
https_listener name host = record {
  name = name;
  hostname = host;
  port = 443;
  protocol = "HTTPS";
  tls = some [];
  mode = none;
}

add_https : String → Option String → Option (List SecretRef) → Named → Go Named
add_https prefix host none acc = done acc
add_https prefix host (some refs) acc =
    let name = prefix +++ "https" in
    merge_refs name refs (add_if_new name (https_listener name host) acc)

-- The body of the loop over the listeners of a key.
unfoldable pub add_listener : Named → Listener → Go Named
unfolding add_https
add_listener acc l =
    let prefix = listener_prefix l in
    let name = prefix +++ "http" in
    add_https prefix l.hostname l.tls (add_if_new name (http_listener name l.hostname) acc)

unfoldable pub add_listeners : Named → List Listener → Go Named
unfolding add_listener
add_listeners acc [] = done acc
add_listeners acc (l ∷ ls) = do acc' ← add_listener acc l; add_listeners acc' ls

-- `uniqueRefs`: the references whose name has not been seen.
unfoldable pub dedup_refs : List String → List SecretRef → List SecretRef
dedup_refs seen [] = []
dedup_refs seen (r ∷ refs) =
    let rest = dedup_refs (if contains r.name seen then seen else seen ++ r.name ∷ []) refs in
    if contains r.name seen then rest else r ∷ rest

-- An empty list of references is left as it is.
unfoldable pub dedup_tls : Listener → Listener
unfolding dedup_refs
dedup_tls l = elim l.tls [ none ↦ l | some refs ↦ record l { tls = some (dedup_refs [] refs) } ]

-- A name without a listener is a nil pointer.
unfoldable pub collect : Dict String Listener → List String → Go (List Listener)
unfolding dedup_tls
collect unique [] = done []
collect unique (name ∷ names) = elim (lookup name unique) [
  | none ↦ panic
  | some l ↦ do rest ← collect unique names; done (dedup_tls l ∷ rest)
]

-- The listeners of a Gateway from the listeners of its rule groups.
unfoldable pub merge_listeners : List Listener → Go (List Listener)
unfolding add_listeners collect
merge_listeners ls = do
  acc ← add_listeners (record { unique = []; ordered = [] }) ls
  collect acc.unique acc.ordered
