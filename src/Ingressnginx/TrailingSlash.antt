-- ===== src/Ingressnginx/TrailingSlash.antt =====
-- pkg/i2gw/providers/ingressnginx/redirect.go: `buildTrailingSlashRedirectRules`. The nested loops
-- over the rules and their matches are loops over the paths of all matches.
pub mod Segments
pub mod Slashes
pub mod Laws
use Prim.Native.String
use ingress2gateway.Base.{
  ℕ, Char, code, Bool, true, false, ◌&&◌, ◌||◌, not, Option, none, some, List, [], ◌∷◌, ◌++◌,
  String, string_comparable, ◌==◌, contains, eqb, if◌then◌else◌, Go, done, panic, ◌>>=◌,
}
use ingress2gateway.Base.Int.{pos}
use ingress2gateway.Base.Strings.{strip_prefix, ends_with, trim_suffix}
use ingress2gateway.Api.Gateway.{
  HttpRouteRule, HttpRouteMatch, HttpPathMatch, HttpRouteFilter, RequestRedirect,
}

-- The type and the value of a path, where neither is nil.
abbrev pub typed_of : Option String → Option String → List (String × String)
typed_of none value = []
typed_of (some type) none = []
typed_of (some type) (some value) = (type, value) ∷ []

abbrev pub typed_path : Option HttpPathMatch → List (String × String)
typed_path none = []
typed_path (some path) = typed_of path.type path.value

abbrev pub paths_of_matches : List HttpRouteMatch → List (String × String)
paths_of_matches [] = []
paths_of_matches (m ∷ ms) = typed_path m.path ++ paths_of_matches ms

unfoldable pub paths_of : List HttpRouteRule → List (String × String)
paths_of [] = []
paths_of (r ∷ rs) = paths_of_matches r.matches ++ paths_of rs

abbrev pub is_literal : String → Bool
is_literal type = (type == "Exact") || (type == "PathPrefix")

-- `sourcePathAlreadyMatched`
abbrev pub already_matched : List (String × String) → List String
already_matched [] = []
already_matched ((type, value) ∷ paths) =
    let rest = already_matched paths in if is_literal type then value ∷ rest else rest

-- `existingPrefixes`
abbrev pub existing_prefixes : List (String × String) → List String
existing_prefixes [] = []
existing_prefixes ((type, value) ∷ paths) =
    let rest = existing_prefixes paths in if type == "PathPrefix" then value ∷ rest else rest

-- The end of `pathPrefixCovers`, for what follows the prefix: an empty prefix is indexed at -1.
abbrev pub covers_rest : String → String → Go Bool
covers_rest prefix String.[] = done true
covers_rest String.[] (String.◌∷◌ c rest) = panic
covers_rest (String.◌∷◌ d prefix) (String.◌∷◌ c rest) =
    done (ends_with b'/' (String.◌∷◌ d prefix) || eqb (code c) b'/')

-- `pathPrefixCovers`
unfoldable pub path_prefix_covers : String → String → Go Bool
path_prefix_covers prefix path = elim (strip_prefix prefix path) [
  | none ↦ done false
  | some rest ↦ covers_rest prefix rest
]

-- `pathPrefixCoveredByAny`
unfoldable pub path_prefix_covered_by_any : List String → String → Go Bool
unfolding path_prefix_covers
path_prefix_covered_by_any [] path = done false
path_prefix_covered_by_any (prefix ∷ prefixes) path =
    let rest = path_prefix_covered_by_any prefixes path in
    path_prefix_covers prefix path >>= λ covers. if covers then done true else rest

abbrev pub trailing_slash_filter : String → HttpRouteFilter
trailing_slash_filter target = record {
  type = "RequestRedirect";
  request_header_modifier = none;
  response_header_modifier = none;
  request_redirect = some (record {
    scheme = none;
    hostname = none;
    port = none;
    path = some target;
    status_code = some (pos 301);
  });
  url_rewrite = none;
  cors = none;
}

-- The rule that redirects from `source` to `target`.
abbrev pub trailing_slash_rule : String → String → HttpRouteRule
trailing_slash_rule source target = record {
  name = none;
  matches =
      record { path = some (record { type = some "Exact"; value = some source }); headers = [] }
      ∷ [];
  filters = trailing_slash_filter target ∷ [];
  backend_refs = [];
  request_timeout = none;
}

-- The conditions before the one on the prefixes, on the type, the target and the source.
abbrev pub may_redirect : List String → String → String → Bool
may_redirect matched type target =
    let source = trim_suffix b'/' target in
    is_literal type
    && (not (target == "/")
        && (ends_with b'/' target && (not (source == "") && not (contains source matched))))

-- Whether a path gets a redirect.
abbrev pub emits : List String → List String → List String → String → String → Go Bool
emits matched prefixes added type target =
    let source = trim_suffix b'/' target in
    let covered = path_prefix_covered_by_any prefixes source in
    if may_redirect matched type target
    then (covered >>= λ c. done (not c && not (contains source added)))
    else done false

-- The second loop, where `added` has the sources so far.
unfoldable pub redirect_rules :
    List String → List String → List String → List (String × String) → Go (List HttpRouteRule)
redirect_rules matched prefixes added [] = done []
redirect_rules matched prefixes added ((type, target) ∷ paths) =
    let source = trim_suffix b'/' target in
    emits matched prefixes added type target >>= λ emit.
    redirect_rules matched prefixes (if emit then source ∷ added else added) paths >>= λ rules.
    done (if emit then trailing_slash_rule source target ∷ rules else rules)

-- `buildTrailingSlashRedirectRules`
unfoldable pub build_trailing_slash_redirect_rules : List HttpRouteRule → Go (List HttpRouteRule)
unfolding paths_of path_prefix_covered_by_any redirect_rules
build_trailing_slash_redirect_rules rules =
    let paths = paths_of rules in
    redirect_rules (already_matched paths) (existing_prefixes paths) [] paths
