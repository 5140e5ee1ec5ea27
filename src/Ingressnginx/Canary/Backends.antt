-- ===== src/Ingressnginx/Canary/Backends.antt =====
-- `getCanaryInfo` of pkg/i2gw/providers/ingressnginx/canary.go: which backend of a rule is the
-- canary. An index that is -1 in the code is `none`.
use ingress2gateway.Base.{
  ℕ, ◌+◌, Bool, false, Option, none, some, List, [], ◌∷◌, ◌++◌, String, ◌==◌, string_comparable,
  if◌then◌else◌,
}
use ingress2gateway.Base.Int.{ℤ, pos, ◌-ℤ◌}
use ingress2gateway.Base.ParseInt.{int32}
use ingress2gateway.Api.Field.{FieldError, FieldPath, invalid, new_path, index, child}
use ingress2gateway.Api.Ingress.{Ingress}
use ingress2gateway.ProviderIr.{BackendSource}
use ingress2gateway.Ingressnginx.Canary.{
  CanaryConfig, Notice, annotation, canary_annotation, parse_canary_config,
}

-- The variables of the loop.
pub record Found : Type 0 where
  pub canary_idx : Option ℕ
  pub non_canary_idx : Option ℕ
  pub config : CanaryConfig
  pub errors : List FieldError
  pub notices : List Notice

abbrev pub zero_config : CanaryConfig
zero_config = record {
  is_header = false;
  header = "";
  header_value = "";
  is_weight = false;
  weight = pos 0;
  weight_total = pos 0;
}

abbrev pub nothing_found : Found
nothing_found = record {
  canary_idx = none;
  non_canary_idx = none;
  config = zero_config;
  errors = [];
  notices = [];
}

abbrev pub is_canary : Ingress → Bool
is_canary ingress = annotation canary_annotation ingress == "true"

abbrev pub backends_path : String → String → ℕ → FieldPath
backends_path route_type route_name rule_idx =
    child (index (new_path (route_type ∷ route_name ∷ "spec" ∷ "rules" ∷ [])) rule_idx)
      ("backendRefs" ∷ [])

abbrev pub see_canary : FieldPath → Found → ℕ → Ingress → Option ℕ → Found
see_canary path found i ingress (some _) = record found {
  errors = found.errors ++ invalid path "at most one canary backend is allowed per rule" ∷ [];
}
see_canary path found i ingress none =
    let parsed = parse_canary_config ingress in
    record found { canary_idx = some i; config = parsed.0; notices = found.notices ++ parsed.1 }

abbrev pub see_non_canary : FieldPath → Found → ℕ → Option ℕ → Found
see_non_canary path found i (some _) = record found {
  errors =
      found.errors
      ++ invalid path "at most one non-canary backend is allowed per rule when using canary" ∷ [];
}
see_non_canary path found i none = record found { non_canary_idx = some i }

-- The body of the loop. A source without an Ingress is passed over.
unfoldable pub see_source : FieldPath → Found → ℕ → Option Ingress → Found
see_source path found i none = found
see_source path found i (some ingress) =
    if is_canary ingress
    then see_canary path found i ingress found.canary_idx
    else see_non_canary path found i found.non_canary_idx

unfoldable pub see_sources : FieldPath → Found → ℕ → List BackendSource → Found
see_sources path found i [] = found
see_sources path found i (s ∷ sources) =
    see_sources path (see_source path found i s.ingress) (i + 1) sources

-- The results: the indices are returned together or not at all.
pub record CanaryInfo : Type 0 where
  pub canary_weight : ℤ
  pub non_canary_weight : ℤ
  pub config : CanaryConfig
  pub indices : Option (ℕ × ℕ)
  pub errors : List FieldError
  pub notices : List Notice

abbrev pub no_canary : Found → List FieldError → CanaryInfo
no_canary found errors = record {
  canary_weight = pos 0;
  non_canary_weight = pos 0;
  config = found.config;
  indices = none;
  errors = errors;
  notices = found.notices;
}

unfoldable pub info_of : FieldPath → Found → Option ℕ → Option ℕ → CanaryInfo
info_of path found none non = no_canary found found.errors
info_of path found (some c) none =
    no_canary found
      (found.errors ++ invalid path "a non-canary backend is required when using canary" ∷ [])
info_of path found (some c) (some n) = record {
  canary_weight = found.config.weight;
  non_canary_weight = int32 (found.config.weight_total -ℤ found.config.weight);
  config = found.config;
  indices = some (c, n);
  errors = found.errors;
  notices = found.notices;
}

-- `getCanaryInfo`
unfoldable pub get_canary_info : List BackendSource → String → String → ℕ → CanaryInfo
get_canary_info sources route_type route_name rule_idx =
    let path = backends_path route_type route_name rule_idx in
    let found = see_sources path nothing_found 0 sources in
    info_of path found found.canary_idx found.non_canary_idx
