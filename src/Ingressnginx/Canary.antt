-- ===== src/Ingressnginx/Canary.antt =====
-- pkg/i2gw/providers/ingressnginx/canary.go: the canary annotations of one Ingress. A call of
-- `notify` is an entry of the list of notices that a function returns.
pub mod Bounds
pub mod Backends
pub mod Rules
pub mod Feature
pub mod Laws
pub mod Total
use ingress2gateway.Base.{
  Bool, true, false, List, [], ◌∷◌, ◌++◌, String, ◌==◌, string_comparable, not, if◌then◌else◌,
}
use ingress2gateway.Base.Int.{ℤ, pos, ltb_ℤ, leb_ℤ}
use ingress2gateway.Base.Dict.{lookup_or}
use ingress2gateway.Base.ParseInt.{ParsedInt, parse_int, int32}
use ingress2gateway.Api.Ingress.{Ingress}
pub use ingress2gateway.Ingressnginx.Annotations.{annotation, canary_annotation}
use ingress2gateway.Ingressnginx.Annotations.{
  canary_weight_annotation, canary_weight_total_annotation, canary_by_header,
  canary_by_header_value, canary_by_header_pattern, canary_by_cookie,
}

pub record CanaryConfig : Type 0 where
  pub is_header : Bool
  pub header : String
  pub header_value : String
  pub is_weight : Bool
  pub weight : ℤ
  pub weight_total : ℤ

-- The calls of `notify`, with what their messages print.
pub data Notice : Type 0 where
  unsupported : String → Notice
  invalid_weight invalid_total : String → Notice
  negative_weight non_positive_total : ℤ → Notice
  weight_over_total : ℤ → ℤ → Notice

abbrev pub unsupported_if_set : String → Ingress → List Notice
unsupported_if_set key ingress = if annotation key ingress == "" then [] else unsupported key ∷ []

abbrev pub start_config : Ingress → CanaryConfig
start_config ingress = record {
  is_header = not (annotation canary_by_header ingress == "");
  header = annotation canary_by_header ingress;
  header_value = annotation canary_by_header_value ingress;
  is_weight = false;
  weight = pos 0;
  weight_total = pos 100;
}

-- The branches on a weight that is set, after `ParseInt`.
abbrev pub parsed_weight : CanaryConfig → String → ParsedInt → CanaryConfig × List Notice
parsed_weight config text w =
    if w.failed
    then (config, invalid_weight text ∷ [])
    else if ltb_ℤ w.value (pos 0)
    then (config, negative_weight w.value ∷ [])
    else (record config { is_weight = true; weight = int32 w.value }, [])

unfoldable pub set_weight_of : CanaryConfig → String → CanaryConfig × List Notice
set_weight_of config text =
    if text == "" then (config, []) else parsed_weight config text (parse_int text)

-- The branches on a total that is set, after `ParseInt`: an error alone does not keep the default.
abbrev pub parsed_total : CanaryConfig → String → ParsedInt → CanaryConfig × List Notice
parsed_total config text wt =
    let failed = if wt.failed then invalid_total text ∷ [] else [] in
    if leb_ℤ wt.value (pos 0)
    then (config, failed ++ non_positive_total wt.value ∷ [])
    else (record config { weight_total = int32 wt.value }, failed)

unfoldable pub set_total_of : CanaryConfig → String → CanaryConfig × List Notice
set_total_of config text =
    if text == "" then (config, []) else parsed_total config text (parse_int text)

unfoldable pub cap_weight : CanaryConfig → CanaryConfig × List Notice
cap_weight config =
    if ltb_ℤ config.weight_total config.weight
    then (
      record config { weight = config.weight_total },
      weight_over_total config.weight config.weight_total ∷ [],
    )
    else (config, [])

-- `parseCanaryConfig`
unfoldable pub parse_canary_config : Ingress → CanaryConfig × List Notice
unfolding set_weight_of set_total_of cap_weight
parse_canary_config ingress =
    let weighted =
      set_weight_of (start_config ingress) (annotation canary_weight_annotation ingress) in
    let totalled = set_total_of weighted.0 (annotation canary_weight_total_annotation ingress) in
    let capped = cap_weight totalled.0 in
    (
      capped.0,
      unsupported_if_set canary_by_header_pattern ingress
          ++ unsupported_if_set canary_by_cookie ingress
          ++ weighted.1
          ++ totalled.1
          ++ capped.1,
    )
