-- ===== src/Ingressnginx/Headers.antt =====
-- pkg/i2gw/providers/ingressnginx/headers.go. `visit` gives the order in which `range` visits the
-- map of headers.
use ingress2gateway.Base.{
  Bool, true, false, ◌&&◌, Option, none, some, List, [], ◌∷◌, ◌++◌, map, String, string_comparable,
  ◌==◌, if◌then◌else◌, Go,
}
use ingress2gateway.Base.Dict.{Dict, insert}
use ingress2gateway.Api.Ingress.{Ingress}
use ingress2gateway.Api.Gateway.{HttpRouteFilter, HeaderFilter, HttpHeader}
use ingress2gateway.ProviderIr.{ProviderIr}
use ingress2gateway.Ingressnginx.Annotations.{
  Notice, warn, annotation?, nonempty_annotation?, upstream_vhost_annotation,
  connection_proxy_header_annotation, custom_headers_annotation,
}
use ingress2gateway.Ingressnginx.RuleChanges.{Change, change_ir}

abbrev pub set_if : String → Option String → Dict String String → Dict String String
set_if name none headers = headers
set_if name (some val) headers = insert name val headers

unfoldable pub headers_to_set : Ingress → Dict String String
headers_to_set ingress =
    set_if "Connection" (nonempty_annotation? connection_proxy_header_annotation ingress)
      (set_if "Host" (nonempty_annotation? upstream_vhost_annotation ingress) [])

abbrev pub modifies_headers : HttpRouteFilter → Bool
modifies_headers f =
    (f.type == "RequestHeaderModifier")
    && elim f.request_header_modifier [ none ↦ false | some _ ↦ true ]

abbrev pub request_header : String × String → HttpHeader
request_header (name, value) = record { name = name; value = value }

abbrev pub with_headers : List HttpHeader → HeaderFilter → HeaderFilter
with_headers headers h = record h { set_headers = h.set_headers ++ headers }

abbrev pub add_headers_to : List HttpHeader → HttpRouteFilter → HttpRouteFilter
add_headers_to headers f = elim f.request_header_modifier [
  | none ↦ f
  | some h ↦ record f { request_header_modifier = some (with_headers headers h) }
]

abbrev pub new_header_filter : List HttpHeader → HttpRouteFilter
new_header_filter headers = record {
  type = "RequestHeaderModifier";
  request_header_modifier =
      some (record { set_headers = headers; add_headers = []; remove_headers = [] });
  response_header_modifier = none;
  request_redirect = none;
  url_rewrite = none;
  cors = none;
}

-- `applyHeaderModifiers`: the headers go to the first filter that modifies request headers, or to a
-- new one at the end.
unfoldable pub apply_header_modifiers :
    List HttpHeader → List HttpRouteFilter → List HttpRouteFilter
apply_header_modifiers headers [] = new_header_filter headers ∷ []
apply_header_modifiers headers (f ∷ fs) =
    let rest = apply_header_modifiers headers fs in
    if modifies_headers f then add_headers_to headers f ∷ fs else f ∷ rest

abbrev pub add_headers_unless_empty : List HttpHeader → List HttpRouteFilter → List HttpRouteFilter
add_headers_unless_empty [] filters = filters
add_headers_unless_empty (h ∷ hs) filters = apply_header_modifiers (h ∷ hs) filters

abbrev pub custom_headers_notice : Ingress → List Notice
custom_headers_notice ingress = elim (annotation? custom_headers_annotation ingress) [
  | none ↦ []
  | some _ ↦
      warn "Ingress %s/%s uses '%s' which is not supported."
        (ingress.namespace ∷ ingress.name ∷ custom_headers_annotation ∷ [])
      ∷ []
]

abbrev pub header_change : (Dict String String → Dict String String) → Change
header_change visit ingress rule = (
  record rule {
    filters =
        add_headers_unless_empty (map request_header (visit (headers_to_set ingress))) rule.filters;
  },
  custom_headers_notice ingress,
)

-- `headerModifierFeature`
unfoldable pub header_modifier_feature :
    (Dict String String → Dict String String) → ProviderIr → Go (ProviderIr × List Notice)
unfolding change_ir headers_to_set apply_header_modifiers
header_modifier_feature visit ir = change_ir (header_change visit) ir
