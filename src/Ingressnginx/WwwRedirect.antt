-- ===== src/Ingressnginx/WwwRedirect.antt =====
-- pkg/i2gw/providers/ingressnginx/redirect.go: `addWWWRedirect`. The text of the error of
-- `strconv.ParseBool` is left out of the error's message.
use ingress2gateway.Base.{
  ℕ, Bool, true, false, ◌||◌, ◌&&◌, Option, none, some, List, [], ◌∷◌, ◌++◌, String,
  string_comparable, ◌==◌, if◌then◌else◌, Go, done, ◌>>=◌,
}
use ingress2gateway.Base.Int.{pos}
use ingress2gateway.Base.Dict.{Dict, lookup, insert}
use ingress2gateway.Base.Text.{◌+++◌}
use ingress2gateway.Base.Strings.{parse_bool, strip_prefix, dash_for}
use ingress2gateway.Api.Field.{FieldError, Result, err, ok, invalid, new_path}
use ingress2gateway.Api.Ingress.{Ingress, NamespacedName, namespaced_name_comparable}
use ingress2gateway.Api.Gateway.{Listener, SecretRef, HttpRoute, HttpRouteRule, ParentRef}
use ingress2gateway.ProviderIr
use ingress2gateway.ProviderIr.{BackendSource}
use ingress2gateway.EmitterIr.{EmitterIr, GatewayContext}
use ingress2gateway.Ingressnginx.Annotations.{annotation?, from_to_www_redirect_annotation}
use ingress2gateway.Ingressnginx.Sources.{get_non_canary_ingress}
use ingress2gateway.Ingressnginx.Redirect.{redirect_filter}
use ingress2gateway.Ingressnginx.SslRedirect.{bare_context}

abbrev pub www_error : Ingress → FieldError
www_error ingress =
    invalid
      (new_path ("ingress" ∷ ingress.namespace ∷ ingress.name ∷ "metadata" ∷ "annotations" ∷ []))
      "failed to parse from-to-www-redirect configuration"

-- The flag after an Ingress, where it was `flag` before.
abbrev pub parsed_flag : Ingress → Option Bool → Result Bool
parsed_flag ingress none = err (www_error ingress)
parsed_flag ingress (some b) = ok b

abbrev pub flag_after : Bool → Option Ingress → Result Bool
flag_after flag none = ok flag
flag_after flag (some ingress) = elim (annotation? from_to_www_redirect_annotation ingress) [
  | none ↦ ok flag
  | some val ↦ parsed_flag ingress (parse_bool val)
]

abbrev pub or_err : Result Bool → (Bool → Go (Result Bool)) → Go (Result Bool)
or_err (err e) f = done (err e)
or_err (ok b) f = f b

-- The loop that sets `wwwRedirect`.
unfoldable pub www_redirect : Bool → List (List BackendSource) → Go (Result Bool)
www_redirect flag [] = done (ok flag)
www_redirect flag (srcs ∷ sources) = get_non_canary_ingress srcs >>= λ found.
    or_err (flag_after flag found) (λ b. www_redirect b sources)

-- `srcHost`: the host without `www.`, or with it.
abbrev pub other_host : String → String
other_host h = elim (strip_prefix "www." h) [ none ↦ "www." +++ h | some rest ↦ rest ]

abbrev pub bind_to_listener : String → ℕ → String → ParentRef → ParentRef
bind_to_listener src_host port suffix p = record p {
  port = some port;
  section_name = some (dash_for b'.' src_host +++ suffix);
}

abbrev pub both_listeners : String → List ParentRef → List ParentRef
both_listeners src_host [] = []
both_listeners src_host (p ∷ ps) =
    bind_to_listener src_host 80 "-http" p
    ∷ bind_to_listener src_host 443 "-https" p
    ∷ both_listeners src_host ps

abbrev pub www_rule : String → HttpRouteRule
www_rule dst_host = record {
  name = none;
  matches = [];
  filters =
      redirect_filter (record {
        scheme = none;
        hostname = some dst_host;
        port = none;
        path = none;
        status_code = some (pos 301);
      })
      ∷ [];
  backend_refs = [];
  request_timeout = none;
}

abbrev pub www_route : HttpRoute → String → HttpRoute
www_route route h =
    let src_host = other_host h in
    record {
      namespace = route.namespace;
      name = "00-" +++ route.name +++ "-" +++ dash_for b'.' src_host +++ "-www-redirect";
      parent_refs = both_listeners src_host route.parent_refs;
      hostnames = src_host ∷ [];
      rules = www_rule h ∷ [];
    }

abbrev pub has_hostname : String → Listener → Bool
has_hostname host l = elim l.hostname [ none ↦ false | some h ↦ h == host ]

-- Whether a listener has the hostname and the protocol.
unfoldable pub listener_exists : String → String → List Listener → Bool
listener_exists host protocol [] = false
listener_exists host protocol (l ∷ ls) =
    (has_hostname host l && (l.protocol == protocol)) || listener_exists host protocol ls

-- A TLS configuration: its certificates and its mode.
abbrev pub TlsConfig : Type 0
TlsConfig = List SecretRef × Option String

abbrev pub tls_config_of : Listener → Option TlsConfig
tls_config_of l = elim l.tls [ none ↦ none | some refs ↦ some (refs, l.mode) ]

-- `tlsConfig`: of the last HTTPS listener with the hostname, where it was `config` before.
unfoldable pub last_tls_config : String → Option TlsConfig → List Listener → Option TlsConfig
last_tls_config host config [] = config
last_tls_config host config (l ∷ ls) =
    last_tls_config host
      (if has_hostname host l && (l.protocol == "HTTPS") then tls_config_of l else config) ls

abbrev pub www_http_listener : String → Listener
www_http_listener src_host = record {
  name = dash_for b'.' src_host +++ "-http";
  hostname = some src_host;
  port = 80;
  protocol = "HTTP";
  tls = none;
  mode = none;
}

abbrev pub www_https_listener : String → TlsConfig → Listener
www_https_listener src_host (refs, mode) = record {
  name = dash_for b'.' src_host +++ "-https";
  hostname = some src_host;
  port = 443;
  protocol = "HTTPS";
  tls = some refs;
  mode = mode;
}

abbrev pub https_unless : Bool → String → Option TlsConfig → List Listener
https_unless true src_host config = []
https_unless false src_host none = []
https_unless false src_host (some config) = www_https_listener src_host config ∷ []

-- The listeners of a Gateway, with those for the other host.
unfoldable pub www_listeners : String → String → List Listener → List Listener
unfolding listener_exists last_tls_config
www_listeners src_host dst_host ls =
    ls
    ++ (if listener_exists src_host "HTTP" ls then [] else www_http_listener src_host ∷ [])
    ++ https_unless (listener_exists src_host "HTTPS" ls) src_host
        (last_tls_config dst_host none ls)

abbrev pub or_namespace : String → Option String → String
or_namespace namespace none = namespace
or_namespace namespace (some other) = other

abbrev pub parent_gateway_key : String → ParentRef → NamespacedName
parent_gateway_key namespace p = record {
  namespace = or_namespace namespace p.namespace;
  name = p.name;
}

abbrev pub with_listeners : (List Listener → List Listener) → GatewayContext → GatewayContext
with_listeners f g = record g { gateway = record g.gateway { listeners = f g.gateway.listeners } }

abbrev pub update_gateway :
    NamespacedName
    → (GatewayContext → GatewayContext)
    → Dict NamespacedName GatewayContext
    → Dict NamespacedName GatewayContext
update_gateway key f gateways = elim (lookup key gateways) [
  | none ↦ gateways
  | some g ↦ insert key (f g) gateways
]

unfoldable pub www_gateways :
    String
    → String
    → String
    → List ParentRef
    → Dict NamespacedName GatewayContext
    → Dict NamespacedName GatewayContext
unfolding www_listeners
www_gateways namespace src_host dst_host [] gateways = gateways
www_gateways namespace src_host dst_host (p ∷ ps) gateways =
    www_gateways namespace src_host dst_host ps (
      update_gateway (parent_gateway_key namespace p)
        (with_listeners (www_listeners src_host dst_host)) gateways)

-- One hostname of a route.
abbrev pub www_host : HttpRoute → String → EmitterIr → EmitterIr
www_host route h eir =
    let r = www_route route h in
    record eir {
      http_routes =
          insert (record { namespace = r.namespace; name = r.name }) (bare_context r)
            eir.http_routes;
      gateways = www_gateways r.namespace (other_host h) h r.parent_refs eir.gateways;
    }

unfoldable pub www_hosts : HttpRoute → List String → EmitterIr → EmitterIr
unfolding www_gateways
www_hosts route [] eir = eir
www_hosts route (h ∷ hs) eir = www_hosts route hs (www_host route h eir)

-- An error ends the loop over the routes; what was added before stays.
abbrev pub www_route_end :
    HttpRoute
    → EmitterIr
    → (EmitterIr → Go (EmitterIr × List FieldError))
    → Result Bool
    → Go (EmitterIr × List FieldError)
www_route_end route eir next (err e) = done (eir, e ∷ [])
www_route_end route eir next (ok flag) =
    next (if flag then www_hosts route route.hostnames eir else eir)

unfoldable pub www_routes :
    Dict NamespacedName ProviderIr.HttpRouteContext → EmitterIr → Go (EmitterIr × List FieldError)
unfolding www_redirect www_hosts
www_routes [] eir = done (eir, [])
www_routes ((key, p) ∷ ps) eir = www_redirect false p.rule_backend_sources >>= λ flag.
    www_route_end p.route eir (λ eir'. www_routes ps eir') flag

-- `addWWWRedirect`
unfoldable pub add_www_redirect :
    ProviderIr.ProviderIr → EmitterIr → Go (EmitterIr × List FieldError)
unfolding www_routes
add_www_redirect pir eir = www_routes pir.http_routes eir
