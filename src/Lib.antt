-- ===== src/Lib.antt =====
-- ingress2gateway translates Kubernetes Ingresses to Gateway API resources. A provider reads the
-- Ingresses of one controller and makes an intermediate representation of them, the provider IR;
-- that becomes an emitter IR, which an emitter writes out as Gateways and routes. This library is a
-- model of the translation that the providers share, of the features of Ingress NGINX and of steps
-- that the emitters share.
--
-- Api: the Kubernetes types and errors that the program uses, as records (ObjectMeta and Spec of an
-- object are one record; fields that the modelled code does not touch are left out).
-- Common: pkg/i2gw/providers/common. `Names`, `Backends`, `Grpc` and `Features` are utils.go
-- (GetIngressClass, NameFromHost, RouteName; ToBackendRef, GroupServicePortsByPortName;
-- ParseGRPCServiceMethod, ConvertHTTPFiltersToGRPCFilters, RemoveGRPCRulesFromHTTPRoute;
-- GetRuleGroups). `Paths` is groupIngressPathsByMatchKey; `Aggregator` is ingressAggregator with
-- addIngress and addIngressRule; `Routes` is toHTTPRoute and toGRPCRoute; `Listeners` and `ToIr` are
-- toRoutesAndGateways and ToIR of converter.go. `ToIr.to_ir` calls them in the order of the code:
-- the aggregator gathers the rules of all Ingresses in groups; each group becomes a listener and a
-- route; each default backend becomes a route; the listeners of a Gateway are merged.
-- ProviderIr: pkg/i2gw/provider_intermediate, the provider IR; `Merge` is MergeIRs and `Conversion`
-- is ToEmitterIR. EmitterIr: pkg/i2gw/emitter_intermediate, the emitter IR.
-- Ingressnginx: pkg/i2gw/providers/ingressnginx. `Annotations` and `Sources` are annotations.go and
-- utils.go: a feature reads the annotations of the first Ingress of a rule's sources that is no
-- canary. Features that change the provider IR: `Canary` is canary.go: parseCanaryConfig, and in its
-- children getCanaryInfo (`Backends`), the loop over the rules of a route (`Rules`) and canaryFeature
-- (`Feature`), which runs on the result of ToIR and finds the canary by the sources of the backends;
-- `Redirect` is redirectFeature of redirect.go and `Headers` is headers.go, on the loop over rules of
-- `RuleChanges`; `Regex` is regex.go, on a store of path objects, since rules share them; `AppRoot`,
-- `Passthrough`, `SessionAffinity`, `BackendTls` and `BackendProtocol` are approot.go,
-- ssl_passthrough.go, session_affinity.go, backend_tls.go and backend_protocol.go. Features that
-- change the emitter IR: `Features` has the loop that they share, and a child for each of timeouts.go,
-- bodysize.go, iprange.go, rewrite.go and cors.go; `TrailingSlash`, `SslRedirect` and `WwwRedirect`
-- are the rest of redirect.go. `Converter` is convert of converter.go before its features, and `ToIr`
-- is Provider.ToIR of ingressnginx.go after it, the calls in the order of the code.
-- Emitters: pkg/i2gw/emitters. `Resources` is removeBackendRefsDuplicates and ToGatewayResources of
-- utils/utils.go; `Common` is applyTCPTimeouts and applyPathRewrites of common_emitter/emitter.go, by
-- route. Of the time-outs of a rule only the request time-out is kept; durations are nanoseconds,
-- and their parser and printer, of Go's `time` package, are parameters.
-- Tests: concrete Ingresses and the theorems at them.
--
-- A Go call that may panic returns `Go`; an error is a value beside the result. A map is a list of
-- entries (`Base.Dict`) whose order is the order of `range`, which Go leaves open: what is proved for
-- every list holds for every order. A pointer that may be nil is an Option. A port is a natural
-- number that is only copied; a rule index in the emitter IR is an integer, which may be negative;
-- weights are integers with int32 conversions written out, and
-- strconv.ParseInt is written out in `Base.ParseInt`. Strings are lists of code points. The loops are
-- structural recursion, so no fuel is used. Appending to a slice makes a new list: the code appends
-- to no slice whose new elements another variable reads. A call of `notify` adds a notice to a list.
--
-- Not modelled: the readers of clusters and files with the order in which they list Ingresses, the
-- other providers, the other emitters, notifications as text and the command line. The loop of
-- convert over its features is not composed, because `Regex` is over a store of path objects. The
-- converter of implementation-specific paths, which a provider supplies, is a parameter of the shared
-- translation. Parameters for code outside the repository: url.Parse, Duration.String and
-- resource.ParseQuantity; what is proved holds for every such function. The order in which the map
-- of headers is visited is a parameter too.
pub mod Base
pub mod Api
pub mod EmitterIr
pub mod ProviderIr
pub mod Common
pub mod Ingressnginx
pub mod Emitters
pub mod Tests
