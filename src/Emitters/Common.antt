-- ===== src/Emitters/Common.antt =====
-- pkg/i2gw/emitters/common_emitter/emitter.go: time-outs and path rewrites by rule index. The syntax
-- of durations is that of Go's `time` package: parsing and printing are parameters.
pub mod Indices
pub mod Rewrites
use ingress2gateway.Base.{
  ℕ, zero, suc, ◌+◌, ◌-◌, ◌*◌, ◌%◌, ◌^◌, Bool, true, false, ◌||◌, not, Option, none, some, List, [],
  ◌∷◌, ◌++◌, map, String, if◌then◌else◌, ltb, length, Go, done, panic, ◌>>=◌,
}
use ingress2gateway.Base.Dict.{Dict}
use ingress2gateway.Base.ParseInt.{int64}
use ingress2gateway.Base.Int.{ℤ, pos, negsuc, ltb_ℤ, leb_ℤ}
use ingress2gateway.Api.Field.{FieldError, invalid, new_path, at_index}
use ingress2gateway.Api.Gateway.{HttpRouteRule, HttpRouteFilter, HttpHeader}
use ingress2gateway.EmitterIr.{TcpTimeouts, PathRewrite, HttpRouteContext}

-- `time.ParseDuration`, without its errors, and `Duration.String`, over nanoseconds.
abbrev pub Parser : Type 0
Parser = String → Option ℤ

abbrev pub Printer : Type 0
Printer = ℤ → String

-- A product by `tcpTimeoutMultiplier`, which wraps around at 64 bits.
abbrev pub times_ten : ℤ → ℤ
times_ten (pos n) = int64 (pos (n * 10))
times_ten (negsuc n) = int64 (negsuc (n * 10 + 9))

abbrev pub larger : Option ℤ → ℤ → Option ℤ
larger none d = some d
larger (some best) d = if ltb_ℤ best d then some d else some best

abbrev pub with_parsed : Option ℤ → Option ℤ → Option ℤ
with_parsed best none = best
with_parsed best (some d) = larger best d

-- `maxParsedDuration`, from the largest duration so far.
unfoldable pub max_parsed_duration : Parser → Option ℤ → List (Option String) → Option ℤ
max_parsed_duration parse best [] = best
max_parsed_duration parse best (none ∷ ds) = max_parsed_duration parse best ds
max_parsed_duration parse best (some d ∷ ds) =
    max_parsed_duration parse (with_parsed best (parse d)) ds

abbrev pub request_timeout_of : Parser → Printer → TcpTimeouts → Option String → Option String
request_timeout_of parse print t old =
    elim (max_parsed_duration parse none (t.connect ∷ t.read ∷ t.write ∷ [])) [
      | none ↦ old
      | some d ↦ some (print (times_ten d))
    ]

-- The change of the `i`th rule.
unfoldable pub set_timeout :
    Parser → Printer → TcpTimeouts → ℕ → List HttpRouteRule → List HttpRouteRule
set_timeout parse print t i [] = []
set_timeout parse print t zero (r ∷ rules) =
    record r { request_timeout = request_timeout_of parse print t r.request_timeout } ∷ rules
set_timeout parse print t (suc i) (r ∷ rules) = r ∷ set_timeout parse print t i rules

abbrev pub set_timeout_at :
    Parser → Printer → TcpTimeouts → ℤ → List HttpRouteRule → List HttpRouteRule
set_timeout_at parse print t (pos i) rules = set_timeout parse print t i rules
set_timeout_at parse print t (negsuc i) rules = rules

abbrev pub index_error : ℤ → FieldError
index_error i =
    invalid (at_index (new_path ("httpRoute" ∷ "spec" ∷ "rules" ∷ [])) i) "rule index out of range"

-- `ruleIdx < 0 || ruleIdx >= len(...)`
abbrev pub is_out_of_range : ℤ → ℕ → Bool
is_out_of_range i n = ltb_ℤ i (pos 0) || leb_ℤ (pos n) i

-- The loop over the time-outs of a route.
unfoldable pub apply_timeouts :
    Parser
    → Printer
    → List HttpRouteRule
    → Dict ℤ (Option TcpTimeouts)
    → List HttpRouteRule × List FieldError
apply_timeouts parse print rules [] = (rules, [])
apply_timeouts parse print rules ((i, none) ∷ m) = apply_timeouts parse print rules m
apply_timeouts parse print rules ((i, some t) ∷ m) =
    let set = apply_timeouts parse print (set_timeout_at parse print t i rules) m in
    let unset = apply_timeouts parse print rules m in
    if is_out_of_range i (length rules) then (unset.0, index_error i ∷ unset.1) else set

-- The body of the loop of `applyTCPTimeouts` over the routes.
unfoldable pub apply_tcp_timeouts :
    Parser → Printer → HttpRouteContext → HttpRouteContext × List FieldError
apply_tcp_timeouts parse print c =
    let r = apply_timeouts parse print c.route.rules c.tcp_timeouts_by_rule_idx in
    (record c { route = record c.route { rules = r.0 }; tcp_timeouts_by_rule_idx = [] }, r.1)

abbrev pub rewrite_filter : PathRewrite → HttpRouteFilter
rewrite_filter p = record {
  type = "URLRewrite";
  request_header_modifier = none;
  response_header_modifier = none;
  request_redirect = none;
  url_rewrite = some p.replace_full_path;
  cors = none;
}

abbrev pub headers_filter : List HttpHeader → List HttpRouteFilter
headers_filter [] = []
headers_filter (h ∷ hs) =
    record {
      type = "RequestHeaderModifier";
      request_header_modifier =
          some (record { set_headers = h ∷ hs; add_headers = []; remove_headers = [] });
      response_header_modifier = none;
      request_redirect = none;
      url_rewrite = none;
      cors = none;
    }
    ∷ []

abbrev pub header_of : String × String → HttpHeader
header_of (name, value) = record { name = name; value = value }

-- The filters that a rewrite adds to the `i`th rule; an index out of range panics.
unfoldable pub add_rewrite : PathRewrite → ℕ → List HttpRouteRule → Go (List HttpRouteRule)
add_rewrite p i [] = panic
add_rewrite p zero (r ∷ rules) = done (
    record r { filters = r.filters ++ rewrite_filter p ∷ headers_filter (map header_of p.headers) }
    ∷ rules)
add_rewrite p (suc i) (r ∷ rules) = add_rewrite p i rules >>= λ rules'. done (r ∷ rules')

abbrev pub add_rewrite_at : PathRewrite → ℤ → List HttpRouteRule → Go (List HttpRouteRule)
add_rewrite_at p (pos i) rules = add_rewrite p i rules
add_rewrite_at p (negsuc i) rules = panic

-- The loop of `applyPathRewrites` over the rewrites of a route; one that is applied becomes nil.
unfoldable pub apply_rewrites :
    List HttpRouteRule
    → Dict ℤ (Option PathRewrite)
    → Go (List HttpRouteRule × Dict ℤ (Option PathRewrite))
apply_rewrites rules [] = done (rules, [])
apply_rewrites rules ((i, none) ∷ m) = apply_rewrites rules m >>= λ r. done (r.0, (i, none) ∷ r.1)
apply_rewrites rules ((i, some p) ∷ m) =
    let kept = apply_rewrites rules m >>= (λ r. done (r.0, (i, some p) ∷ r.1)) in
    let applied =
      add_rewrite_at p i rules
      >>= (λ rules'. apply_rewrites rules' m >>= (λ r. done (r.0, (i, none) ∷ r.1))) in
    if p.regex_capture_group_references then kept else applied

-- The body of the loop of `applyPathRewrites` over the routes.
unfoldable pub apply_path_rewrites : HttpRouteContext → Go HttpRouteContext
apply_path_rewrites c = apply_rewrites c.route.rules c.path_rewrite_by_rule_idx >>= λ r.
    done (record c { route = record c.route { rules = r.0 }; path_rewrite_by_rule_idx = r.1 })
