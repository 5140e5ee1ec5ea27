-- ===== src/Ingressnginx/Features/Timeouts.antt =====
-- pkg/i2gw/providers/ingressnginx/timeouts.go. A duration is in nanoseconds, of 64 bits; printing it
-- (`Duration.String` of Go's `time` package) is a parameter.
pub mod Seconds
use ingress2gateway.Base.{
  ℕ, ◌+◌, ◌*◌, ◌<◌, ◌≤◌, ◌≡◌, ap, arith, false, Option, none, some, List, [], ◌∷◌, ◌++◌, String,
  string_comparable, ◌==◌, if◌then◌else◌,
}
use ingress2gateway.Base.Int.{ℤ, pos, negsuc, leb_ℤ}
use ingress2gateway.Base.ParseInt.{ParsedInt, parse_int64, int64, int64_count}
use ingress2gateway.Api.Ingress.{Ingress}
use ingress2gateway.EmitterIr.{TcpTimeouts}
use ingress2gateway.Ingressnginx.Annotations.{
  Notice, warn, nonempty_annotation?, proxy_connect_timeout_annotation,
  proxy_read_timeout_annotation, proxy_send_timeout_annotation,
}
use ingress2gateway.Ingressnginx.Features.{RuleFeature}

-- The duration, or the text of the error.
pub data Timeout : Type 0 where
  duration : ℤ → Timeout
  refused : String → Timeout

-- `time.Duration(secs) * time.Second`, which wraps around.
abbrev pub seconds_to_duration : ℤ → ℤ
seconds_to_duration (pos n) = int64 (pos (n * 1000000000))
seconds_to_duration (negsuc n) = int64 (negsuc (n * 1000000000 + 999999999))

abbrev pub timeout_of : ParsedInt → Timeout
timeout_of secs =
    if secs.failed
    then refused "must be an integer number of seconds"
    else if leb_ℤ secs.value (pos 0)
    then refused "must be > 0"
    else duration (seconds_to_duration secs.value)

-- `parseIngressNginxTimeout`
unfoldable pub parse_ingress_nginx_timeout : String → Timeout
parse_ingress_nginx_timeout val =
    if val == "" then refused "empty timeout" else timeout_of (parse_int64 val)

abbrev pub timeout_entry : (ℤ → String) → String → String → Timeout → Option String × List Notice
timeout_entry print key val (duration d) = (some (print d), [])
timeout_entry print key val (refused e) =
    (none, warn "Invalid timeout annotation %s=%q: %v, skipping timeout" (key ∷ val ∷ e ∷ []) ∷ [])

abbrev pub timeout_annotation : (ℤ → String) → String → Option String → Option String × List Notice
timeout_annotation print key none = (none, [])
timeout_annotation print key (some val) =
    timeout_entry print key val (parse_ingress_nginx_timeout val)

-- `parseIngressNginxTimeoutAnnotation`
unfoldable pub parse_ingress_nginx_timeout_annotation :
    (ℤ → String) → Ingress → String → Option String × List Notice
parse_ingress_nginx_timeout_annotation print ingress key =
    timeout_annotation print key (nonempty_annotation? key ingress)

abbrev pub timeouts_entry :
    Option String → Option String → Option String → List Notice → Option TcpTimeouts × List Notice
timeouts_entry none none none notices = (none, notices)
timeouts_entry connect read write notices = (
  some (record { connect = connect; read = read; write = write }),
  notices
      ++ warn
          "ingress-nginx only supports TCP-level timeouts; i2gw has made a best-effort translation to Gateway API timeouts.request. Please verify that this meets your needs. See documentation: https://gateway-api.sigs.k8s.io/guides/http-timeouts/"
          []
        ∷ [],
)

unfoldable pub read_timeouts : (ℤ → String) → Ingress → Option TcpTimeouts × List Notice
read_timeouts print ingress =
    let connect =
      parse_ingress_nginx_timeout_annotation print ingress proxy_connect_timeout_annotation in
    let read = parse_ingress_nginx_timeout_annotation print ingress proxy_read_timeout_annotation in
    let write =
      parse_ingress_nginx_timeout_annotation print ingress proxy_send_timeout_annotation in
    timeouts_entry connect.0 read.0 write.0 (connect.1 ++ read.1 ++ write.1)

-- `applyTimeoutsToEmitterIR`
abbrev pub timeouts_feature : (ℤ → String) → RuleFeature TcpTimeouts
timeouts_feature print = record {
  get = λ e. e.tcp_timeouts_by_rule_idx;
  set = λ m e. record e { tcp_timeouts_by_rule_idx = m };
  rules = λ p e. p.route.rules;
  read = λ p ingress. read_timeouts print ingress;
}
