-- ===== src/Ingressnginx.antt =====
-- pkg/i2gw/providers/ingressnginx: the annotations of Ingress NGINX.
pub mod Annotations
pub mod Sources
pub mod Canary
pub mod Regex
pub mod Features
pub mod TrailingSlash
pub mod RuleChanges
pub mod Redirect
pub mod Headers
pub mod AppRoot
pub mod SslRedirect
pub mod WwwRedirect
pub mod Passthrough
pub mod SessionAffinity
pub mod BackendTls
pub mod BackendProtocol
pub mod Converter
pub mod ToIr
