-- ===== src/EmitterIr/Gce.antt =====
-- pkg/i2gw/emitter_intermediate/gce/gce.go: the extensions of GCE on Gateways and Services.
use ingress2gateway.Base.{Bool, Option, List, String}
use ingress2gateway.Base.Int.{ℤ}

pub record SslPolicyConfig : Type 0 where
  pub name : String

pub record GatewayIr : Type 0 where
  pub enable_https_redirect : Bool
  pub ssl_policy : Option SslPolicyConfig

pub record SessionAffinityConfig : Type 0 where
  pub affinity_type : String
  pub cookie_ttl_sec : Option ℤ

pub record SecurityPolicyConfig : Type 0 where
  pub name : String

pub record HealthCheckConfig : Type 0 where
  pub check_interval_sec : Option ℤ
  pub timeout_sec : Option ℤ
  pub healthy_threshold : Option ℤ
  pub unhealthy_threshold : Option ℤ
  pub type : Option String
  pub port : Option ℤ
  pub request_path : Option String

pub record CacheKeyPolicy : Type 0 where
  pub include_protocol : Option Bool
  pub include_host : Option Bool
  pub include_query_string : Option Bool
  pub excluded_query_parameters : List String
  pub included_query_parameters : List String
  pub included_header_names : List String
  pub included_cookie_names : List String

pub record NegativeCachingPolicy : Type 0 where
  pub code : ℤ
  pub ttl : String

pub record CachePolicy : Type 0 where
  pub cache_key_policy : Option CacheKeyPolicy
  pub request_coalescing : Option Bool
  pub cache_mode : String
  pub default_ttl : String
  pub max_ttl : String
  pub client_ttl : String
  pub negative_caching : Option Bool
  pub negative_caching_policy : List NegativeCachingPolicy
  pub cache_bypass_request_header_names : List String
  pub serve_while_stale : String

pub record CdnConfig : Type 0 where
  pub cache_policy : Option CachePolicy

pub record ServiceIr : Type 0 where
  pub session_affinity : Option SessionAffinityConfig
  pub security_policy : Option SecurityPolicyConfig
  pub health_check : Option HealthCheckConfig
  pub cdn : Option CdnConfig
