-- ===== src/Common.antt =====
-- pkg/i2gw/providers/common: the translation that every Ingress provider shares.
pub mod Names
pub mod Backends
pub mod Grpc
pub mod Paths
pub mod Aggregator
pub mod Routes
pub mod Listeners
pub mod Features
pub mod ToIr
