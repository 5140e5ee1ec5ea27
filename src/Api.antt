-- ===== src/Api.antt =====
-- The Kubernetes and Gateway API objects that the program reads and writes. They are declared by
-- the k8s.io and sigs.k8s.io modules; a record here has the fields of the struct that the
-- modelled code touches, a pointer is an `Option`, and a string type is `String`.
pub mod Field
pub mod Ingress
pub mod Gateway
