-- ===== src/Tests.antt =====
-- Concrete Ingresses, and the theorems at them.
pub mod Data
pub mod Routes
pub mod Rules
pub mod Canary
pub mod Emitters
pub mod Nginx
