-- ===== src/Emitters.antt =====
-- pkg/i2gw/emitters: what every emitter does with the emitter IR.
pub mod Resources
pub mod Common
