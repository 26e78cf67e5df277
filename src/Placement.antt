-- ===== src/Placement.antt =====
-- placement: which owner serves a group, and the development adapters of its store and registry.
pub mod Types
pub mod Store
pub mod Registry
pub mod Bootstrap
