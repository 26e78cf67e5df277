-- ===== src/Runtime.antt =====
-- internal/runtime: the bounded queue and the byte budget that sessions share.
pub mod Queue
pub mod Budget
