-- ===== src/Wire.antt =====
-- internal/wire: the framing and control codecs.
pub mod Result
pub mod Varint
pub mod Cursor
pub mod Events
pub mod Request
pub mod Control
