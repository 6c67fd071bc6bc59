-- ===== src/Util.antt =====
-- include/ravl/util.h: the byte-level helpers.
pub mod Cursor
pub mod Hex
pub mod Url
pub mod Search
