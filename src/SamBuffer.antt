-- ===== src/SamBuffer.antt =====
-- DynamicSamBuffer: libexio/exio/SamBuffer.h and libexio/SamBuffer.cc.
pub mod Decimal
pub mod Defs
pub mod Append
pub mod Header
mod Tests
