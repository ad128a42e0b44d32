-- ===== src/Sam.antt =====
-- The SAM message: libexio/exio/sam.h and libexio/sam.cc.
pub mod Chars
pub mod Container
pub mod Path
pub mod Encode
pub mod Decode
pub mod RoundTrip
mod Tests
