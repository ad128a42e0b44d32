-- ===== src/Client.antt =====
-- Client, the buffered socket of libexio/exio/Client.h and libexio/Client.cc: its outbound queue and
-- its inbound work.
pub mod Inbound
pub mod Outbound
mod Tests
