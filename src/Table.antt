-- ===== src/Table.antt =====
-- The tables of libexio/exio/Table.h, libexio/Table.cc and libexio/exio/TableEvents.h.
pub mod Position
pub mod Row
pub mod Defs
pub mod Messages
pub mod Snapshot
mod Tests
