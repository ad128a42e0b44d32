-- ===== src/Admin.antt =====
-- The admin protocol: libexio/AdminCommand.cc, libexio/exio/AdminCommand.h, the requests of the admin
-- program, src/admin.cc, and how AdminInterfaceImpl, libexio/AdminInterfaceImpl.cc, answers a request.
pub mod Reply
pub mod Request
pub mod Args
pub mod Dispatch
pub mod Answers
pub mod Sending
pub mod Builtin
mod Tests
