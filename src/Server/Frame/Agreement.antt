-- ===== src/Server/Frame/Agreement.antt =====
-- The framing of server/src/worker.c and the parser of common/src/http_protocol.c read the same
-- request.
pub mod Values
pub mod Lines
pub mod Cursor
pub mod Whole
pub mod Parse
pub mod Body
pub mod Request
