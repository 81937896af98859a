-- ===== src/Common.antt =====
-- The library shared by the programs: common/src.
pub mod Queue
pub mod Json
pub mod Connection
pub mod Http
