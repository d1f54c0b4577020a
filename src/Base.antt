-- ===== src/Base.antt =====
-- The modules of arale/base.
pub mod Date
pub mod TimeZone
pub mod LogStream
mod Tests
pub mod Integer
pub mod ZoneFile
