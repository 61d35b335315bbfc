-- ===== src/Store.antt =====
-- The database that the services share, and the effects of a call: state, exceptions, faults.
pub mod Json
pub mod Rows
pub mod Effects
pub mod Preserves
