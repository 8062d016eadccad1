-- ===== src/Mrt.antt =====
-- MRT TABLE_DUMP_V2: the writer of harness/routegen.py and the structural checker of
-- tests/mrtcheck.py, and that the checker accepts what the writer writes.
pub mod Bytes
pub mod Attrs
pub mod Writer
pub mod Walk
pub mod Fuel
pub mod Check
pub mod Accept
mod Examples
