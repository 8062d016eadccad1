-- ===== src/Inventory.antt =====
-- The inventory of harness/model.py: AS numbers, the profile, and its expansion into sessions.
pub mod Asn
pub mod Profile
pub mod Build
pub mod Usable
mod Examples
