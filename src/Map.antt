-- ===== src/Map.antt =====
-- The fixed-capacity hash maps: lib/sd/native/map.hxx on the host, lib/doca/kernel/map.h on the DPA.
pub mod Chain
pub mod Host
pub mod HostLaws
pub mod Device
pub mod DeviceLaws
mod Tests
