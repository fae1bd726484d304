-- ===== src/Pkg.antt =====
-- The small packages under pkg/ and tetrad/pkg/util that the other components are built on.
pub mod Syncmap
pub mod Uniq
pub mod Bgsingleflight
pub mod Splitconn
pub mod Endpoints
pub mod Alarm
pub mod Stun
