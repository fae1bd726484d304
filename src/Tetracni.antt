-- ===== src/Tetracni.antt =====
-- The CNI plugins of tetracni.
pub mod ExtraRoutes
pub mod PodIpam
pub mod RoutePods
pub mod HostVrf
