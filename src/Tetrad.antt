-- ===== src/Tetrad.antt =====
-- tetrad: the agent of a node.
pub mod Labels
pub mod Names
pub mod Api
pub mod Claimer
pub mod PeersSync
pub mod CniServer
pub mod ExtraPods
pub mod Config
