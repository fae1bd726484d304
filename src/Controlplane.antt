-- ===== src/Controlplane.antt =====
-- controlplane: how the blocks of addresses are handed out to the claims of the nodes and pods.
pub mod Ipaddrutil
pub mod CidrClaim
