-- ===== src/Hijack.antt =====
-- pkg/hijack: UDP packets taken from the wire before the kernel's own sockets see them.
pub mod Bpf
pub mod Receiver
pub mod Controller
