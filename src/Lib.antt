-- ===== src/Lib.antt =====
-- tetrapod: a peer-to-peer full-mesh encrypted CNI. This library models the parts of the repository that
-- decide, keep state or speak a protocol, and proves what they promise to one another.
--
-- How the parts work together. Every node runs tetrad, which keeps the node's claims of addresses in the
-- control plane's cluster and gives the peers it finds there to tetraengine. tetraengine hands the keys and
-- addresses of the peers to disco, which finds by encrypted pings which address of each peer is the best one, and
-- hands the result to wgengine, which configures WireGuard, addresses and routes. The control plane binds the
-- claims to blocks of addresses.
--
-- Which file models what. A definition bears the name of the Go function, method or type, in snake case.
-- Base: shared names; numbers, byte strings and their order, lists, net/netip addresses (Base/Netip).
-- Pkg: pkg/syncmap, pkg/sets, pkg/bgsingleflight, pkg/splitconn, pkg/endpoints, pkg/alarm with its combinator
--   and ticker (Pkg/Alarm), the lookup of pkg/stun, and tetrad/pkg/util's Uniq. A
--   map is the list of its entries; Range walks over it, so a statement for every list is one for every order of
--   the visits.
-- Wgkey: the encryption of pkg/wgkey/disco.go. NaCl's box, the public keys and the random source are the
--   record Box, with the laws that a sealed box opens and that both ends compute one key.
-- Disco/Packet: disco/packet.go. Disco/Pktmgr: disco/pktmgr/pktmgr.go. Disco/Ticker: disco/ticker/ticker.go,
--   whose goroutine is a program counter with the variables of run, one step for each locked section.
--   Disco/Endpoint: disco/discoPeerEndpoint.go. Disco/Peer: disco/discoPeer.go, with its messages and the choice of
--   the active endpoint. Disco/Watch: the watchers of the status of both. Disco/Hub: disco/disco.go, with
--   AddPeer called by several goroutines in Disco/Hub/Adding.
-- Tetraengine: reconfigDisco and reconfig of tetraengine/tetraengine.go, and tetraengine/config.go; parsing
--   and printing of keys and addresses are the record Texts. Tetraengine/Publish: notify, what a node tells of
--   itself, with the record Printed; Tetraengine/Sockets: how the socket is split; Tetraengine/Loop: the channel of
--   one token between Reconfig, Trigger and the status callback, and the loop of runReconfig.
-- Hijack/Receiver: the receivers of pkg/hijack, by raw socket and by XDP, and the raw socket sender; gopacket's
--   decoding is an argument. Hijack/Controller: pkg/hijack/receiver/xdprecv/xdpcontroller.go. Hijack/Bpf: the packet filter of pkg/hijack/receiver/rawsockrecv/bpf.go; the machine
--   of the kernel that runs it is the record Machine, with a law for each instruction.
-- Wgengine/Peers: diffPeers, diffConfigs and reconfigWireguard; Wgengine/Kernel: diffIPs, diffRoutes,
--   reconfigAddresses and reconfigRoutes (tetraengine/wgengine/util.go and wgengine.go). Wgengine/Device: the namespace
--   and the device at the engine's start, netlink's links as the record Links; Wgengine/Whole: Reconfig.
-- Controlplane/Ipaddrutil: controlplane/pkg/ipaddrutil. The library ipaddress-go is the record IpLib, with
--   laws on which addresses a block covers. Controlplane/CidrClaim: controlplane/controllers/cidrclaim_controller.go.
-- Tetrad/Names: the names of claims (tetrad/main.go, tetrad/cnid.go, tetrad/controllers/extrapodcidrsync_controller.go);
--   Tetrad/Labels: tetrad/pkg/labels. Tetrad/Api: the API server, as the record Api with the laws of its
--   calls. Tetrad/Claimer: tetrad/controllers/cidrclaimer_controller.go; Tetrad/ExtraPods:
--   extrapodcidrsync_controller.go; Tetrad/PeersSync: peernodesync_controller.go and peerssync_controller.go.
--   Tetrad/CniServer: tetrad/pkg/cniserver/cniserver.go. Tetrad/Config: tetrad/api/v1alpha1/cniconfig_types.go,
--   with the record Library for Go's standard library.
-- Tetracni/ExtraRoutes: tetracni/cmd/tetra-extra-routes; links and routes are the record Kernel.
--   Tetracni/PodIpam: tetracni/cmd/tetra-pod-ipam, ipaddress-go as the record Ipaddr; Tetracni/RoutePods:
--   tetracni/cmd/route-pods, go-iptables as the record Iptables and netlink as the record Kernel; Tetracni/HostVrf:
--   tetracni/cmd/hostvrf.
-- Examples: tests and witnesses at concrete inputs.
--
-- How it is modelled. State is a record that the operations take and return; the time is an argument `now` in
-- nanoseconds; what is sent is part of the result. A packet of an endpoint times out after 400 ms
-- (Disco/Endpoint/Timeouts). Counters of type uint32 wrap at 2 ^ 32. No definition runs on
-- fuel: every loop of the source that is modelled is a recursion on what it walks over, and the endless
-- loops of goroutines are single steps. Concurrency is a sequence of steps; a lock's section is one step, and what
-- a method reads before its lock is another (Disco/Endpoint/Interleaving). A
-- channel with a reader hands its value over at once. Where the source tries again until a call succeeds, what
-- the call answers each time is a list. Whether a call reaches the API server is an argument of its own. A pointer that may be nil is an Option; a panic or an
-- error is none or a constructor of the result.
--
-- What is not modelled: sockets, namespaces, netlink, iptables and wgctrl calls themselves, XDP programs, the STUN
-- protocol, the Kubernetes API server itself, logging, decoding of JSON, and tetracni/cmd/nsexec, which only runs a
-- command; the start-up of the two programs and the registration of the controllers, and the channel by which
-- tetrad's controllers wake each other.
mod Base
pub mod Pkg
pub mod Wgkey
pub mod Disco
pub mod Wgengine
pub mod Hijack
pub mod Tetraengine
pub mod Controlplane
pub mod Tetrad
pub mod Tetracni
mod Examples
