-- ===== src/Pkg/Splitconn.antt =====
-- pkg/splitconn/splitconn.go: one packet connection shared by several readers. A reader that finds its
-- queue empty reads the next datagram, for whichever child it is; singleflight lets one of them do so at a
-- time. The datagrams that arrive are a list; a packet from the pool is the packet itself.
pub mod Routing
use tetrapod.Base.{
  ℕ, zero, suc, Bool, true, false, List, [], ◌∷◌, ◌++◌, Option, none, some, ltb, if◌then◌else◌,
  length, take,
}
use tetrapod.Base.Bytes.{Bytes}
use tetrapod.Base.Netip.{AddrPort}

pub record Packet : Type 0 where
  pub b : Bytes
  pub addr : AddrPort

-- A child connection: its filter, and the packets in its channel, the oldest first.
pub record Conn : Type 0 where
  pub filter : Packet → Bool
  pub queue : List Packet

abbrev pub queue_cap : ℕ
queue_cap = 5

-- Bundler.Add
unfoldable pub add : (Packet → Bool) → List Conn → List Conn
add filter children = children ++ record { filter = filter; queue = [] } ∷ []

-- The non-blocking send to the queue of a child; a full queue drops the packet.
unfoldable pub offer : Packet → Conn → Conn
offer pkt c = if ltb (length c.queue) queue_cap then record c { queue = c.queue ++ pkt ∷ [] } else c

-- The loop over the children: the first whose filter takes the packet.
unfoldable pub dispatch : Packet → List Conn → List Conn
unfolding offer
dispatch pkt [] = []
dispatch pkt (c ∷ cs) = elim (c.filter pkt) [
  | true ↦ offer pkt c ∷ cs
  | false ↦ c ∷ dispatch pkt cs
]

-- The non-blocking receive from the queue of the child at an index.
unfoldable pub receive : ℕ → List Conn → Option (Packet × List Conn)
receive i [] = none
receive zero (c ∷ cs) = elim c.queue [
  | [] ↦ none
  | pkt ∷ rest ↦ some (pkt, record c { queue = rest } ∷ cs)
]
receive (suc i) (c ∷ cs) = elim (receive i cs) [
  | none ↦ none
  | some (pkt, cs') ↦ some (pkt, c ∷ cs')
]

-- What ReadFrom returns into a buffer of `size` bytes, the children then, and the datagrams still to come.
-- None is the connection's error once no datagram is left.
unfoldable pub read_from :
    ℕ → ℕ → List Packet → List Conn → Option (Bytes × AddrPort × List Conn × List Packet)
unfolding receive dispatch
read_from i size [] cs = elim (receive i cs) [
  | none ↦ none
  | some (pkt, cs') ↦ some (take size pkt.b, pkt.addr, cs', [])
]
read_from i size (d ∷ ds) cs = elim (receive i cs) [
  | none ↦ read_from i size ds (dispatch d cs)
  | some (pkt, cs') ↦ some (take size pkt.b, pkt.addr, cs', d ∷ ds)
]
