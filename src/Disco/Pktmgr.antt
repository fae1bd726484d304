-- ===== src/Disco/Pktmgr.antt =====
-- disco/pktmgr/pktmgr.go: the packets that wait for an answer, by id, with the time of sending. Times are
-- numbers of nanoseconds on the monotonic clock, and `now` is an argument. The goroutine that waits
-- for the timeout is the step `expire`, which the environment takes once the timeout is over.
pub mod Laws
pub mod Traces
use tetrapod.Base.{
  ℕ, ◌-◌, Bool, true, false, List, [], ◌∷◌, Option, none, some, ltb, if◌then◌else◌, is_some,
  ℕ_discrete,
}
use tetrapod.Pkg.Syncmap.{Map, load, store, delete, load_and_delete}

abbrev pub Manager : Type 0
Manager = Map ℕ ℕ

unfoldable pub add_packet : ℕ → ℕ → Manager → Manager
unfolding store ℕ_discrete
add_packet now id m = store ℕ_discrete id now m

-- The end of the timeout: whether dropCallback is called, and the map.
unfoldable pub expire : ℕ → Manager → Bool × Manager
unfolding load_and_delete ℕ_discrete
expire id m = let (sent, rest) = load_and_delete ℕ_discrete id m in (is_some sent, rest)

-- The Range in RecvAck: each visited packet that was sent before `received_at` is deleted.
unfoldable pub sweep : ℕ → List (ℕ × ℕ) → Manager → Manager
unfolding delete ℕ_discrete
sweep received_at [] m = m
sweep received_at ((key, value) ∷ visited) m =
    sweep received_at visited (if ltb value received_at then delete ℕ_discrete key m else m)

abbrev acked : ℕ → Option ℕ → Manager → Option ℕ × Manager
acked now none m = (none, m)
acked now (some received_at) m = (some (now - received_at), sweep received_at m m)

-- The round trip time, if the packet was still waiting.
unfoldable pub recv_ack : ℕ → ℕ → Manager → Option ℕ × Manager
unfolding load_and_delete sweep ℕ_discrete
recv_ack now id m = let (sent, rest) = load_and_delete ℕ_discrete id m in acked now sent rest
