-- ===== src/Disco/Endpoint/Interleaving.antt =====
-- The goroutines that act on one endpoint (disco/discoPeerEndpoint.go), in every order. ReceivePing is two
-- steps, and so are handlePong and dropCallback, whose part at the packet manager comes before the lock.
use tetrapod.Base.{ℕ, Bool, List, [], ◌∷◌, Option}
use tetrapod.Base.Bytes.{Bytes}
use tetrapod.Wgkey.{Box}
use tetrapod.Disco.Packet.{DiscoPacket}
use tetrapod.Disco.Pktmgr.{expire, recv_ack}
use tetrapod.Disco.Ticker.{connected, Priority, back_off, wake}
use tetrapod.Disco.Endpoint.{
  Endpoint, enter, drop_callback, packet_timeout, send_disco_ping, receive_packet, set_priority,
  is_connecting, receive_ping, close,
}

-- What may happen next. `received` and `timed_out` are the methods with nothing in between; `ack_taken` and
-- `expired` are their parts before the lock, `ack_entered` and `drop_entered` those under it. `ping_checked` is
-- ReceivePing up to the lock, and `ping_locked` the rest of a call that has come so far.
pub data Action : Type 0 where
  pinged : ℕ → Option Bytes → Action
  timed_out expired : ℕ → Action
  received : ℕ → DiscoPacket → Action
  ack_taken : ℕ → ℕ → Action
  ack_entered : ℕ → Action
  drop_entered : Action
  prioritised : Priority → Action
  ping_checked : Action
  ping_locked : ℕ → Action
  woken backed_off closed_down : Action

-- The endpoint, and what the calls of ReceivePing read that wait for the lock.
pub record Shared : Type 0 where
  pub endpoint : Endpoint
  pub checked : List Bool

-- The first of the waiting calls gets the lock.
abbrev pub lock_next : ℕ → Endpoint → List Bool → Shared
lock_next now pe [] = record { endpoint = pe; checked = [] }
lock_next now pe (was_connecting ∷ bs) = record {
  endpoint = receive_ping was_connecting now pe;
  checked = bs;
}

module _ (box : Box) where
  -- The steps that are not ReceivePing's.
  unfoldable pub act : Action → Endpoint → Endpoint
  unfolding send_disco_ping packet_timeout receive_packet recv_ack expire enter drop_callback
      set_priority wake back_off close
  act (pinged now random) pe = (send_disco_ping box now random pe).0
  act (timed_out id) pe = packet_timeout id pe
  act (expired id) pe = record pe { packet_manager = (expire id pe.packet_manager).1 }
  act (received now pkt) pe = receive_packet now pkt pe
  act (ack_taken now id) pe = record pe { packet_manager = (recv_ack now id pe.packet_manager).1 }
  act (ack_entered rtt) pe = enter connected rtt pe
  act drop_entered pe = drop_callback pe
  act (prioritised p) pe = set_priority p pe
  act ping_checked pe = pe
  act (ping_locked now) pe = pe
  act woken pe = record pe { ticker = wake pe.ticker }
  act backed_off pe = record pe { ticker = back_off pe.ticker }
  act closed_down pe = close pe

  unfoldable pub step : Action → Shared → Shared
  unfolding act receive_ping
  step ping_checked s = record s { checked = is_connecting s.endpoint ∷ s.checked }
  step (ping_locked now) s = lock_next now s.endpoint s.checked
  step a s = record s { endpoint = act a s.endpoint }

  unfoldable pub steps : List Action → Shared → Shared
  unfolding step
  steps [] s = s
  steps (a ∷ as') s = steps as' (step a s)
