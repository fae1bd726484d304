-- ===== src/Disco/Endpoint/Tracking.antt =====
-- Whether the ticker of an endpoint runs on the state that its status reports.
use tetrapod.Base.{
  ℕ, ◌≡◌, refl, ◌⊎◌, inl, inr, Bool, true, false, List, [], ◌∷◌, arith, is_some, Bool-cases,
  Option-cases, sym, ◌∙◌, ◌==◌,
}
use tetrapod.Base.Bytes.{Bytes}
use tetrapod.Base.Netip.{AddrPort}
use tetrapod.Wgkey.{Box}
use tetrapod.Disco.Packet.{DiscoPacket, pong_message}
use tetrapod.Disco.Pktmgr.{expire, recv_ack}
use tetrapod.Disco.Ticker.{
  State, connecting, connected, Priority, Ticker, set_state, back_off, wake,
}
use tetrapod.Disco.Endpoint.{
  Endpoint, new_endpoint, enter, drop_callback, packet_timeout, handle_pong, send_disco_ping,
  receive_packet, set_priority, reinitialize, receive_ping, close, reinitialized_lately,
}
use tetrapod.Disco.Endpoint.Interleaving.{
  Action, pinged, timed_out, expired, received, ack_taken, ack_entered, drop_entered, prioritised,
  ping_checked, ping_locked, woken, backed_off, closed_down, Shared, lock_next, act, step, steps,
}

pub record Agrees (pe : Endpoint) : Type 0 where
  pub same_state : pe.ticker.state ≡ pe.status.state
  pub same_priority : pe.ticker.priority ≡ pe.priority

-- A ticker that was restarted under a status that had turned to connected.
pub record RestartedLate (pe : Endpoint) : Type 0 where
  pub status_connected : pe.status.state ≡ connected
  pub ticker_connecting : pe.ticker.state ≡ connecting
  pub same_priority : pe.ticker.priority ≡ pe.priority
  pub restarted : is_some pe.last_reinitialized ≡ true

-- The status is one of the two that the program sets, and the ticker runs on it, or was restarted late.
pub record Tracks (pe : Endpoint) : Type 0 where
  pub known : (pe.status.state ≡ connecting) ⊎ (pe.status.state ≡ connected)
  pub runs : Agrees pe ⊎ RestartedLate pe

new_endpoint-Tracks : (id : ℕ) (ep : AddrPort) (k s : Bytes) → Tracks (new_endpoint id ep k s)
unfolding new_endpoint
new_endpoint-Tracks id ep k s = record {
  known = inl refl;
  runs = inl (record { same_state = refl; same_priority = refl });
}

-- SetState leaves the ticker with the state and priority that it was given, also by its early return.
pub set_state_sets :
    (s : State) (p : Priority) (force : Bool) (t : Ticker)
    → ((set_state s p force t).state ≡ s) × ((set_state s p force t).priority ≡ p)
unfolding set_state
set_state_sets s p force t = ground arith

enter-Agrees : (state : State) (rtt : ℕ) (pe : Endpoint) → Agrees (enter state rtt pe)
unfolding enter
enter-Agrees state rtt pe = record {
  same_state = (set_state_sets state pe.priority false pe.ticker).0;
  same_priority = (set_state_sets state pe.priority false pe.ticker).1;
}

pub enter_connected-Tracks : (rtt : ℕ) (pe : Endpoint) → Tracks (enter connected rtt pe)
unfolding enter
enter_connected-Tracks rtt pe = record {
  known = inr refl;
  runs = inl (enter-Agrees connected rtt pe);
}

drop_callback-Tracks : (pe : Endpoint) → Tracks (drop_callback pe)
unfolding drop_callback enter
drop_callback-Tracks pe = record { known = inl refl; runs = inl (enter-Agrees connecting 0 pe) }

set_priority-Agrees : (p : Priority) (pe : Endpoint) → Agrees (set_priority p pe)
unfolding set_priority
set_priority-Agrees p pe = record {
  same_state = (set_state_sets pe.status.state p false pe.ticker).0;
  same_priority = (set_state_sets pe.status.state p false pe.ticker).1;
}

-- A step that leaves alone what is tracked.
same-Tracks :
    (pe pe' : Endpoint)
    → pe'.ticker.state ≡ pe.ticker.state
    → pe'.ticker.priority ≡ pe.ticker.priority
    → pe'.status ≡ pe.status
    → pe'.priority ≡ pe.priority
    → pe'.last_reinitialized ≡ pe.last_reinitialized
    → Tracks pe
    → Tracks pe'
same-Tracks pe pe' ts tp st p l t = record {
  known = rw st t.known;
  runs = elim t.runs [
    | inl a ↦ inl (record {
      same_state = rw (ts, st) a.same_state;
      same_priority = rw (tp, p) a.same_priority;
    })
    | inr r ↦ inr (record {
      status_connected = rw st r.status_connected;
      ticker_connecting = rw ts r.ticker_connecting;
      same_priority = rw (tp, p) r.same_priority;
      restarted = rw l r.restarted;
    })
  ];
}

packet_timeout-Tracks : (id : ℕ) (pe : Endpoint) → Tracks pe → Tracks (packet_timeout id pe)
unfolding packet_timeout
packet_timeout-Tracks id pe t = elim (Bool-cases (expire id pe.packet_manager).0) [
  | inl e ↦
      rw e (drop_callback-Tracks (record pe { packet_manager = (expire id pe.packet_manager).1 }))
  | inr e ↦ rw e (same-Tracks pe _ refl refl refl refl refl t)
]

handle_pong-Tracks :
    (now : ℕ) (pkt : DiscoPacket) (pe : Endpoint) → Tracks pe → Tracks (handle_pong now pkt pe)
unfolding handle_pong
handle_pong-Tracks now pkt pe t = elim (Option-cases (recv_ack now pkt.id pe.packet_manager).0) [
  | inl e ↦ rw e (same-Tracks pe _ refl refl refl refl refl t)
  | inr (rtt, e) ↦ rw e (
      enter_connected-Tracks rtt
        (record pe { packet_manager = (recv_ack now pkt.id pe.packet_manager).1 }))
]

receive_packet-Tracks :
    (now : ℕ) (pkt : DiscoPacket) (pe : Endpoint) → Tracks pe → Tracks (receive_packet now pkt pe)
unfolding receive_packet
receive_packet-Tracks now pkt pe t = elim (Bool-cases (pkt.header == pong_message)) [
  | inl e ↦ rw e (handle_pong-Tracks now pkt pe t)
  | inr e ↦ rw e t
]

-- The ticker is put back to connecting, whatever the status is by then.
receive_ping-Tracks :
    (was_connecting : Bool) (now : ℕ) (pe : Endpoint)
    → Tracks pe
    → Tracks (receive_ping was_connecting now pe)
unfolding receive_ping reinitialize
receive_ping-Tracks false now pe t = t
receive_ping-Tracks true now pe t =
    elim (Bool-cases (reinitialized_lately now pe.last_reinitialized)) [
      | inl e ↦ rw e t
      | inr e ↦
          let set = set_state_sets connecting pe.priority true pe.ticker in
          rw e (record {
            known = t.known;
            runs = elim t.known [
              | inl c ↦ inl (record { same_state = set.0 ∙ sym c; same_priority = set.1 })
              | inr c ↦ inr (record {
                status_connected = c;
                ticker_connecting = set.0;
                same_priority = set.1;
                restarted = refl;
              })
            ];
          })
    ]

module _ (box : Box) where
  act-Tracks : (a : Action) (pe : Endpoint) → Tracks pe → Tracks (act box a pe)
  unfolding act send_disco_ping set_priority wake back_off close
  act-Tracks (pinged now random) pe t =
      let pe' = (send_disco_ping box now random pe).0 in
      same-Tracks pe pe' (ground arith) (ground arith) (ground arith) (ground arith) (ground arith)
        t
  act-Tracks (timed_out id) pe t = packet_timeout-Tracks id pe t
  act-Tracks (expired id) pe t = same-Tracks pe _ refl refl refl refl refl t
  act-Tracks (received now pkt) pe t = receive_packet-Tracks now pkt pe t
  act-Tracks (ack_taken now id) pe t = same-Tracks pe _ refl refl refl refl refl t
  act-Tracks (ack_entered rtt) pe t = enter_connected-Tracks rtt pe
  act-Tracks drop_entered pe t = drop_callback-Tracks pe
  act-Tracks (prioritised p) pe t = record {
    known = t.known;
    runs = inl (set_priority-Agrees p pe);
  }
  act-Tracks ping_checked pe t = t
  act-Tracks (ping_locked now) pe t = t
  act-Tracks woken pe t = same-Tracks pe _ refl refl refl refl refl t
  act-Tracks backed_off pe t = same-Tracks pe _ refl refl refl refl refl t
  act-Tracks closed_down pe t = same-Tracks pe _ refl refl refl refl refl t

  step-Tracks : (a : Action) (s : Shared) → Tracks s.endpoint → Tracks (step box a s).endpoint
  unfolding step
  step-Tracks ping_checked s t = t
  step-Tracks (ping_locked now) s t = locked s.checked
    where
      locked : (bs : List Bool) → Tracks (lock_next now s.endpoint bs).endpoint
      locked [] = t
      locked (b ∷ bs) = receive_ping-Tracks b now s.endpoint t
  step-Tracks (pinged now random) s t = act-Tracks (pinged now random) s.endpoint t
  step-Tracks (timed_out id) s t = act-Tracks (timed_out id) s.endpoint t
  step-Tracks (expired id) s t = act-Tracks (expired id) s.endpoint t
  step-Tracks (received now pkt) s t = act-Tracks (received now pkt) s.endpoint t
  step-Tracks (ack_taken now id) s t = act-Tracks (ack_taken now id) s.endpoint t
  step-Tracks (ack_entered rtt) s t = act-Tracks (ack_entered rtt) s.endpoint t
  step-Tracks drop_entered s t = act-Tracks drop_entered s.endpoint t
  step-Tracks (prioritised p) s t = act-Tracks (prioritised p) s.endpoint t
  step-Tracks woken s t = act-Tracks woken s.endpoint t
  step-Tracks backed_off s t = act-Tracks backed_off s.endpoint t
  step-Tracks closed_down s t = act-Tracks closed_down s.endpoint t

  steps-Tracks :
      (as' : List Action) (s : Shared) → Tracks s.endpoint → Tracks (steps box as' s).endpoint
  unfolding steps
  steps-Tracks [] s t = t
  steps-Tracks (a ∷ as') s t = steps-Tracks as' (step box a s) (step-Tracks a s t)

  -- In every order of the steps of the goroutines that act on an endpoint, ReceivePing's check before its
  -- lock a step of its own: the ticker's priority is the endpoint's, and its state the one that the status
  -- reports, but for one case, where the status is connected and a received ping has put the ticker back
  -- to connecting. An answer, a timeout or a priority that is set makes both states agree again.
  pub endpoint-Tracks :
      (id : ℕ) (ep : AddrPort) (k s : Bytes) (as' : List Action) (rtt : ℕ) (p : Priority)
      → let now = steps box as' (record { endpoint = new_endpoint id ep k s; checked = [] }) in
        Tracks now.endpoint
        × Agrees (step box (ack_entered rtt) now).endpoint
        × Agrees (step box drop_entered now).endpoint
        × Agrees (step box (prioritised p) now).endpoint
  unfolding step act drop_callback
  endpoint-Tracks id ep k s as' rtt p =
      let now = steps box as' (record { endpoint = new_endpoint id ep k s; checked = [] }) in
      (
        steps-Tracks as' _ (new_endpoint-Tracks id ep k s),
        enter-Agrees connected rtt now.endpoint,
        enter-Agrees connecting 0 now.endpoint,
        set_priority-Agrees p now.endpoint,
      )
