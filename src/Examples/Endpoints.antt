-- ===== src/Examples/Endpoints.antt =====
-- The packet manager, the ticker and the endpoint at work.
use tetrapod.Base.{ℕ, ◌*◌, ◌≤◌, ◌≡◌, refl, true, false, List, [], ◌∷◌, some, arith, All}
use tetrapod.Disco.Packet.{DiscoPacket, pong_message}
use tetrapod.Disco.Pktmgr.{Manager, add_packet, expire, recv_ack}
use tetrapod.Disco.Pktmgr.Traces.{
  Event, sent, timed_out, answered, reports, sends, reports-le-sends,
}
use tetrapod.Disco.Ticker.{
  connecting, connected, primary, sub, waiting, fired, arm, timer_fired, backs_off, sets_state,
  start, step, millisecond, second, set_state, Ticker, take_reset,
}
use tetrapod.Disco.Ticker
use tetrapod.Disco.Ticker.Schedule.{IsCall, Inv, run, run-Inv, wakes_within_ten_seconds}
use tetrapod.Disco.Endpoint.{Endpoint, new_endpoint, enter}
use tetrapod.Disco.Endpoint.Interleaving.{
  Action, Shared, step as endpoint_step, steps, pinged, received, ack_entered, drop_entered,
  prioritised, ping_checked, ping_locked,
}
use tetrapod.Disco.Endpoint.Tracking.{Tracks, Agrees, endpoint-Tracks}
use tetrapod.Examples.Packets.{toy_box, here, nonce, alice, alice_ping}

-- Three packets wait; the answer to the second makes the first one forgotten.
abbrev three : Manager
three = (1, 100) ∷ (2, 200) ∷ (3, 300) ∷ []

recv_ack_second : recv_ack 250 2 three ≡ (some 50, (3, 300) ∷ [])
unfolding recv_ack
recv_ack_second = refl

abbrev answered_twice : List (ℕ × Event)
answered_twice = (0, sent 1) ∷ (40, answered 1) ∷ (50, answered 1) ∷ (400, timed_out 1) ∷ []

reports_once : reports 1 [] answered_twice ≡ 1
unfolding reports add_packet recv_ack expire
reports_once = refl

reports-le-sends_example : reports 1 [] answered_twice ≤ sends 1 answered_twice
reports-le-sends_example = reports-le-sends 1 answered_twice

-- The first wake-up at 100 ms, the back-off, then a switch to a connected sub endpoint.
abbrev morning : List Ticker.Event
morning =
    arm ∷ timer_fired (100 * millisecond) ∷ backs_off ∷ sets_state connected sub false ∷ arm ∷ []

morning_deadline : (run start morning).deadline ≡ 3_100 * millisecond
unfolding run start step
morning_deadline = refl

morning_calls : All IsCall morning
morning_calls = (tt, (tt, (tt, ((λ e. cc, λ e. cc), (tt, tt)))))

run-Inv_example : Inv (run start morning)
run-Inv_example = run-Inv morning morning_calls

wakes_within_ten_seconds_example :
    let r = step (run start morning) (timer_fired (11 * second)) in
    (r.pc ≡ fired) × (r.ticker.wake_ch ≡ true) × (r.run_prev ≡ 11 * second)
unfolding run start step
wakes_within_ten_seconds_example =
    wakes_within_ten_seconds morning (11 * second) morning_calls refl (omega arith)

abbrev just_fired : List Ticker.Event
just_fired = arm ∷ timer_fired (100 * millisecond) ∷ []

abbrev fresh : Endpoint
unfolding new_endpoint
fresh = new_endpoint 7 here alice (96 ∷ [])

abbrev answer_to_first : DiscoPacket
answer_to_first = record alice_ping { header = pong_message; id = 0 }

-- A received ping is checked, the endpoint connects, and only then the check's call gets the lock.
abbrev life : List Action
life = pinged 5 (some nonce) ∷ ping_checked ∷ received 9 answer_to_first ∷ ping_locked 10 ∷ []

abbrev at_start : Shared
at_start = record { endpoint = new_endpoint 7 here alice (96 ∷ []); checked = [] }

restarted_late :
    let pe = (steps toy_box life at_start).endpoint in
    (pe.status.state ≡ connected) × (pe.ticker.state ≡ connecting)
unfolding steps endpoint_step new_endpoint
restarted_late = (refl, refl)

endpoint-Tracks_example :
    let now = steps toy_box life at_start in
    Tracks now.endpoint
    × Agrees (endpoint_step toy_box (ack_entered 4) now).endpoint
    × Agrees (endpoint_step toy_box drop_entered now).endpoint
    × Agrees (endpoint_step toy_box (prioritised primary) now).endpoint
endpoint-Tracks_example = endpoint-Tracks toy_box 7 here alice (96 ∷ []) life 4 primary

-- Connected, with the ping 0 on its way.
abbrev linked : Endpoint
unfolding new_endpoint enter
linked = record (enter connected 3 fresh) { packet_manager = (0, 8) ∷ [] }
