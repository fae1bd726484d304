-- ===== src/Disco/Endpoint/Pings.antt =====
-- What an endpoint does with pings: the ids that it sends, and how often a received ping restarts it.
use tetrapod.Base.{ℕ, ◌+◌, ◌*◌, ◌≤◌, ◌≡◌, Bool, true, none, arith}
use tetrapod.Disco.Ticker.{connecting, set_state, millisecond, second}
use tetrapod.Disco.Endpoint.{Endpoint, is_connecting, receive_ping}

-- A received ping restarts the ticker at 100 ms if the endpoint is still connecting, and then no ping
-- received within the next 30 s changes anything, whatever its call read of the status.
pub receive_ping_restarts_once :
    (t now : ℕ) (b : Bool) (pe : Endpoint)
    → pe.status.state ≡ connecting
    → pe.last_reinitialized ≡ none
    → now ≤ t + 30 * second
    → let pe' = receive_ping (is_connecting pe) t pe in
      (pe'.ticker.current_interval ≡ 100 * millisecond)
      × (pe'.ticker.reset ≡ true)
      × (receive_ping b now pe' ≡ pe')
unfolding receive_ping set_state
receive_ping_restarts_once t now b pe c l h = ground arith
