-- ===== src/Disco/Peer/Selection.antt =====
-- updateStatus of disco/discoPeer.go: the connected endpoint with the least round trip time becomes the
-- primary and active one.
pub mod Optimal
use tetrapod.Base.{
  ℕ, ◌-◌, ◌^◌, Bool, true, false, not, ◌&&◌, ◌||◌, List, [], ◌∷◌, Option, none, some, ltb, ◌==◌,
  if◌then◌else◌, is_yes, ℕ_discrete,
}
use tetrapod.Base.Netip.{AddrPort}
use tetrapod.Pkg.Syncmap.{Map, load, store}
use tetrapod.Disco.Ticker.{State, connected, State-discrete, Priority, primary, sub}
use tetrapod.Disco.Endpoint.{Endpoint, Status, set_priority}
use tetrapod.Disco.Peer.{Peer, PeerStatus, zero_addr_port}

-- math.MaxInt64, which no measured round trip reaches.
abbrev pub max_int64 : ℕ
max_int64 = 2 ^ 63 - 1

-- The three variables that the first Range updates.
pub record Best : Type 0 where
  pub min_rtt : ℕ
  pub min_endpoint : AddrPort
  pub min_id : ℕ

abbrev found : ℕ → Status → Option Endpoint → Best → Best
found key value none b = b
found key value (some dpe) b = record {
  min_rtt = value.rtt;
  min_endpoint = dpe.endpoint;
  min_id = key;
}

-- One visit of the first Range.
unfoldable pub consider : Map ℕ Endpoint → ℕ → Status → Best → Best
unfolding load ℕ_discrete State-discrete
consider endpoints key value b =
    if not (is_yes (State-discrete value.state connected)) || ltb b.min_rtt value.rtt
    then b
    else found key value (load ℕ_discrete key endpoints) b

unfoldable pub consider_all : Map ℕ Endpoint → List (ℕ × Status) → Best → Best
unfolding consider
consider_all endpoints [] b = b
consider_all endpoints ((key, value) ∷ visited) b =
    consider_all endpoints visited (consider endpoints key value b)

abbrev pub no_best : Best
no_best = record { min_rtt = max_int64; min_endpoint = zero_addr_port; min_id = 0 }

unfoldable pub best_of : Peer → Best
unfolding consider_all
best_of p = consider_all p.endpoints p.endpoint_status_map no_best

-- The second Range: every endpoint gets its priority.
abbrev pub priority_for : Best → ℕ → Priority
priority_for b key =
    if b.min_rtt == max_int64 then primary else (if key == b.min_id then primary else sub)

unfoldable pub prioritise : Best → Map ℕ Endpoint → Map ℕ Endpoint
unfolding set_priority
prioritise b [] = []
prioritise b ((key, value) ∷ es) = (key, set_priority (priority_for b key) value) ∷ prioritise b es

unfoldable pub update_status : Peer → Peer
unfolding best_of prioritise
update_status p =
    let b = best_of p in
    record p {
      endpoints = prioritise b p.endpoints;
      status =
          if b.min_rtt == max_int64
          then p.status
          else record { active_endpoint = b.min_endpoint; active_rtt = b.min_rtt };
    }

-- The callback that SetEndpoints gives to an endpoint's status.
unfoldable pub endpoint_notified : ℕ → Status → Peer → Peer
unfolding store ℕ_discrete update_status
endpoint_notified endpoint_id status p =
    update_status
      (record p { endpoint_status_map = store ℕ_discrete endpoint_id status p.endpoint_status_map })
