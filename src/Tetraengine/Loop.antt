-- ===== src/Tetraengine/Loop.antt =====
-- How tetraengine decides to reconfigure (tetraengine/tetraengine.go): triggerReconfig and runReconfig with
-- their channel of one token, Reconfig, Trigger, Close, and the callback of disco with its hash. Each
-- atomic access and each use of the channel is a step of its own; hasDiscoStatusUpdate is one step.
pub mod Latest
use tetrapod.Base.{
  ℕ, zero, suc, ◌+◌, ◌-◌, Bool, true, false, Option, none, some, List, [], ◌∷◌, map, if◌then◌else◌,
  is_yes,
}
use tetrapod.Base.Bytes.{Bytes, Bytes-discrete}
use tetrapod.Base.Order.{sort_slice}

-- What hasDiscoStatusUpdate hashes: the texts of the keys and of the active endpoints, sorted by the keys.
unfoldable pub status_pairs :
    {K A : Type 0} → (K → Bytes) → (A → Bytes) → List (K × A) → List (Bytes × Bytes)
unfolding sort_slice
status_pairs key_text addr_text statuses =
    sort_slice (λ p. p.0) (map (λ s. (key_text s.0, addr_text s.1)) statuses)

-- Where runReconfig stands: at the receive, in hijackConn.Refresh, after the configuration is read and its
-- key parsed, returned.
pub data Place : Type 0 where
  receiving refreshing configured finished : Place

-- `C` is a configuration, `S` the statuses of the peers. `owing` counts the calls of Reconfig that have
-- stored their configuration and not yet triggered; `used` and `read` are the configuration and the
-- statuses that the last reconfig took.
pub record Engine (C S : Type 0) : Type 0 where
  pub current_config : C
  pub statuses : S
  pub latest_disco_status_hash : Option Bytes
  pub token : Bool
  pub closed : Bool
  pub panicked : Bool
  pub owing : ℕ
  pub place : Place
  pub used : Option C
  pub read : Option S

-- A call of Reconfig is two events; `trigger_called` is Trigger.
pub data Event (C S : Type 0) : Type 0 where
  config_stored : C → Event C S
  reconfig_triggers trigger_called : Event C S
  statuses_change : S → Event C S
  status_callback : Event C S
  goes_on : Event C S
  closes : Event C S

unfoldable pub is_latest : Bytes → Option Bytes → Bool
unfolding Bytes-discrete
is_latest h none = false
is_latest h (some latest) = is_yes (Bytes-discrete h latest)

module _ {C S : Type 0} where
  -- A send on a closed channel panics; when the channel is full, the default is taken.
  unfoldable pub trigger_reconfig : Engine C S → Engine C S
  trigger_reconfig e = if e.closed then record e { panicked = true } else record e { token = true }

  -- init, with the statuses of no peer.
  unfoldable pub init : C → S → Engine C S
  unfolding trigger_reconfig
  init config statuses = trigger_reconfig (record {
    current_config = config;
    statuses = statuses;
    latest_disco_status_hash = none;
    token = false;
    closed = false;
    panicked = false;
    owing = 0;
    place = receiving;
    used = none;
    read = none;
  })

  -- Whether the statuses have another hash than the last time, and the engine that remembers it.
  unfoldable pub has_disco_status_update : (S → Bytes) → Engine C S → Bool × Engine C S
  unfolding is_latest
  has_disco_status_update hash e =
      if is_latest (hash e.statuses) e.latest_disco_status_hash
      then (false, e)
      else (true, record e { latest_disco_status_hash = some (hash e.statuses) })

  unfoldable pub disco_status_callback : (S → Bytes) → Engine C S → Engine C S
  unfolding has_disco_status_update trigger_reconfig
  disco_status_callback hash e =
      let (updated, e') = has_disco_status_update hash e in
      if updated then trigger_reconfig e' else e'

  -- A step of runReconfig. `valid` says that the private key of a configuration is parsed; without it
  -- reconfig returns before it looks at the statuses.
  unfoldable pub run_reconfig : (C → Bool) → Place → Engine C S → Engine C S
  run_reconfig valid receiving e =
      if e.token
      then record e { token = false; place = refreshing }
      else (if e.closed then record e { place = finished } else e)
  run_reconfig valid refreshing e = record e {
    used = some e.current_config;
    place = if valid e.current_config then configured else receiving;
  }
  run_reconfig valid configured e = record e { read = some e.statuses; place = receiving }
  run_reconfig valid finished e = e

  -- The trigger at the end of a call of Reconfig.
  abbrev pub pay : ℕ → Engine C S → Engine C S
  pay zero e = e
  pay (suc n) e = trigger_reconfig (record e { owing = n })

  unfoldable pub step : (S → Bytes) → (C → Bool) → Engine C S → Event C S → Engine C S
  unfolding disco_status_callback run_reconfig trigger_reconfig
  step hash valid e (config_stored c) = record e { current_config = c; owing = 1 + e.owing }
  step hash valid e reconfig_triggers = pay e.owing e
  step hash valid e trigger_called = trigger_reconfig e
  step hash valid e (statuses_change s) = record e { statuses = s }
  step hash valid e status_callback = disco_status_callback hash e
  step hash valid e goes_on = run_reconfig valid e.place e
  step hash valid e closes = record e { closed = true }

  unfoldable pub run : (S → Bytes) → (C → Bool) → List (Event C S) → Engine C S → Engine C S
  unfolding step
  run hash valid [] e = e
  run hash valid (ev ∷ evs) e = run hash valid evs (step hash valid e ev)
