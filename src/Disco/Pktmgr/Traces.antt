-- ===== src/Disco/Pktmgr/Traces.antt =====
-- The packet manager over any sequence of sends, answers and timeouts, in any order.
use tetrapod.Base.{
  ℕ, suc, ◌+◌, ◌≤◌, ◌≡◌, refl, Bool, true, false, List, [], ◌∷◌, Option, none, some, is_some,
  ℕ_discrete, arith, ite, inl, inr, Option-cases,
}
use tetrapod.Pkg.Syncmap.{load}
use tetrapod.Pkg.Syncmap.Laws.{Distinct, load-store, load-delete, store-Distinct, delete-Distinct}
use tetrapod.Disco.Pktmgr.{Manager, add_packet, expire, recv_ack}
use tetrapod.Disco.Pktmgr.Laws.{recv_ack_waiting, recv_ack_absent, recv_ack-Distinct, not_before}

pub data Event : Type 0 where
  sent : ℕ → Event
  timed_out : ℕ → Event
  answered : ℕ → Event

-- The manager after an event at a time, and whether the event was reported as a drop or a round trip.
unfoldable pub step : Manager → ℕ → Event → Manager × Bool
unfolding add_packet expire recv_ack
step m now (sent id) = (add_packet now id m, false)
step m now (timed_out id) = let (dropped, rest) = expire id m in (rest, dropped)
step m now (answered id) = let (rtt, rest) = recv_ack now id m in (rest, is_some rtt)

abbrev pub subject : Event → ℕ
subject (sent id) = id
subject (timed_out id) = id
subject (answered id) = id

abbrev is_sent : Event → Bool
is_sent (sent id) = true
is_sent _ = false

abbrev count_if : Bool → ℕ → ℕ
count_if true n = suc n
count_if false n = n

-- How often the packet `k` was sent.
unfoldable pub sends : ℕ → List (ℕ × Event) → ℕ
sends k [] = 0
sends k ((now, e) ∷ es) =
    let rest = sends k es in ite (ℕ_discrete (subject e) k) (count_if (is_sent e) rest) rest

-- How often a drop or a round trip of the packet `k` was reported.
unfoldable pub reports : ℕ → Manager → List (ℕ × Event) → ℕ
unfolding step
reports k m [] = 0
reports k m ((now, e) ∷ es) =
    let (m', reported) = step m now e in
    let rest = reports k m' es in ite (ℕ_discrete (subject e) k) (count_if reported rest) rest

step-Distinct :
    (m : Manager) (now : ℕ) (e : Event)
    → Distinct ℕ_discrete m
    → Distinct ℕ_discrete (step m now e).0
unfolding step add_packet expire
step-Distinct m now (sent id) d = store-Distinct ℕ_discrete id now m d
step-Distinct m now (timed_out id) d = delete-Distinct ℕ_discrete id m d
step-Distinct m now (answered id) d = recv_ack-Distinct now id m d

-- 1 for a packet that waits, else 0.
abbrev waits : Option ℕ → ℕ
waits none = 0
waits (some t) = 1

not_before-waits : (t : ℕ) (o : Option ℕ) → waits (not_before t o) ≤ waits o
not_before-waits t none = omega arith
not_before-waits t (some v) = ground arith

-- One event: what is reported of `k` and still waits is covered by what waited and was sent.
step-waits :
    (k : ℕ) (m : Manager) (now : ℕ) (e : Event)
    → Distinct ℕ_discrete m
    → ite (ℕ_discrete (subject e) k) (count_if (step m now e).1 0) 0
        + waits (load ℕ_discrete k (step m now e).0)
      ≤ ite (ℕ_discrete (subject e) k) (count_if (is_sent e) 0) 0 + waits (load ℕ_discrete k m)
unfolding step add_packet expire
step-waits k m now (sent id) d = ground (arith, load-store ℕ_discrete k id now m)
step-waits k m now (timed_out id) d = ground (arith, load-delete ℕ_discrete k id m)
step-waits k m now (answered id) d = elim (Option-cases (load ℕ_discrete id m)) [
  | inl e ↦ ground (arith, recv_ack_absent now id m e, e)
  | inr (t, e) ↦ ground (
    arith,
    (recv_ack_waiting now id t m d e).0,
    (recv_ack_waiting now id t m d e).1 k,
    not_before-waits t (load ℕ_discrete k m),
    e,
  )
]

reports-sends_from :
    (k : ℕ) (m : Manager) (es : List (ℕ × Event))
    → Distinct ℕ_discrete m
    → reports k m es ≤ sends k es + waits (load ℕ_discrete k m)
unfolding reports sends
reports-sends_from k m [] d = omega arith
reports-sends_from k m ((now, e) ∷ es) d = ground (
  arith,
  step-waits k m now e d,
  reports-sends_from k (step m now e).0 es (step-Distinct m now e d),
)

-- Whatever the order of answers and timeouts, duplicates included, a packet is reported, as dropped or
-- as answered, at most as often as it was sent.
pub reports-le-sends : (k : ℕ) (es : List (ℕ × Event)) → reports k [] es ≤ sends k es
reports-le-sends k es = omega (arith, reports-sends_from k [] es tt, empty)
  where
    empty : waits (load {V = ℕ} ℕ_discrete k []) ≡ 0
    empty = unfold load in refl
