-- ===== src/Disco/Pktmgr/Laws.antt =====
-- Which packets wait after an answer or a timeout, and that each is reported once.
use tetrapod.Base.{
  ℕ, ◌-◌, ◌≡◌, refl, inl, inr, Bool, false, ◌&&◌, ◌||◌, List, [], ◌∷◌, Option, none, some, ltb,
  if◌then◌else◌, ℕ_discrete, arith, Option-cases, ite, is_yes,
}
use tetrapod.Pkg.Syncmap.{load, delete}
use tetrapod.Pkg.Syncmap.Laws.{load-delete, Distinct, delete-Distinct}
use tetrapod.Disco.Pktmgr.{Manager, expire, sweep, recv_ack}

-- Whether a packet is among the visited ones that were sent before `t`.
older : ℕ → ℕ → List (ℕ × ℕ) → Bool
older t k [] = false
older t k ((j, v) ∷ es) = (is_yes (ℕ_discrete j k) && ltb v t) || older t k es

load-sweep :
    (t k : ℕ) (es m : Manager)
    → load ℕ_discrete k (sweep t es m) ≡ (if older t k es then none else load ℕ_discrete k m)
unfolding sweep older
load-sweep t k [] m = refl
load-sweep t k ((j, v) ∷ es) m = ground (
  arith,
  load-sweep t k es (if ltb v t then delete ℕ_discrete j m else m),
  load-delete ℕ_discrete k j m,
)

-- What stays of a lookup once the packets sent before `t` are gone.
abbrev pub not_before : ℕ → Option ℕ → Option ℕ
not_before t none = none
not_before t (some v) = if ltb v t then none else some v

not_older : (t k : ℕ) (m : Manager) → load ℕ_discrete k m ≡ none → older t k m ≡ false
unfolding load older
not_older t k [] h = refl
not_older t k ((j, v) ∷ m) h = ground (arith, not_older t k m)

older-load :
    (t k : ℕ) (m : Manager)
    → Distinct ℕ_discrete m
    → (if older t k m then none else load ℕ_discrete k m) ≡ not_before t (load ℕ_discrete k m)
unfolding load older
older-load t k [] d = refl
older-load t k ((j, v) ∷ m) d = ground (arith, older-load t k m d.1, not_older t k m)

sweep-Distinct :
    (t : ℕ) (es m : Manager) → Distinct ℕ_discrete m → Distinct ℕ_discrete (sweep t es m)
unfolding sweep
sweep-Distinct t [] m d = d
sweep-Distinct t ((j, v) ∷ es) m d = ground (
  arith,
  sweep-Distinct t es (if ltb v t then delete ℕ_discrete j m else m),
  delete-Distinct ℕ_discrete j m d,
)

-- The answer to a waiting packet gives its round trip time; the packet no longer waits, nor does any
-- that was sent before it, and every other packet waits as it did.
pub recv_ack_waiting :
    (now id t : ℕ) (m : Manager)
    → Distinct ℕ_discrete m
    → load ℕ_discrete id m ≡ some t
    → ((recv_ack now id m).0 ≡ some (now - t))
      × ((k : ℕ)
          → load ℕ_discrete k (recv_ack now id m).1
            ≡ ite (ℕ_discrete id k) none (not_before t (load ℕ_discrete k m)))
unfolding recv_ack
recv_ack_waiting now id t m d e = (rw e, λ k. rw e (after k))
  where
    rest : Manager
    rest = delete ℕ_discrete id m

    after :
        (k : ℕ)
        → load ℕ_discrete k (sweep t rest rest)
          ≡ ite (ℕ_discrete id k) none (not_before t (load ℕ_discrete k m))
    after k = ground (
      arith,
      load-sweep t k rest rest,
      older-load t k rest (delete-Distinct ℕ_discrete id m d),
      load-delete ℕ_discrete k id m,
    )

delete_absent : (k : ℕ) (m : Manager) → load ℕ_discrete k m ≡ none → delete ℕ_discrete k m ≡ m
unfolding load delete
delete_absent k [] e = refl
delete_absent k ((j, v) ∷ m) e = ground (arith, delete_absent k m)

-- An answer to a packet that does not wait reports nothing and changes nothing, and so does a timeout.
pub recv_ack_absent :
    (now id : ℕ) (m : Manager)
    → load ℕ_discrete id m ≡ none
    → (recv_ack now id m ≡ (none, m)) × (expire id m ≡ (false, m))
unfolding recv_ack expire
recv_ack_absent now id m e = (rw (e, delete_absent id m e), rw (e, delete_absent id m e))

pub recv_ack-Distinct :
    (now id : ℕ) (m : Manager) → Distinct ℕ_discrete m → Distinct ℕ_discrete (recv_ack now id m).1
unfolding recv_ack
recv_ack-Distinct now id m d = elim (Option-cases (load ℕ_discrete id m)) [
  | inl e ↦ rw e (delete-Distinct ℕ_discrete id m d)
  | inr (t, e) ↦ rw e (
      sweep-Distinct t (delete ℕ_discrete id m) (delete ℕ_discrete id m)
        (delete-Distinct ℕ_discrete id m d))
]
