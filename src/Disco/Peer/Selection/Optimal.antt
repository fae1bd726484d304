-- ===== src/Disco/Peer/Selection/Optimal.antt =====
-- updateStatus picks a connected endpoint with the least round trip time.
use tetrapod.Base.{
  ℕ, ◌≤◌, ◌≡◌, refl, ◌⊎◌, inl, inr, List, [], ◌∷◌, some, ltb, ℕ_discrete, arith, In, ite, ◌∙◌,
  Option-cases, Bool-cases,
}
use tetrapod.Pkg.Syncmap.{Map, load}
use tetrapod.Disco.Ticker.{connected, State-discrete, primary, sub}
use tetrapod.Disco.Endpoint.{Endpoint, Status, set_priority}
use tetrapod.Disco.Peer.{Peer}
use tetrapod.Disco.Peer.Selection.{
  Best, max_int64, no_best, consider, consider_all, best_of, priority_for, prioritise,
  update_status,
}

-- A status entry that counts: connected, of an endpoint that the peer still has.
pub record Counts (endpoints : Map ℕ Endpoint) (k : ℕ) (s : Status) (pe : Endpoint) : Type 0 where
  pub is_connected : s.state ≡ connected
  pub its_endpoint : load ℕ_discrete k endpoints ≡ some pe

-- `b` is the search's start `a`, or stems from one of the visited entries.
abbrev Stems : Map ℕ Endpoint → List (ℕ × Status) → Best → Best → Type 0
Stems es xs a b =
    (b ≡ a)
    ⊎ ((k : ℕ) × (s : Status) × (pe : Endpoint) × In (k, s) xs
        × Counts es k s pe
        × (b ≡ record { min_rtt = s.rtt; min_endpoint = pe.endpoint; min_id = k }))

module _ (es : Map ℕ Endpoint) where
  consider-le : (k : ℕ) (s : Status) (b : Best) → (consider es k s b).min_rtt ≤ b.min_rtt
  unfolding consider
  consider-le k s b = ground arith

  consider_all-le : (xs : List (ℕ × Status)) (b : Best) → (consider_all es xs b).min_rtt ≤ b.min_rtt
  unfolding consider_all
  consider_all-le [] b = omega arith
  consider_all-le ((k, s) ∷ xs) b =
      omega (arith, consider-le k s b, consider_all-le xs (consider es k s b))

  consider-le_counted :
      (k : ℕ) (s : Status) (pe : Endpoint) (b : Best)
      → Counts es k s pe
      → (consider es k s b).min_rtt ≤ s.rtt
  unfolding consider
  consider-le_counted k s pe b c = ground arith

  consider_all-le_counted :
      (xs : List (ℕ × Status)) (b : Best) (k : ℕ) (s : Status) (pe : Endpoint)
      → In (k, s) xs
      → Counts es k s pe
      → (consider_all es xs b).min_rtt ≤ s.rtt
  unfolding consider_all
  consider_all-le_counted [] b k s pe h c = absurd h
  consider_all-le_counted ((k', s') ∷ xs) b k s pe (inl e) c =
      ground (arith, consider-le_counted k s pe b c, consider_all-le xs (consider es k s b))
  consider_all-le_counted ((k', s') ∷ xs) b k s pe (inr h) c =
      consider_all-le_counted xs (consider es k' s' b) k s pe h c

  consider-Stems :
      (k : ℕ) (s : Status) (b : Best)
      → (consider es k s b ≡ b)
        ⊎ ((pe : Endpoint) × Counts es k s pe
            × (consider es k s b
                ≡ record { min_rtt = s.rtt; min_endpoint = pe.endpoint; min_id = k }))
  unfolding consider
  consider-Stems k s b = elim (Option-cases (load ℕ_discrete k es)) [
    | inl e ↦ inl (ground arith)
    | inr (pe, e) ↦ elim (State-discrete s.state connected) [
      | yes c ↦ elim (Bool-cases (ltb b.min_rtt s.rtt)) [
        | inl l ↦ inl (ground arith)
        | inr l ↦ inr (pe, record { is_connected = c; its_endpoint = e }, ground arith)
      ]
      | no c ↦ inl (ground arith)
    ]
  ]

  consider_all-Stems : (xs : List (ℕ × Status)) (b : Best) → Stems es xs b (consider_all es xs b)
  unfolding consider_all
  consider_all-Stems [] b = inl refl
  consider_all-Stems ((k, s) ∷ xs) b =
      later (consider-Stems k s b) (consider_all-Stems xs (consider es k s b))
    where
      later :
          (consider es k s b ≡ b)
            ⊎ ((pe : Endpoint) × Counts es k s pe
                × (consider es k s b
                    ≡ record { min_rtt = s.rtt; min_endpoint = pe.endpoint; min_id = k }))
          → Stems es xs (consider es k s b) (consider_all es xs (consider es k s b))
          → Stems es ((k, s) ∷ xs) b (consider_all es xs (consider es k s b))
      later (inl e) (inl e') = inl (e' ∙ e)
      later (inr (pe, c, e)) (inl e') = inr (k, s, pe, inl refl, c, e' ∙ e)
      later _ (inr (k', s', pe, h, c, e)) = inr (k', s', pe, inr h, c, e)

load-prioritise :
    (b : Best) (i : ℕ) (es : Map ℕ Endpoint) (pe : Endpoint)
    → load ℕ_discrete i (prioritise b es) ≡ some pe
    → pe.priority ≡ priority_for b i
unfolding prioritise load set_priority
load-prioritise b i [] pe h = cc
load-prioritise b i ((j, e) ∷ es) pe h = ground (arith, load-prioritise b i es pe)

-- One of two things holds of a peer `p'` that was `p`. Either every endpoint is primary, the active
-- endpoint is what it was, and no status entry of a present, connected endpoint has a round trip time
-- below MaxInt64; or a present, connected endpoint with the least round trip time of all such entries is the
-- active one, with that time, it is primary, and every other endpoint is sub.
abbrev pub Selects : Peer → Peer → Type 0
Selects p p' =
    ((p'.status ≡ p.status)
      × ((i : ℕ) (e : Endpoint) → load ℕ_discrete i p'.endpoints ≡ some e → e.priority ≡ primary)
      × ((j : ℕ) (u : Status) (e : Endpoint)
          → In (j, u) p.endpoint_status_map
          → Counts p.endpoints j u e
          → max_int64 ≤ u.rtt))
    ⊎ ((k : ℕ) × (s : Status) × (pe : Endpoint) × In (k, s) p.endpoint_status_map
        × Counts p.endpoints k s pe
        × (p'.status ≡ record { active_endpoint = pe.endpoint; active_rtt = s.rtt })
        × ((j : ℕ) (u : Status) (e : Endpoint)
            → In (j, u) p.endpoint_status_map
            → Counts p.endpoints j u e
            → s.rtt ≤ u.rtt)
        × ((i : ℕ) (e : Endpoint)
            → load ℕ_discrete i p'.endpoints ≡ some e
            → e.priority ≡ ite (ℕ_discrete i k) primary sub))

-- After updateStatus one of two things holds. Either every endpoint is primary, the active endpoint is what
-- it was, and no status entry of a present, connected endpoint has a round trip time below MaxInt64; or
-- a present, connected endpoint with the least round trip time of all such entries is the active one,
-- with that time, it is primary, and every other endpoint is sub.
pub update_status-Selects : (p : Peer) → Selects p (update_status p)
unfolding update_status best_of
update_status-Selects p = elim (ℕ_discrete (best_of p).min_rtt max_int64) [
  | yes full ↦ inl (
    ground arith,
    λ i e h. ground (arith, load-prioritise (best_of p) i p.endpoints e),
    λ j u e h c.
        rw (← full) (consider_all-le_counted p.endpoints p.endpoint_status_map no_best j u e h c),
  )
  | no some_found ↦ elim (consider_all-Stems p.endpoints p.endpoint_status_map no_best) [
    | inl e ↦ absurd (ground arith)
    | inr (k, s, pe, h, c, e) ↦ inr (
      k,
      s,
      pe,
      h,
      c,
      ground arith,
      λ j u e' h' c'.
          ground
            (arith, consider_all-le_counted p.endpoints p.endpoint_status_map no_best j u e' h' c'),
      λ i e' h'. ground (arith, load-prioritise (best_of p) i p.endpoints e'),
    )
  ]
]
