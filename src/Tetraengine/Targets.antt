-- ===== src/Tetraengine/Targets.antt =====
-- What reconfigDisco makes the hub look for.
use tetrapod.Base.{
  Bool, true, false, ◌||◌, ◌≡◌, refl, List, [], ◌∷◌, Option, none, some, is_some, is_yes, elem,
  arith, ite, Option-cases, inl, inr, ◌⊎◌,
}
use tetrapod.Base.Bytes.{Bytes, Bytes-discrete}
use tetrapod.Base.Netip.{Addr, AddrPort, Addr-discrete, AddrPort-discrete}
use tetrapod.Wgkey.{Box, parse}
use tetrapod.Pkg.Syncmap.{Map, load, store}
use tetrapod.Pkg.Syncmap.Laws.{load-store, store-Distinct, Distinct, contains-from_slice}
use tetrapod.Disco.Hub.{Hub}
use tetrapod.Disco.Hub.Sync.{Opens, synced, set_peers_exact}
use tetrapod.Tetraengine.{
  Texts, EnginePeer, targets_of, disco_targets, reconfig_disco, addresses_of,
}

-- Every endpoint that a key is to be found at stays clear of the addresses.
abbrev pub Clear : List Addr → Option (List AddrPort) → Type 0
Clear global none = Unit
Clear global (some eps) =
    (e : AddrPort) → elem AddrPort-discrete e eps ≡ true → elem Addr-discrete e.addr global ≡ false

module _ (texts : Texts) where
  -- Some peer of the configuration has the disco key.
  unfoldable pub configures : Bytes → List EnginePeer → Bool
  unfolding parse Bytes-discrete
  configures k [] = false
  configures k (p ∷ ps) = elim (parse texts.decode p.public_disco_key) [
    | none ↦ configures k ps
    | some j ↦ is_yes (Bytes-discrete j k) || configures k ps
  ]

  targets_of-Clear :
      (global : List Addr) (eps : List Bytes) → Clear global (some (targets_of texts global eps))
  unfolding targets_of
  targets_of-Clear global [] e h = absurd (cc)
  targets_of-Clear global (t ∷ eps) e h = elim (Option-cases (texts.parse_addr_port t)) [
    | inl n ↦ targets_of-Clear global eps e (ground arith)
    | inr (ep, n) ↦
        ground
          (arith, targets_of-Clear global eps e, contains-from_slice Addr-discrete ep.addr global)
  ]

  -- A peer is passed over, or its key gets its endpoints.
  disco_targets-cases :
      (global : List Addr) (p : EnginePeer) (ps : List EnginePeer) (m : Map Bytes (List AddrPort))
      → (disco_targets texts global (p ∷ ps) m ≡ disco_targets texts global ps m)
        ⊎ ((k : Bytes) × (disco_targets texts global (p ∷ ps) m
              ≡ disco_targets texts global ps
                  (store Bytes-discrete k (targets_of texts global p.endpoints) m)))
  unfolding disco_targets
  disco_targets-cases global p ps m = elim (Option-cases (parse texts.decode p.public_disco_key)) [
    | inl n ↦ inl (ground arith)
    | inr (k, n) ↦ inr (k, ground arith)
  ]

  disco_targets-Distinct :
      (global : List Addr) (ps : List EnginePeer) (m : Map Bytes (List AddrPort))
      → Distinct Bytes-discrete m
      → Distinct Bytes-discrete (disco_targets texts global ps m)
  unfolding disco_targets
  disco_targets-Distinct global [] m d = d
  disco_targets-Distinct global (p ∷ ps) m d = elim (disco_targets-cases global p ps m) [
    | inl e ↦ rw e (disco_targets-Distinct global ps m d)
    | inr (k, e) ↦
        let eps = targets_of texts global p.endpoints in
        rw e (
          disco_targets-Distinct global ps (store Bytes-discrete k eps m)
            (store-Distinct Bytes-discrete k eps m d))
  ]

  Clear-ite :
      (global : List Addr) {P : Type 0} (d : Dec P) (eps : List AddrPort)
      (o : Option (List AddrPort))
      → Clear global (some eps)
      → Clear global o
      → Clear global (ite d (some eps) o)
  Clear-ite global (yes p) eps o h h' = h
  Clear-ite global (no p) eps o h h' = h'

  disco_targets-Clear :
      (global : List Addr) (ps : List EnginePeer) (m : Map Bytes (List AddrPort))
      → ((j : Bytes) → Clear global (load Bytes-discrete j m))
      → (j : Bytes) → Clear global (load Bytes-discrete j (disco_targets texts global ps m))
  unfolding disco_targets
  disco_targets-Clear global [] m c j = c j
  disco_targets-Clear global (p ∷ ps) m c j = elim (disco_targets-cases global p ps m) [
    | inl e ↦ rw e (disco_targets-Clear global ps m c j)
    | inr (k, e) ↦
        let eps = targets_of texts global p.endpoints in
        rw e (disco_targets-Clear global ps (store Bytes-discrete k eps m) (stored k) j)
  ]
    where
      stored :
          (k : Bytes) (i : Bytes)
          → Clear global (
              load Bytes-discrete i
                (store Bytes-discrete k (targets_of texts global p.endpoints) m))
      stored k i = rw (load-store Bytes-discrete i k (targets_of texts global p.endpoints) m) (
          Clear-ite global (Bytes-discrete k i) (targets_of texts global p.endpoints)
            (load Bytes-discrete i m) (targets_of-Clear global p.endpoints) (c i))

  load-disco_targets :
      (k : Bytes) (global : List Addr) (ps : List EnginePeer) (m : Map Bytes (List AddrPort))
      → is_some (load Bytes-discrete k (disco_targets texts global ps m))
        ≡ (configures k ps || is_some (load Bytes-discrete k m))
  unfolding disco_targets configures
  load-disco_targets k global [] m = refl
  load-disco_targets k global (p ∷ ps) m =
      elim (Option-cases (parse texts.decode p.public_disco_key)) [
        | inl n ↦ ground (arith, load-disco_targets k global ps m)
        | inr (j, n) ↦
            let eps = targets_of texts global p.endpoints in
            ground (
              arith,
              load-disco_targets k global ps (store Bytes-discrete j eps m),
              load-store Bytes-discrete k j eps m,
            )
      ]

  -- On an open hub, reconfigDisco succeeds, and afterwards the hub has a peer for a key exactly when
  -- the configuration has one with that disco key. What a key is to be looked for at has no
  -- address in common with this node's global endpoints.
  pub reconfig_disco_exact :
      (box : Box) (global : List AddrPort) (ps : List EnginePeer) (h : Hub)
      → h.closed ≡ false
      → let targets = disco_targets texts (addresses_of global) ps [] in
        ((j : Bytes) → Clear (addresses_of global) (load Bytes-discrete j targets))
        × ((j : Bytes) → is_some (load Bytes-discrete j targets) ≡ configures j ps)
        × Opens (reconfig_disco texts box global ps h) h (λ j.
          synced box h.private_key j
            (load Bytes-discrete j targets)
            (load Bytes-discrete j h.peers))
  unfolding reconfig_disco load
  reconfig_disco_exact box global ps h is_open =
      let targets = disco_targets texts (addresses_of global) ps [] in
      (
        disco_targets-Clear (addresses_of global) ps [] (λ j. tt),
        λ j. ground (arith, load-disco_targets j (addresses_of global) ps []),
        set_peers_exact box targets h (disco_targets-Distinct (addresses_of global) ps [] tt)
            is_open,
      )
