-- ===== src/Disco/Hub/Sync.antt =====
-- SetPeers leaves exactly the listed peers, each with its listed endpoints.
use tetrapod.Base.{
  false, ◌≡◌, refl, List, [], ◌∷◌, Option, none, some, if◌then◌else◌, is_some, ite, arith, ◌∙◌,
  Option-cases, inl, inr,
}
use tetrapod.Base.Bytes.{Bytes, Bytes-discrete}
use tetrapod.Base.Netip.{AddrPort}
use tetrapod.Wgkey.{Box}
use tetrapod.Pkg.Syncmap.{Map, load, store, delete}
use tetrapod.Pkg.Syncmap.Laws.{load-store, load-store_self, load-delete, Distinct}
use tetrapod.Disco.Peer.{Peer, new_peer, set_endpoints}
use tetrapod.Disco.Hub.{Hub, add_peer, set_peer, set_each, set_peers, close_others}

-- An open hub becomes another open one, in which every key leads to what `peer_of` says.
abbrev pub Opens : Option Hub → Hub → (Bytes → Option Peer) → Type 0
Opens r h peer_of =
    (h' : Hub) × (r ≡ some h')
    × (h'.closed ≡ false)
    × (h'.private_key ≡ h.private_key)
    × ((j : Bytes) → load Bytes-discrete j h'.peers ≡ peer_of j)

module _ (box : Box) where
  -- The peer of a key when its endpoints are set: the one there is, or a new one.
  abbrev pub updated : Bytes → List AddrPort → Bytes → Option Peer → Peer
  updated private_key eps k none = set_endpoints eps (new_peer box private_key k)
  updated private_key eps k (some p) = set_endpoints eps p

  -- What a key leads to after SetPeers, from what is listed for it and what it led to.
  abbrev pub synced : Bytes → Bytes → Option (List AddrPort) → Option Peer → Option Peer
  synced private_key k none p = none
  synced private_key k (some eps) p = some (updated private_key eps k p)

  abbrev after_each : Bytes → Bytes → Option (List AddrPort) → Option Peer → Option Peer
  after_each private_key k none p = p
  after_each private_key k (some eps) p = some (updated private_key eps k p)

  set_peer-Opens :
      (k : Bytes) (eps : List AddrPort) (h : Hub)
      → h.closed ≡ false
      → Opens (set_peer box k eps h) h (λ j.
        ite
          (Bytes-discrete k j)
          (some (updated h.private_key eps k (load Bytes-discrete k h.peers)))
          (load Bytes-discrete j h.peers))
  unfolding set_peer add_peer
  set_peer-Opens k eps h is_open = elim (Option-cases (load Bytes-discrete k h.peers)) [
    | inl e ↦
        let new = new_peer box h.private_key k in
        let added = store Bytes-discrete k new h.peers in
        (
          record h { peers = store Bytes-discrete k (set_endpoints eps new) added },
          ground (arith, load-store_self Bytes-discrete k new h.peers),
          is_open,
          refl,
          λ j. ground (
            arith,
            load-store Bytes-discrete j k (set_endpoints eps new) added,
            load-store Bytes-discrete j k new h.peers,
          ),
        )
    | inr (p, e) ↦ (
      record h { peers = store Bytes-discrete k (set_endpoints eps p) h.peers },
      ground arith,
      is_open,
      refl,
      λ j. ground (arith, load-store Bytes-discrete j k (set_endpoints eps p) h.peers),
    )
  ]

  set_each-Opens :
      (listed : Map Bytes (List AddrPort)) (h : Hub)
      → Distinct Bytes-discrete listed
      → h.closed ≡ false
      → Opens (set_each box listed h) h (λ j.
        after_each h.private_key j (load Bytes-discrete j listed) (load Bytes-discrete j h.peers))
  unfolding set_each load
  set_each-Opens [] h d is_open = (h, refl, is_open, refl, λ j. refl)
  set_each-Opens ((k, eps) ∷ rest) h d is_open =
      let (h', e, is_open', key', at) = set_peer-Opens k eps h is_open in
      let (h'', e', is_open'', key'', at') = set_each-Opens rest h' d.1 is_open' in
      (h'', ground arith, is_open'', key'' ∙ key', λ j. ground (arith, at j, at' j))

  load-close_others :
      (j : Bytes) (listed : Map Bytes (List AddrPort)) (visited m : Map Bytes Peer)
      → load Bytes-discrete j (close_others listed visited m) ≡ (
          if is_some (load Bytes-discrete j visited)
          then (if is_some (load Bytes-discrete j listed) then load Bytes-discrete j m else none)
          else load Bytes-discrete j m)
  unfolding close_others load
  load-close_others j listed [] m = refl
  load-close_others j listed ((k, p) ∷ visited) m = ground (
    arith,
    load-close_others j listed visited m,
    load-close_others j listed visited (delete Bytes-discrete k m),
    load-delete Bytes-discrete j k m,
  )

  -- On an open hub, for a map of keys to endpoint lists (no key stands twice): SetPeers succeeds, the hub
  -- stays open, and afterwards a key leads to a peer exactly when it is listed. That peer is the one the
  -- key led to before, or else a new one, after SetEndpoints with the list.
  pub set_peers_exact :
      (listed : Map Bytes (List AddrPort)) (h : Hub)
      → Distinct Bytes-discrete listed
      → h.closed ≡ false
      → Opens (set_peers box listed h) h (λ j.
        synced h.private_key j (load Bytes-discrete j listed) (load Bytes-discrete j h.peers))
  unfolding set_peers
  set_peers_exact listed h d is_open =
      let (h', e, is_open', key', at) = set_each-Opens listed h d is_open in
      (
        record h' { peers = close_others listed h'.peers h'.peers },
        ground arith,
        is_open',
        key',
        λ j. ground (arith, at j, load-close_others j listed h'.peers h'.peers),
      )
