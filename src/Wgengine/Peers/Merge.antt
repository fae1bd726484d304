-- ===== src/Wgengine/Peers/Merge.antt =====
-- diffPeers looked up by key: what it says of every peer.
use tetrapod.Base.{
  ◌≡◌, refl, inl, inr, true, List, [], ◌∷◌, Option, none, some, arith, ite, Bool-cases, ◌∙◌,
}
use tetrapod.Base.Bytes.{Bytes, Bytes-discrete}
use tetrapod.Base.Order.{bytes_lt, sort_slice, insert_sorted, bytes_lt_trans, bytes_lt_total}
use tetrapod.Wgengine.{PeerConfig}
use tetrapod.Wgengine.Peers.Differs.{Parts-discrete, parts}
use tetrapod.Wgengine.Peers.{key_of}

-- What the device must be told of a key, from what is expected and what is there: nothing where both have the
-- same endpoint, keepalive interval, preshared key, public key and allowed addresses.
abbrev pub verdict : Option PeerConfig → Option PeerConfig → Option PeerConfig
verdict none none = none
verdict none (some c) = some (record c { remove = true })
verdict (some e) none = some e
verdict (some e) (some c) =
    ite (Parts-discrete (parts e) (parts c)) none (some (record e { replace_allowed_ips = true }))

module _ (key_string : Bytes → Bytes) where
  -- The peer that a list holds for the text of a key.
  unfoldable pub find : Bytes → List PeerConfig → Option PeerConfig
  unfolding Bytes-discrete
  find k [] = none
  find k (p ∷ ps) = ite (Bytes-discrete (key_of key_string p) k) (some p) (find k ps)

  -- No two peers of a list have one key text.
  abbrev pub DistinctKeys : List PeerConfig → Type 0
  DistinctKeys [] = Unit
  DistinctKeys (p ∷ ps) = (find (key_of key_string p) ps ≡ none) × DistinctKeys ps

  -- Every key text of the list is above `k`.
  abbrev Above : Bytes → List PeerConfig → Type 0
  Above k [] = Unit
  Above k (p ∷ ps) = (bytes_lt k (key_of key_string p) ≡ true) × Above k ps

  abbrev pub Ascending : List PeerConfig → Type 0
  Ascending [] = Unit
  Ascending (p ∷ ps) = Above (key_of key_string p) ps × Ascending ps

  Above-trans : (j k : Bytes) (ps : List PeerConfig) → bytes_lt j k ≡ true → Above k ps → Above j ps
  Above-trans j k [] h a = tt
  Above-trans j k (p ∷ ps) h a =
      (bytes_lt_trans j k (key_of key_string p) h a.0, Above-trans j k ps h a.1)

  find-expected : (k : Bytes) (es : List PeerConfig) → find k es ≡ verdict (find k es) none
  find-expected k es = ground arith

  find-insert_sorted :
      (k : Bytes) (p : PeerConfig) (ps : List PeerConfig)
      → find (key_of key_string p) ps ≡ none
      → find k (insert_sorted (key_of key_string) p ps)
        ≡ ite (Bytes-discrete (key_of key_string p) k) (some p) (find k ps)
  unfolding insert_sorted find
  find-insert_sorted k p [] h = refl
  find-insert_sorted k p (q ∷ ps) h = ground (arith, find-insert_sorted k p ps)

  find-sort_slice :
      (k : Bytes) (ps : List PeerConfig)
      → DistinctKeys ps
      → find k (sort_slice (key_of key_string) ps) ≡ find k ps
  unfolding sort_slice find
  find-sort_slice k [] h = refl
  find-sort_slice k (p ∷ ps) h =
      find-insert_sorted k p (sort_slice (key_of key_string) ps)
        (find-sort_slice (key_of key_string p) ps h.1 ∙ h.0)
      ∙ ground (arith, find-sort_slice k ps h.1)

  Above-insert_sorted :
      (k : Bytes) (p : PeerConfig) (ps : List PeerConfig)
      → bytes_lt k (key_of key_string p) ≡ true
      → Above k ps
      → Above k (insert_sorted (key_of key_string) p ps)
  unfolding insert_sorted
  Above-insert_sorted k p [] h a = (h, tt)
  Above-insert_sorted k p (q ∷ ps) h a =
      elim (Bool-cases (bytes_lt (key_of key_string q) (key_of key_string p))) [
        | inl g ↦ rw g (a.0, Above-insert_sorted k p ps h a.1)
        | inr g ↦ rw g (h, a)
      ]

  insert_sorted-Ascending :
      (p : PeerConfig) (ps : List PeerConfig)
      → find (key_of key_string p) ps ≡ none
      → Ascending ps
      → Ascending (insert_sorted (key_of key_string) p ps)
  unfolding insert_sorted find
  insert_sorted-Ascending p [] n a = (tt, tt)
  insert_sorted-Ascending p (q ∷ ps) n a =
      elim (Bool-cases (bytes_lt (key_of key_string q) (key_of key_string p))) [
        | inl g ↦ rw g (
          Above-insert_sorted (key_of key_string q) p ps g a.0,
          insert_sorted-Ascending p ps (ground arith) a.1,
        )
        | inr g ↦ rw g (
            let above : bytes_lt (key_of key_string p) (key_of key_string q) ≡ true =
              ground (arith, bytes_lt_total (key_of key_string q) (key_of key_string p) g) in
            ((above, Above-trans (key_of key_string p) (key_of key_string q) ps above a.0), a))
      ]

  pub sort_slice-Ascending :
      (ps : List PeerConfig) → DistinctKeys ps → Ascending (sort_slice (key_of key_string) ps)
  unfolding sort_slice
  sort_slice-Ascending [] d = tt
  sort_slice-Ascending (p ∷ ps) d =
      insert_sorted-Ascending p (sort_slice (key_of key_string) ps)
        (find-sort_slice (key_of key_string p) ps d.1 ∙ d.0) (sort_slice-Ascending ps d.1)
