-- ===== src/Tetracni/PodIpam/Ranges.antt =====
-- Which addresses the plugin for pods' addresses may give.
use tetrapod.Base.{
  ℕ, ◌+◌, ◌≤◌, ◌≡◌, refl, Bool, false, not, ◌||◌, ◌&&◌, List, [], ◌∷◌, ◌++◌, none, some, is_yes,
  leb, ltb, ◌==◌, arith, Option-cases, inl, inr,
}
use tetrapod.Base.Bytes.{Bytes-discrete}
use tetrapod.Tetrad.Labels.{is_empty}
use tetrapod.Tetrad.Api.{Object}
use tetrapod.Tetracni.PodIpam.{
  Ipaddr, Ipam, Constants, load_config, Range, range_of, add_ranges, mutate_config, prepare_config,
}

-- load_config reserves an address, as the text of the configuration says.
abbrev pub is_reserving : Constants → Ipam → Bool
is_reserving k c =
    is_empty c.reserve_address || is_yes (Bytes-discrete c.reserve_address k.reserve_address_last)

load_config-reserve :
    (k : Constants) (c d : Ipam)
    → load_config k c ≡ some d
    → is_yes (Bytes-discrete d.reserve_address k.reserve_address_last) ≡ is_reserving k c
unfolding load_config Bytes-discrete
load_config-reserve k c d h = ground arith

module _ (ip : Ipaddr) where
  abbrev pub lower_of : ip.Net → ℕ
  lower_of n = ip.value (ip.get_lower (ip.new_ip_address_from_net n))

  abbrev pub upper_of : ip.Net → ℕ
  upper_of n = ip.value (ip.get_upper (ip.new_ip_address_from_net n))

  -- The number lies in a range of the sets.
  abbrev pub offered : ℕ → List (List (Range ip.Net ip.Addr)) → Bool
  offered v [] = false
  offered v ([] ∷ sets) = offered v sets
  offered v ((r ∷ rs) ∷ sets) =
      (leb (ip.value r.range_start) v && leb v (ip.value r.range_end)) || offered v (rs ∷ sets)

  -- The number lies within the network of a claim, and is neither its first nor its last, nor the one
  -- before the last when that is reserved.
  abbrev pub usable : {Selector : Type 0} → Bool → ℕ → List (Object Selector) → Bool
  usable reserves v [] = false
  usable reserves v (c ∷ claims) = elim (ip.parse_cidr c.claim.status.cidr) [
    | none ↦ usable reserves v claims
    | some n ↦
        ((ltb (lower_of n) v && ltb v (upper_of n)) && not (reserves && (1 + v == upper_of n)))
        || usable reserves v claims
  ]

  -- Every network has four addresses at least.
  abbrev pub Wide : {Selector : Type 0} → List (Object Selector) → Type 0
  Wide [] = Unit
  Wide (c ∷ claims) = elim (ip.parse_cidr c.claim.status.cidr) [
    | none ↦ Wide claims
    | some n ↦ (3 + lower_of n ≤ upper_of n) × Wide claims
  ]

  range_of-offered :
      (reserves : Bool) (n : ip.Net) (v : ℕ)
      → 3 + lower_of n ≤ upper_of n
      → let r = range_of ip reserves n in
        (leb (ip.value r.range_start) v && leb v (ip.value r.range_end))
        ≡ ((ltb (lower_of n) v && ltb v (upper_of n)) && not (reserves && (1 + v == upper_of n)))
  unfolding range_of
  range_of-offered reserves n v w =
      let a = ip.new_ip_address_from_net n in
      let before = ip.previous (ip.get_upper a) in
      ground (
        arith,
        ip.value_max (ip.get_upper a),
        ip.value-next (ip.get_lower a),
        ip.value-previous (ip.get_upper a),
        ip.value-previous before,
      )

  offered-append :
      (v : ℕ) (xs ys : List (List (Range ip.Net ip.Addr)))
      → offered v (xs ++ ys) ≡ (offered v xs || offered v ys)
  offered-append v [] ys = refl
  offered-append v ([] ∷ sets) ys = offered-append v sets ys
  offered-append v ((r ∷ rs) ∷ sets) ys = ground (arith, offered-append v (rs ∷ sets) ys)

  add_ranges-offered :
      {Selector : Type 0} (reserves : Bool) (v : ℕ) (claims : List (Object Selector))
      (ranges out : List (List (Range ip.Net ip.Addr)))
      → Wide claims
      → add_ranges ip reserves claims ranges ≡ some out
      → offered v out ≡ (offered v ranges || usable reserves v claims)
  unfolding add_ranges
  add_ranges-offered reserves v [] ranges out w h = ground arith
  add_ranges-offered reserves v (c ∷ claims) ranges out w h =
      elim (Option-cases (ip.parse_cidr c.claim.status.cidr)) [
        | inl e ↦ absurd (ground arith)
        | inr (n, e) ↦ ground (
          arith,
          add_ranges-offered reserves v claims (ranges ++ ((range_of ip reserves n ∷ []) ∷ [])) out,
          offered-append v ranges ((range_of ip reserves n ∷ []) ∷ []),
          range_of-offered reserves n v,
        )
      ]

  -- When a configuration is prepared from claims whose networks have four addresses at least, and there were
  -- no ranges before, a number is offered to pods exactly when it lies within the network of a claim
  -- and is neither its first nor its last address, nor, where the configuration's reserve_address is empty
  -- or "last", the one before the last.
  pub prepare_config_offers :
      {Selector : Type 0} (k : Constants) (c d : Ipam) (claims : List (Object Selector)) (v : ℕ)
      (out : List (List (Range ip.Net ip.Addr)))
      → Wide claims
      → prepare_config ip k c (some claims) [] ≡ some (d, out)
      → offered v out ≡ usable (is_reserving k c) v claims
  unfolding prepare_config mutate_config
  prepare_config_offers k c d claims v out w h = elim (Option-cases (load_config k c)) [
    | inl e ↦ absurd (ground arith)
    | inr (l, e) ↦ elim (Option-cases (mutate_config ip k l (some claims) [])) [
      | inl g ↦ absurd (ground arith)
      | inr (m, g) ↦ ground (
        arith,
        load_config-reserve k c l e,
        add_ranges-offered (is_yes (Bytes-discrete l.reserve_address k.reserve_address_last)) v
            claims [] m w g,
      )
    ]
  ]
