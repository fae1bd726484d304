-- ===== src/Tetracni/RoutePods/Reserved.antt =====
-- The address of the host's end against the addresses that tetra-pod-ipam offers to pods.
use tetrapod.Base.{
  ℕ, ◌+◌, ◌≤◌, ◌<◌, ◌≡◌, refl, true, false, ◌⊎◌, inl, inr, List, [], ◌∷◌, none, some, arith,
  Option-cases,
}
use tetrapod.Tetrad.Api.{Object}
use tetrapod.Tetracni.PodIpam.{Ipaddr, Ipam, Constants, Range, prepare_config}
use tetrapod.Tetracni.PodIpam.Ranges.{
  lower_of, upper_of, offered, usable, Wide, is_reserving, prepare_config_offers,
}
use tetrapod.Tetracni.RoutePods.Commands.{host_address}

module _ (ip : Ipaddr) where
  -- The network of each claim is `n`'s, or lies wholly below it or above it.
  abbrev pub Apart : {Selector : Type 0} → ip.Net → List (Object Selector) → Type 0
  Apart n [] = Unit
  Apart n (c ∷ claims) = elim (ip.parse_cidr c.claim.status.cidr) [
    | none ↦ Apart n claims
    | some m ↦
        ((upper_of ip m ≡ upper_of ip n)
          ⊎ ((upper_of ip m < lower_of ip n) ⊎ (upper_of ip n < lower_of ip m)))
        × Apart n claims
  ]

  usable-reserved :
      {Selector : Type 0} (n : ip.Net) (v : ℕ) (claims : List (Object Selector))
      → 3 + lower_of ip n ≤ upper_of ip n
      → upper_of ip n ≡ 1 + v
      → Apart n claims
      → usable ip true v claims ≡ false
  usable-reserved n v [] w u a = refl
  usable-reserved n v (c ∷ claims) w u a = elim (Option-cases (ip.parse_cidr c.claim.status.cidr)) [
    | inl e ↦ ground (arith, usable-reserved n v claims w u)
    | inr (m, e) ↦ ground (arith, usable-reserved n v claims w u)
  ]

  -- When tetra-pod-ipam's configuration reserves an address, its ranges come from claims whose networks have
  -- four addresses at least, and each of them is the network `n` or apart from it: the address that
  -- route-pods gives to the host's end for `n` is in none of the ranges that are offered to pods.
  pub host_address_reserved :
      {Selector : Type 0} (k : Constants) (c d : Ipam) (claims : List (Object Selector))
      (n : ip.Net) (out : List (List (Range ip.Net ip.Addr)))
      → is_reserving k c ≡ true
      → 3 + lower_of ip n ≤ upper_of ip n
      → Wide ip claims
      → Apart n claims
      → prepare_config ip k c (some claims) [] ≡ some (d, out)
      → offered ip (ip.value (host_address ip n)) out ≡ false
  unfolding host_address
  host_address_reserved k c d claims n out r w ws a h =
      let v = ip.value (host_address ip n) in
      ground (
        arith,
        prepare_config_offers ip k c d claims v out ws h,
        usable-reserved n v claims w,
        ip.value-previous (ip.get_upper (ip.new_ip_address_from_net n)),
        a,
      )
