-- ===== src/Wgengine/Device/Restart.antt =====
-- The device after the engine's start, and after a start that failed half-way.
use tetrapod.Base.{
  ℕ, ◌≡◌, refl, Bool, true, false, Option, none, some, arith, Option-cases, inl, inr,
}
use tetrapod.Base.Bytes.{Bytes}
use tetrapod.Wgengine.Device.{
  Found, wireguard, other, not_found, failed, main_ns, wg_ns, Links, garbage_collect,
  create_wireguard, init_wireguard, bring_up, init_links, Looked, init_netns, init,
}

module _ (l : Links) where
  create_wireguard-there :
      (n : Bytes) (s : l.State)
      → (create_wireguard l n s).1 ≡ true
      → l.link_by_name wg_ns n (create_wireguard l n s).0 ≡ wireguard
  unfolding create_wireguard
  create_wireguard-there n s h = elim (Option-cases (l.link_add n s)) [
    | inl e ↦ absurd (ground arith)
    | inr (s', e) ↦ elim (Option-cases (l.link_set_ns_fd n s')) [
      | inl f ↦ absurd (ground arith)
      | inr (s'', f) ↦ ground (arith, l.link-link_add n s s' e, l.link-link_set_ns_fd n s' s'' f)
    ]
  ]

  init_wireguard-there :
      (n : Bytes) (s : l.State)
      → (init_wireguard l n s).1 ≡ true
      → l.link_by_name wg_ns n (init_wireguard l n s).0 ≡ wireguard
  unfolding init_wireguard
  init_wireguard-there n s h = go (l.link_by_name wg_ns n (garbage_collect l n s)) refl
    where
      go :
          (f : Found)
          → l.link_by_name wg_ns n (garbage_collect l n s) ≡ f
          → l.link_by_name wg_ns n (init_wireguard l n s).0 ≡ wireguard
      go wireguard e = ground arith
      go other e = absurd (ground arith)
      go failed e = absurd (ground arith)
      go not_found e = ground (arith, create_wireguard-there n (garbage_collect l n s))

  bring_up-there :
      (enters : Bool) (n : Bytes) (s : l.State)
      → l.link_by_name wg_ns n (bring_up l enters n s).0 ≡ l.link_by_name wg_ns n s
  unfolding bring_up
  bring_up-there enters n s = elim (Option-cases (l.link_set_mtu 1280 n s)) [
    | inl e ↦ ground arith
    | inr (s', e) ↦ elim (Option-cases (l.link_set_up n s')) [
      | inl f ↦ ground (arith, l.link-link_set_mtu wg_ns 1280 n s s' e)
      | inr (s'', f) ↦
          ground
            (arith, l.link-link_set_mtu wg_ns 1280 n s s' e, l.link-link_set_up wg_ns n s' s'' f)
    ]
  ]

  init_links-there :
      (enters : Bool) (n : Bytes) (s : l.State)
      → (init_links l enters n s).1 ≡ true
      → l.link_by_name wg_ns n (init_links l enters n s).0 ≡ wireguard
  unfolding init_links
  init_links-there enters n s h =
      ground (arith, init_wireguard-there n s, bring_up-there enters n (init_wireguard l n s).0)

  -- When init returns no error, the engine's namespace has a WireGuard link of the name, whatever links there were
  -- in both namespaces before, and whether the namespace was there or was made.
  pub init_makes_device :
      (main_handle : Bool) (looked : Looked) (create : Option ℕ) (handle_at : ℕ → Bool)
      (enters : Bool) (n : Bytes) (s : l.State)
      → (init l main_handle looked create handle_at enters n s).1 ≡ true
      → l.link_by_name wg_ns n (init l main_handle looked create handle_at enters n s).0 ≡ wireguard
  unfolding init
  init_makes_device main_handle looked create handle_at enters n s h =
      elim (Option-cases (init_netns looked create)) [
        | inl e ↦ absurd (ground arith)
        | inr (ns, e) ↦ ground (arith, init_links-there enters n s)
      ]

  garbage_collect-wireguard :
      (n : Bytes) (s s' : l.State)
      → l.link_by_name main_ns n s ≡ wireguard
      → l.link_del n s ≡ some s'
      → garbage_collect l n s ≡ s'
  unfolding garbage_collect
  garbage_collect-wireguard n s s' w d = ground arith

  -- A start that made the device and then failed to move it into the engine's namespace leaves the device in the
  -- main namespace. The next start, when its calls succeed, deletes it, makes another and moves that one: it
  -- returns no error, the engine's namespace has the device, and the main one has no link of the name.
  pub init_wireguard_recovers :
      (n : Bytes) (s s1 s2 s3 s4 : l.State)
      → l.link_by_name wg_ns n (garbage_collect l n s) ≡ not_found
      → l.link_add n (garbage_collect l n s) ≡ some s1
      → l.link_set_ns_fd n s1 ≡ none
      → l.link_del n s1 ≡ some s2
      → l.link_add n s2 ≡ some s3
      → l.link_set_ns_fd n s3 ≡ some s4
      → (init_wireguard l n s ≡ (s1, false))
        × (init_wireguard l n s1 ≡ (s4, true))
        × (l.link_by_name wg_ns n s4 ≡ wireguard)
        × (l.link_by_name main_ns n s4 ≡ not_found)
  unfolding init_wireguard create_wireguard
  init_wireguard_recovers n s s1 s2 s3 s4 w a f d b g =
      let added = l.link-link_add n (garbage_collect l n s) s1 a in
      ground (
        arith,
        added,
        garbage_collect-wireguard n s1 s2 added.0 d,
        l.link-link_del n s1 s2 d,
        l.link-link_add n s2 s3 b,
        l.link-link_set_ns_fd n s3 s4 g,
      )
