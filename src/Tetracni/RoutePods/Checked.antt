-- ===== src/Tetracni/RoutePods/Checked.antt =====
-- The links as cmdAdd of tetracni/cmd/route-pods leaves them, for cmdCheck.
use tetrapod.Base.{
  ℕ, ◌≡◌, ◌≢◌, refl, Bool, true, false, List, [], ◌∷◌, some, arith, Option-cases, inl, inr,
}
use tetrapod.Base.Bytes.{Bytes}
use tetrapod.Tetracni.ExtraRoutes.{Interface}
use tetrapod.Tetracni.PodIpam.{Ipaddr}
use tetrapod.Tetracni.RoutePods.{Protocol, Iptables, Conf, Constants, load_config, set_up_firewall}
use tetrapod.Tetracni.RoutePods.Veths.{
  veth, bridge, other, Found, not_found, failed, found, Change, set_master, host_set_up,
  peer_set_up, Kernel, Pair, both, host_only, neither, find_veth, move_peer, update_veth, add_veth,
  setup_veth, find_bridge, changes,
}
use tetrapod.Tetracni.RoutePods.Commands.{address_changes, configure, cmd_add, cmd_check}

module _ {Addr : Type 0} (k : Kernel Addr) where
  find_veth-changes :
      (host peer : Bytes) (cs : List (Change Addr)) (s : k.State)
      → find_veth k host peer (changes k cs s).0 ≡ find_veth k host peer s
  unfolding changes find_veth
  find_veth-changes host peer [] s = refl
  find_veth-changes host peer (c ∷ cs) s = elim (Option-cases (k.change c s)) [
    | inl e ↦ ground arith
    | inr (s', e) ↦ ground (
      arith,
      find_veth-changes host peer cs s',
      k.link-change c host s s' e,
      k.link-change c peer s s' e,
    )
  ]

  -- Where the peer is moved, both are found then.
  move_peer-both :
      (host peer : Bytes) (h0 h p : ℕ) (f : Found) (s : k.State)
      → host ≢ peer
      → k.link_by_name host s ≡ found (veth h0)
      → k.link_by_name peer s ≡ f
      → (move_peer k h0 f s).0 ≡ both h p
      → find_veth k host peer (move_peer k h0 f s).1 ≡ both h p
  unfolding find_veth
  move_peer-both host peer h0 h p not_found s n a c e = absurd (cc)
  move_peer-both host peer h0 h p failed s n a c e = absurd (cc)
  move_peer-both host peer h0 h p (found (bridge i)) s n a c e = absurd (cc)
  move_peer-both host peer h0 h p (found (other i)) s n a c e = absurd (cc)
  move_peer-both host peer h0 h p (found (veth q)) s n a c e =
      elim (Option-cases (k.link_set_ns_fd q s)) [
        | inl m ↦ absurd (ground arith)
        | inr (s', m) ↦ ground (arith, k.link-link_set_ns_fd host peer (veth q) q s s' c m n)
      ]

  -- updateVeth returns a pair only when findVeth finds it then.
  update_veth-both :
      (host peer : Bytes) (h p : ℕ) (s : k.State)
      → host ≢ peer
      → (update_veth k host peer s).0 ≡ both h p
      → find_veth k host peer (update_veth k host peer s).1 ≡ both h p
  unfolding update_veth find_veth
  update_veth-both host peer h p s n e =
      go (k.link_by_name host s) refl (k.peer_link_by_name peer s) refl
    where
      go :
          (a : Found)
          → k.link_by_name host s ≡ a
          → (b : Found) → k.peer_link_by_name peer s ≡ b
          → find_veth k host peer (update_veth k host peer s).1 ≡ both h p
      go not_found ea b eb = ground arith
      go failed ea b eb = ground arith
      go (found (bridge i)) ea b eb = ground arith
      go (found (other i)) ea b eb = ground arith
      go (found (veth h0)) ea (found (veth q)) eb = ground arith
      go (found (veth h0)) ea not_found eb =
          ground (arith, move_peer-both host peer h0 h p (k.link_by_name peer s) s n ea refl)
      go (found (veth h0)) ea failed eb =
          ground (arith, move_peer-both host peer h0 h p (k.link_by_name peer s) s n ea refl)
      go (found (veth h0)) ea (found (bridge i)) eb =
          ground (arith, move_peer-both host peer h0 h p (k.link_by_name peer s) s n ea refl)
      go (found (veth h0)) ea (found (other i)) eb =
          ground (arith, move_peer-both host peer h0 h p (k.link_by_name peer s) s n ea refl)

  add_veth-both :
      (absent : Bool) (host peer : Bytes) (h p : ℕ) (s : k.State)
      → host ≢ peer
      → (add_veth k absent host peer s).0 ≡ both h p
      → find_veth k host peer (add_veth k absent host peer s).1 ≡ both h p
  unfolding add_veth
  add_veth-both false host peer h p s n e = absurd (cc)
  add_veth-both true host peer h p s n e = elim (Option-cases (k.link_add host peer s)) [
    | inl m ↦ absurd (ground arith)
    | inr (s', m) ↦ ground (arith, update_veth-both host peer h p s' n)
  ]

  setup_veth-both :
      (host peer : Bytes) (h p : ℕ) (s : k.State)
      → host ≢ peer
      → (setup_veth k host peer s).0 ≡ both h p
      → find_veth k host peer (setup_veth k host peer s).1 ≡ both h p
  unfolding setup_veth
  setup_veth-both host peer h p s n e = go (update_veth k host peer s).0 refl
    where
      now : k.State
      now = (update_veth k host peer s).1

      go :
          (a : Pair)
          → (update_veth k host peer s).0 ≡ a
          → find_veth k host peer (setup_veth k host peer s).1 ≡ both h p
      go (both h' p') ea = ground (arith, update_veth-both host peer h p s n)
      go (host_only h' absent) ea = ground (arith, add_veth-both absent host peer h p now n)
      go (neither absent) ea = ground (arith, add_veth-both absent host peer h p now n)

module _ (ip : Ipaddr) (k : Kernel ip.Addr) (ipt : Iptables) where
  find_veth-configure :
      (prefix_len : ip.Addr → ℕ) (firewall : ipt.State → ipt.State × Bool) (ips : List ip.Net)
      (h p b : ℕ) (s : k.State) (t : ipt.State) (host peer : Bytes)
      → find_veth k host peer (configure ip k ipt prefix_len firewall ips h p b s t).0
        ≡ find_veth k host peer s
  unfolding configure
  find_veth-configure prefix_len firewall ips h p b s t host peer =
      let cs = set_master p b ∷ address_changes ip prefix_len h ips in
      let addressed = changes k cs s in
      ground (
        arith,
        find_veth-changes k host peer cs s,
        find_veth-changes k host peer (host_set_up h ∷ peer_set_up p ∷ []) addressed.0,
      )

  -- When the names of both ends in the loaded configuration are not the same, and cmdAdd returns no error,
  -- whether the pair was there, or its peer had still to be moved, or it was made: cmdCheck finds no
  -- error with the same configuration on the links as cmdAdd left them.
  pub cmd_check-cmd_add_veth :
      (c : Constants) (sandbox : Bytes → Bool) (prefix_len : ip.Addr → ℕ) (enters : Bool)
      (opens : Protocol → Bool) (chains : List Bytes) (conf d : Conf) (interfaces : List Interface)
      (ips : List ip.Net) (s : k.State) (t : ipt.State)
      → load_config c conf ≡ some d
      → d.host_veth ≢ d.peer_veth
      → let added =
          cmd_add ip k ipt c sandbox prefix_len enters opens chains conf interfaces ips s t in
        added.2 ≡ true → cmd_check k c sandbox conf added.0 ≡ true
  unfolding cmd_add cmd_check
  cmd_check-cmd_add_veth c sandbox prefix_len enters opens chains conf d interfaces ips s t l n h =
      go (setup_veth k d.host_veth d.peer_veth s).0 refl
    where
      now : k.State
      now = (setup_veth k d.host_veth d.peer_veth s).1

      go :
          (a : Pair)
          → (setup_veth k d.host_veth d.peer_veth s).0 ≡ a
          → cmd_check k c sandbox conf
              (cmd_add ip k ipt c sandbox prefix_len enters opens chains conf interfaces ips s t).0
            ≡ true
      go (host_only h' absent) ea = absurd (ground arith)
      go (neither absent) ea = absurd (ground arith)
      go (both h' p) ea = elim (Option-cases (find_bridge k interfaces now)) [
        | inl m ↦ absurd (ground arith)
        | inr (b, m) ↦ ground (
          arith,
          setup_veth-both k d.host_veth d.peer_veth h' p s n ea,
          find_veth-configure prefix_len (set_up_firewall ipt enters opens c chains d.peer_veth d)
              ips h' p b now t d.host_veth d.peer_veth,
        )
      ]
