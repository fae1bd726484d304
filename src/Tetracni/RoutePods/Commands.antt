-- ===== src/Tetracni/RoutePods/Commands.antt =====
-- cmdAdd and cmdCheck of tetracni/cmd/route-pods.
use tetrapod.Base.{ℕ, Bool, true, false, not, List, [], ◌∷◌, none, some, if◌then◌else◌}
use tetrapod.Base.Bytes.{Bytes}
use tetrapod.Tetracni.ExtraRoutes.{Interface}
use tetrapod.Tetracni.PodIpam.{Ipaddr}
use tetrapod.Tetracni.RoutePods.{Protocol, Iptables, Conf, Constants, load_config, set_up_firewall}
use tetrapod.Tetracni.RoutePods.Veths.{
  Change, set_master, addr_replace, host_set_up, peer_set_up, Kernel, Pair, both, host_only,
  neither, find_veth, setup_veth, find_bridge, changes,
}

-- The address of the host's end: the one before the last of the network, and its prefix length.
module _ (ip : Ipaddr) where
  unfoldable pub host_address : ip.Net → ip.Addr
  host_address n = ip.previous (ip.get_upper (ip.new_ip_address_from_net n))

  unfoldable pub address_changes : (ip.Addr → ℕ) → ℕ → List ip.Net → List (Change ip.Addr)
  unfolding host_address
  address_changes prefix_len h [] = []
  address_changes prefix_len h (n ∷ ips) =
      addr_replace h (host_address n) (prefix_len (host_address n))
      ∷ address_changes prefix_len h ips

module _ (ip : Ipaddr) (k : Kernel ip.Addr) (ipt : Iptables) where
  -- cmdAdd after the pair is there and the bridge is found.
  unfoldable pub configure :
      (ip.Addr → ℕ)
      → (ipt.State → ipt.State × Bool)
      → List ip.Net
      → ℕ
      → ℕ
      → ℕ
      → k.State
      → ipt.State
      → k.State × ipt.State × Bool
  unfolding changes address_changes
  configure prefix_len firewall ips h p b s t =
      let addressed = changes k (set_master p b ∷ address_changes ip prefix_len h ips) s in
      if not addressed.1
      then (addressed.0, t, false)
      else (let (t', walled) = firewall t in
          if not walled
          then (addressed.0, t', false)
          else (let up = changes k (host_set_up h ∷ peer_set_up p ∷ []) addressed.0 in
              (up.0, t', up.1)))

  -- cmdAdd. `sandbox` says whether the namespace of a name is found and a handle made; `enters`,
  -- `opens` and `chains` are those of setUpFirewall.
  unfoldable pub cmd_add :
      Constants
      → (Bytes → Bool)
      → (ip.Addr → ℕ)
      → Bool
      → (Protocol → Bool)
      → List Bytes
      → Conf
      → List Interface
      → List ip.Net
      → k.State
      → ipt.State
      → k.State × ipt.State × Bool
  unfolding load_config setup_veth find_bridge configure set_up_firewall
  cmd_add c sandbox prefix_len enters opens chains conf interfaces ips s t =
      elim (load_config c conf) [
        | none ↦ (s, t, false)
        | some d ↦
            if not (sandbox d.sandbox)
            then (s, t, false)
            else (let pair = setup_veth k d.host_veth d.peer_veth s in
                elim pair.0 [
                  | host_only h absent ↦ (pair.1, t, false)
                  | neither absent ↦ (pair.1, t, false)
                  | both h p ↦ elim (find_bridge k interfaces pair.1) [
                    | none ↦ (pair.1, t, false)
                    | some b ↦
                        configure prefix_len
                          (set_up_firewall ipt enters opens c chains d.peer_veth d) ips h p b pair.1
                          t
                  ]
                ])
      ]

module _ {Addr : Type 0} (k : Kernel Addr) where
  abbrev pub is_both : Pair → Bool
  is_both (both h p) = true
  is_both (host_only h absent) = false
  is_both (neither absent) = false

  unfoldable pub cmd_check : Constants → (Bytes → Bool) → Conf → k.State → Bool
  unfolding load_config find_veth
  cmd_check c sandbox conf s = elim (load_config c conf) [
    | none ↦ false
    | some d ↦
        if not (sandbox d.sandbox) then false else is_both (find_veth k d.host_veth d.peer_veth s)
  ]
