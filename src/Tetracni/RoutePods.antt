-- ===== src/Tetracni/RoutePods.antt =====
-- tetracni/cmd/route-pods: the firewall of the peers' namespace (iptables.go), the pair of links into it, and
-- the configuration. go-iptables is the record Iptables, netlink is the record Kernel of Veths.
pub mod Rules
pub mod Firewall
pub mod Veths
pub mod Commands
pub mod Checked
pub mod Reserved
use tetrapod.Base.{
  ℕ, ◌≡◌, ◌≢◌, Bool, true, false, not, List, [], ◌∷◌, ◌++◌, Option, none, some, if◌then◌else◌,
  is_yes, In,
}
use tetrapod.Base.Bytes.{Bytes, Bytes-discrete}
use tetrapod.Tetrad.Labels.{is_empty}
use tetrapod.Tetracni.PodIpam.{or_default}

pub data Protocol : Type 0 where
  ipv4 ipv6 : Protocol

-- The rules that are set: a jump to a chain; for the link of a name, what comes in is accepted, what goes
-- out is accepted when its connection is known, what goes out is dropped.
pub data Rule : Type 0 where
  jump_to : Bytes → Rule
  accept_in accept_related_out drop_out : Bytes → Rule

-- The table "filter" of each protocol. none is an error.
pub record Iptables : Type 1 where
  pub State : Type 0
  pub chain_exists : Protocol → Bytes → State → Option Bool
  pub new_chain : Protocol → Bytes → State → Option State
  pub append_unique : Protocol → Bytes → Rule → State → Option State
  -- The rules of a chain, in their order.
  pub rules : Protocol → Bytes → State → List Rule
  pub rules-new_chain :
      (p : Protocol) (c : Bytes) (s s' : State) → new_chain p c s ≡ some s' → rules p c s' ≡ []
  pub append_unique-there :
      (p : Protocol) (c : Bytes) (r : Rule) (s s' : State)
      → append_unique p c r s ≡ some s'
      → In r (rules p c s)
      → rules p c s' ≡ rules p c s
  pub append_unique-absent :
      (p : Protocol) (c : Bytes) (r : Rule) (s s' : State)
      → append_unique p c r s ≡ some s'
      → (In r (rules p c s) → ⊥)
      → rules p c s' ≡ rules p c s ++ (r ∷ [])
  pub append_unique-other :
      (p : Protocol) (c d : Bytes) (r : Rule) (s s' : State)
      → append_unique p c r s ≡ some s'
      → d ≢ c
      → rules p d s' ≡ rules p d s

-- The three rules of the redirected chain, in their order.
abbrev pub redirected_rules : Bytes → List Rule
redirected_rules name = accept_in name ∷ accept_related_out name ∷ drop_out name ∷ []

module _ (ipt : Iptables) where
  -- The loops that append one rule after another, each to its chain: the tables then, and whether there
  -- was no error.
  unfoldable pub append_each : Protocol → List (Bytes × Rule) → ipt.State → ipt.State × Bool
  append_each p [] s = (s, true)
  append_each p ((c, r) ∷ rest) s = elim (ipt.append_unique p c r s) [
    | none ↦ (s, false)
    | some s' ↦ append_each p rest s'
  ]

  abbrev pub jumps : List Bytes → Bytes → List (Bytes × Rule)
  jumps [] redirected = []
  jumps (c ∷ chains) redirected = (c, jump_to redirected) ∷ jumps chains redirected

  abbrev pub in_chain : Bytes → List Rule → List (Bytes × Rule)
  in_chain c [] = []
  in_chain c (r ∷ rules) = (c, r) ∷ in_chain c rules

  -- Both loops of setUpIPTables; `chains` is iptablesChains.
  unfoldable pub append_rules : Protocol → List Bytes → Bytes → Bytes → ipt.State → ipt.State × Bool
  unfolding append_each
  append_rules p chains peer_veth redirected s =
      let jumped = append_each p (jumps chains redirected) s in
      if jumped.1
      then append_each p (in_chain redirected (redirected_rules peer_veth)) jumped.0
      else jumped

  unfoldable pub set_up_iptables :
      Protocol → List Bytes → Bytes → Bytes → ipt.State → ipt.State × Bool
  unfolding append_rules
  set_up_iptables p chains peer_veth redirected s = elim (ipt.chain_exists p redirected s) [
    | none ↦ (s, false)
    | some exists ↦
        if exists
        then append_rules p chains peer_veth redirected s
        else (elim (ipt.new_chain p redirected s) [
          | none ↦ (s, false)
          | some s' ↦ append_rules p chains peer_veth redirected s'
        ])
  ]

-- Conf, without the part of the CNI library.
pub record Conf : Type 0 where
  pub sandbox : Bytes
  pub host_veth : Bytes
  pub peer_veth : Bytes
  pub firewall : Bytes
  pub iptables_chain : Bytes

-- The program's string constants: "iptables", "never", and what loadConfig puts for what is empty.
pub record Constants : Type 0 where
  pub firewall_iptables : Bytes
  pub firewall_never : Bytes
  pub tetrapod_host : Bytes
  pub tetrapod_net : Bytes
  pub tetrapod_chain : Bytes

-- loadConfig, after JSON and the previous result are decoded.
unfoldable pub load_config : Constants → Conf → Option Conf
unfolding Bytes-discrete
load_config k c =
    let d = record c {
      host_veth = or_default k.tetrapod_host c.host_veth;
      peer_veth = or_default k.tetrapod_net c.peer_veth;
      iptables_chain = or_default k.tetrapod_chain c.iptables_chain;
    } in
    if is_empty c.firewall
    then some (record d { firewall = k.firewall_iptables })
    else (if is_yes (Bytes-discrete c.firewall k.firewall_iptables) then some d else none)

module _ (ipt : Iptables) where
  -- setUpFirewall: `enters` says whether the namespace is entered, `opens` whether iptables is found for a
  -- protocol.
  unfoldable pub set_up_firewall :
      Bool
      → (Protocol → Bool)
      → Constants
      → List Bytes
      → Bytes
      → Conf
      → ipt.State
      → ipt.State × Bool
  unfolding set_up_iptables Bytes-discrete
  set_up_firewall enters opens k chains peer_veth c s =
      if is_yes (Bytes-discrete c.firewall k.firewall_never)
      then (s, true)
      else (if is_yes (Bytes-discrete c.firewall k.firewall_iptables)
          then (if not enters
              then (s, false)
              else (if not (opens ipv4)
                  then (s, false)
                  else (let first = set_up_iptables ipt ipv4 chains peer_veth c.iptables_chain s in
                      if not first.1
                      then first
                      else (if not (opens ipv6)
                          then (first.0, false)
                          else set_up_iptables ipt ipv6 chains peer_veth c.iptables_chain
                              first.0))))
          else (s, true))
