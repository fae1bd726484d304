-- ===== src/Examples/Veths.antt =====
-- The pair of links of route-pods, on a kernel made for the tests.
use tetrapod.Base.{
  ℕ, ◌≡◌, ◌≢◌, refl, sym, Bool, true, false, List, [], ◌∷◌, Option, none, some, if◌then◌else◌,
  arith, elem, ◌==◌, ltb, ◌<◌, ◌&&◌, ℕ_discrete,
}
use tetrapod.Base.Bytes.{Bytes, Bytes-discrete}
use tetrapod.Tetracni.ExtraRoutes.{Interface}
use tetrapod.Tetracni.RoutePods
use tetrapod.Tetracni.RoutePods.Veths.{Found, found, not_found, veth, bridge, Link, Kernel}
use tetrapod.Tetracni.RoutePods.Commands.{cmd_add, cmd_check}
use tetrapod.Tetracni.RoutePods.Checked.{cmd_check-cmd_add_veth}
use tetrapod.Examples.Cni.{one_byte}
use tetrapod.Examples.Tables.{tables, blank_tables, input}

-- Whether the pair was made, and the links that were moved; the host veth is 1, the peer 2, the bridge 3.
record Pairs : Type 0 where
  made : Bool
  moved : List ℕ

abbrev host : Bytes
host = 1 ∷ []

abbrev peer : Bytes
peer = 2 ∷ []

abbrev br : Bytes
br = 3 ∷ []

-- Links 1 and 2 are in the host's namespace when they are made, and in the other when they are moved, too.
abbrev in_host : Bytes → Pairs → Found
in_host [] s = not_found
in_host (n ∷ ns) s = if s.made && ltb n 3 then found (veth n) else not_found

abbrev in_peer : Bytes → Pairs → Found
in_peer [] s = not_found
in_peer (n ∷ ns) s =
    if n == 3
    then found (bridge 3)
    else (if s.made && ltb n 3 && elem ℕ_discrete n s.moved then found (veth n) else not_found)

abbrev make : Bytes → Bytes → Pairs → Option Pairs
make h p s = if is_ours h && is_ours p then some (record s { made = true }) else none
  where
    is_ours : Bytes → Bool
    is_ours [] = false
    is_ours (n ∷ ns) = ltb n 3

abbrev move : ℕ → Pairs → Option Pairs
move i s = some (record s { moved = i ∷ s.moved })

make-links :
    (h p : Bytes) (s s' : Pairs)
    → make h p s ≡ some s'
    → (a b : ℕ) × (in_host h s' ≡ found (veth a)) × (in_host p s' ≡ found (veth b))
make-links [] p s s' e = absurd (ground arith)
make-links (n ∷ ns) [] s s' e = absurd (ground arith)
make-links (n ∷ ns) (m ∷ ms) s s' e = (n, m, ground arith, ground arith)

in_host-veth :
    (m : ℕ) (ms : Bytes) (i : ℕ) (s : Pairs)
    → in_host (m ∷ ms) s ≡ found (veth i)
    → (m ≡ i) × (m < 3) × (s.made ≡ true)
in_host-veth m ms i s f = ground arith

move-links :
    (h p : Bytes) (l : Link) (i : ℕ) (s s' : Pairs)
    → in_host p s ≡ found (veth i)
    → move i s ≡ some s'
    → h ≢ p
    → (in_peer p s' ≡ found (veth i)) × (in_host h s' ≡ in_host h s)
move-links h [] l i s s' f e n = absurd (cc)
move-links h (m ∷ ms) l i s s' f e n = ground (arith, in_host-veth m ms i s f)

same_pairs :
    (n : Bytes) (s s' : Pairs)
    → some s ≡ some s'
    → (in_host n s' ≡ in_host n s) × (in_peer n s' ≡ in_peer n s)
same_pairs n s s' e = let same : s ≡ s' = cc in rw (sym same) (refl, refl)

abbrev pairs : Kernel (ℕ × ℕ)
pairs = record {
  State = Pairs;
  link_by_name = in_host;
  peer_link_by_name = in_peer;
  link_add = make;
  link_set_ns_fd = move;
  change = λ c s. some s;
  link-link_add = make-links;
  link-link_set_ns_fd = move-links;
  link-change = λ c n s s' e. same_pairs n s s' e;
}

abbrev constants : RoutePods.Constants
constants = record {
  firewall_iptables = 105 ∷ [];
  firewall_never = 110 ∷ [];
  tetrapod_host = host;
  tetrapod_net = peer;
  tetrapod_chain = 84 ∷ [];
}

abbrev conf : RoutePods.Conf
conf = record {
  sandbox = 120 ∷ [];
  host_veth = [];
  peer_veth = [];
  firewall = [];
  iptables_chain = [];
}

abbrev loaded : RoutePods.Conf
loaded = record {
  sandbox = 120 ∷ [];
  host_veth = host;
  peer_veth = peer;
  firewall = 105 ∷ [];
  iptables_chain = 84 ∷ [];
}

abbrev interfaces : List Interface
interfaces = record { name = br; sandbox = [] } ∷ []

abbrev unmade : Pairs
unmade = record { made = false; moved = [] }

abbrev every : {A : Type 0} → A → Bool
every a = true

abbrev length_24 : ℕ × ℕ → ℕ
length_24 a = 24

cmd_check-cmd_add_veth_example :
    let added =
      cmd_add one_byte pairs tables constants every length_24 true every
        (input ∷ [])
        conf
        interfaces
        ((16, 31) ∷ [])
        unmade
        blank_tables in
    cmd_check pairs constants every conf added.0 ≡ true
unfolding cmd_add RoutePods.set_up_firewall RoutePods.load_config Bytes-discrete ℕ_discrete
cmd_check-cmd_add_veth_example =
    cmd_check-cmd_add_veth one_byte pairs tables constants every length_24 true every (input ∷ [])
      conf loaded interfaces ((16, 31) ∷ []) unmade blank_tables refl (λ e. cc) refl
