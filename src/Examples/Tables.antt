-- ===== src/Examples/Tables.antt =====
-- The firewall of route-pods, the pair of links and the VRF, on kernels made for the tests.
use tetrapod.Base.{
  ◌≡◌, ◌≢◌, refl, sym, ◌∙◌, ap, subst, Bool, true, false, List, [], ◌∷◌, ◌++◌, Option, none, some,
  if◌then◌else◌, ite, arith, In, inl,
}
use tetrapod.Base.Bytes.{Bytes, Bytes-discrete}
use tetrapod.Tetracni.RoutePods
use tetrapod.Tetracni.RoutePods.Rules.{In-dec}
use tetrapod.Tetracni.RoutePods.Firewall.{set_up_iptables_exact}

-- Tables of rules, as functions.
abbrev Tables : Type 0
Tables = RoutePods.Protocol → Bytes → Option (List RoutePods.Rule)

abbrev same_protocol : RoutePods.Protocol → RoutePods.Protocol → Bool
same_protocol RoutePods.ipv4 RoutePods.ipv4 = true
same_protocol RoutePods.ipv4 RoutePods.ipv6 = false
same_protocol RoutePods.ipv6 RoutePods.ipv4 = false
same_protocol RoutePods.ipv6 RoutePods.ipv6 = true

same_self : (p : RoutePods.Protocol) → same_protocol p p ≡ true
same_self RoutePods.ipv4 = refl
same_self RoutePods.ipv6 = refl

abbrev put : RoutePods.Protocol → Bytes → List RoutePods.Rule → Tables → Tables
put p c rs s q d = if same_protocol p q then ite (Bytes-discrete c d) (some rs) (s q d) else s q d

abbrev or_none : Option (List RoutePods.Rule) → List RoutePods.Rule
or_none none = []
or_none (some rs) = rs

put_same :
    (p : RoutePods.Protocol) (c : Bytes) (rs : List RoutePods.Rule) (s : Tables)
    → or_none (put p c rs s p c) ≡ rs
put_same p c rs s = ground (arith, same_self p)

put_other :
    (p : RoutePods.Protocol) (c d : Bytes) (rs : List RoutePods.Rule) (s : Tables)
    → d ≢ c
    → put p c rs s p d ≡ s p d
put_other p c d rs s n = ground (arith, same_self p)

abbrev append_rule : RoutePods.Protocol → Bytes → RoutePods.Rule → Tables → Tables
append_rule p c r s = let rs = or_none (s p c) in ite (In-dec r rs) s (put p c (rs ++ (r ∷ [])) s)

append_there :
    (p : RoutePods.Protocol) (c : Bytes) (r : RoutePods.Rule) (s : Tables)
    → In r (or_none (s p c))
    → append_rule p c r s ≡ s
append_there p c r s i = by_dec (In-dec r (or_none (s p c)))
  where
    by_dec :
        (d : Dec (In r (or_none (s p c)))) → ite d s (put p c (or_none (s p c) ++ (r ∷ [])) s) ≡ s
    by_dec (yes h) = refl
    by_dec (no n) = absurd (n i)

append_absent :
    (p : RoutePods.Protocol) (c : Bytes) (r : RoutePods.Rule) (s : Tables)
    → (In r (or_none (s p c)) → ⊥)
    → append_rule p c r s ≡ put p c (or_none (s p c) ++ (r ∷ [])) s
append_absent p c r s m = by_dec (In-dec r (or_none (s p c)))
  where
    by_dec :
        (d : Dec (In r (or_none (s p c))))
        → ite d s (put p c (or_none (s p c) ++ (r ∷ [])) s)
          ≡ put p c (or_none (s p c) ++ (r ∷ [])) s
    by_dec (yes h) = absurd (m h)
    by_dec (no n) = refl

append_other :
    (p : RoutePods.Protocol) (c d : Bytes) (r : RoutePods.Rule) (s : Tables)
    → d ≢ c
    → append_rule p c r s p d ≡ s p d
append_other p c d r s n = by_dec (In-dec r (or_none (s p c)))
  where
    by_dec :
        (x : Dec (In r (or_none (s p c))))
        → ite x s (put p c (or_none (s p c) ++ (r ∷ [])) s) p d ≡ s p d
    by_dec (yes h) = refl
    by_dec (no m) = put_other p c d (or_none (s p c) ++ (r ∷ [])) s n

-- Whether the program's chain exists, and the tables.
abbrev State : Type 0
State = Bool × Tables

abbrev created : RoutePods.Protocol → Bytes → State → Option State
created p c s = some (true, put p c [] s.1)

abbrev append_unique : RoutePods.Protocol → Bytes → RoutePods.Rule → State → Option State
append_unique p c r s = some (s.0, append_rule p c r s.1)

pub append_rule-there :
    (p : RoutePods.Protocol) (c : Bytes) (r : RoutePods.Rule) (s s' : State)
    → append_unique p c r s ≡ some s'
    → In r (or_none (s.1 p c))
    → or_none (s'.1 p c) ≡ or_none (s.1 p c)
append_rule-there p c r s s' e i =
    let same : (s.0, append_rule p c r s.1) ≡ s' = cc in
    rw (sym same) (ap (λ t. or_none (t p c)) (append_there p c r s.1 i))

pub append_rule-absent :
    (p : RoutePods.Protocol) (c : Bytes) (r : RoutePods.Rule) (s s' : State)
    → append_unique p c r s ≡ some s'
    → (In r (or_none (s.1 p c)) → ⊥)
    → or_none (s'.1 p c) ≡ or_none (s.1 p c) ++ (r ∷ [])
append_rule-absent p c r s s' e n =
    let same : (s.0, append_rule p c r s.1) ≡ s' = cc in
    let put_it = append_absent p c r s.1 n in
    subst (λ t. or_none (t p c) ≡ or_none (s.1 p c) ++ (r ∷ [])) (sym put_it ∙ ap (λ x. x.1) same)
      (put_same p c (or_none (s.1 p c) ++ (r ∷ [])) s.1)

pub append_rule-other :
    (p : RoutePods.Protocol) (c d : Bytes) (r : RoutePods.Rule) (s s' : State)
    → append_unique p c r s ≡ some s'
    → d ≢ c
    → or_none (s'.1 p d) ≡ or_none (s.1 p d)
append_rule-other p c d r s s' e n =
    let same : (s.0, append_rule p c r s.1) ≡ s' = cc in
    rw (sym same) (ap or_none (append_other p c d r s.1 n))

pub new_chain-empty :
    (p : RoutePods.Protocol) (c : Bytes) (s s' : State)
    → created p c s ≡ some s'
    → or_none (s'.1 p c) ≡ []
new_chain-empty p c s s' e =
    let same : (true, put p c [] s.1) ≡ s' = cc in
    subst (λ t. or_none (t.1 p c) ≡ []) same (put_same p c [] s.1)

abbrev pub tables : RoutePods.Iptables
tables = record {
  State = State;
  chain_exists = λ p c s. some s.0;
  new_chain = created;
  append_unique = append_unique;
  rules = λ p c s. or_none (s.1 p c);
  rules-new_chain = new_chain-empty;
  append_unique-there = append_rule-there;
  append_unique-absent = append_rule-absent;
  append_unique-other = append_rule-other;
}

abbrev pub input : Bytes
input = 73 ∷ []

abbrev chain : Bytes
chain = 84 ∷ []

abbrev pub link : Bytes
link = 118 ∷ []

-- No rule, and no chain of the program.
abbrev pub blank_tables : State
blank_tables = (false, λ p c. some [])

set_up_iptables_exact_example :
    let first =
      RoutePods.set_up_iptables tables RoutePods.ipv4 (input ∷ []) link chain blank_tables in
    let second = RoutePods.set_up_iptables tables RoutePods.ipv4 (input ∷ []) link chain first.0 in
    (or_none (first.0.1 RoutePods.ipv4 chain)
      ≡ RoutePods.accept_in link ∷ RoutePods.accept_related_out link ∷ RoutePods.drop_out link ∷ [])
    × In (RoutePods.jump_to chain) (or_none (first.0.1 RoutePods.ipv4 input))
    × (or_none (second.0.1 RoutePods.ipv4 input) ≡ or_none (first.0.1 RoutePods.ipv4 input))
unfolding RoutePods.set_up_iptables Bytes-discrete
set_up_iptables_exact_example =
    set_up_iptables_exact tables RoutePods.ipv4 (input ∷ []) link input chain input blank_tables
      refl (inl refl) refl refl refl
