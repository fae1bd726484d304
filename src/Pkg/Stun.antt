-- ===== src/Pkg/Stun.antt =====
-- pkg/stun/stun.go: the server's address (lookup), and what is done with an answer. strconv.Atoi, net.LookupIP
-- and rand.Intn are arguments; so is what the STUN library makes of a message.
use tetrapod.Base.{
  ℕ, zero, suc, ◌%◌, ◌^◌, ◌<◌, ◌≡◌, ◌≢◌, refl, Bool, true, false, not, ◌||◌, List, [], ◌∷◌, Option,
  none, some, if◌then◌else◌, ◌==◌, length, In, arith, Option-cases, inl, inr,
}
use tetrapod.Base.Bytes.{Bytes}
use tetrapod.Base.Netip.{Addr, AddrPort, ip4, ip6, invalid}

-- strings.Cut at ':', which is 58: what is before the first one, and what is behind it.
unfoldable pub cut_colon : Bytes → Bytes × Bytes
cut_colon [] = ([], [])
cut_colon (c ∷ cs) = let rest = cut_colon cs in if c == 58 then ([], cs) else (c ∷ rest.0, rest.1)

-- A net.IP that LookupIP returns, for which To4 gives an IPv4 address, or is nil.
pub data Ip : Type 0 where
  v4 v6 : ℕ → Ip

-- The loop over the addresses.
unfoldable pub filtered : Bool → List Ip → List Addr
filtered is_v6 [] = []
filtered is_v6 (v4 n ∷ ips) = let rest = filtered is_v6 ips in if is_v6 then rest else ip4 n ∷ rest
filtered is_v6 (v6 n ∷ ips) = let rest = filtered is_v6 ips in if is_v6 then ip6 n ∷ rest else rest

-- filtered[idx]; none is the panic out of range.
abbrev pub nth : List Addr → ℕ → Option Addr
nth [] i = none
nth (a ∷ addrs) zero = some a
nth (a ∷ addrs) (suc i) = nth addrs i

-- What lookup returns, or that it panics.
pub data Looked : Type 0 where
  refused panics : Looked
  found : AddrPort → Looked

abbrev pub picked : ℕ → Option Addr → Looked
picked port none = panics
picked port (some a) = found (record { addr = a; port = port % 2 ^ 16 })

-- `atoi` gives the int as its 64-bit word; `intn n` is the random number for n.
unfoldable pub lookup :
    (Bytes → Option ℕ) → (Bytes → Option (List Ip)) → (ℕ → ℕ) → Bytes → Bool → Looked
unfolding cut_colon filtered
lookup atoi lookup_ip intn endpoint is_v6 =
    let (host, port_text) = cut_colon endpoint in
    elim (atoi port_text) [
      | none ↦ refused
      | some port ↦ elim (lookup_ip host) [
        | none ↦ refused
        | some ips ↦
            let addrs = filtered is_v6 ips in
            if length addrs == 0 then refused else picked port (nth addrs (intn (length addrs)))
      ]
    ]

-- What the library calls the function of run with: an error, a message without the attribute, or the address.
pub data Answer : Type 0 where
  failed : Answer
  no_address : Answer
  mapped : AddrPort → Answer

-- What follows: nothing, a call of the function that Notify set, or the panic of a nil function.
pub data Effect : Type 0 where
  nothing panic : Effect
  notified : AddrPort → Effect

-- `has_fn` says that Notify was called before.
unfoldable pub on_answer : Bool → Answer → Effect
on_answer has_fn failed = nothing
on_answer has_fn no_address = nothing
on_answer has_fn (mapped a) = if has_fn then notified a else panic

-- The addresses of the wanted family among those that are looked up.
abbrev pub has_family : Bool → List Ip → Bool
has_family is_v6 [] = false
has_family is_v6 (v4 n ∷ ips) = not is_v6 || has_family is_v6 ips
has_family is_v6 (v6 n ∷ ips) = is_v6 || has_family is_v6 ips

-- The address is of the family, and one of those.
abbrev pub Chosen : Bool → List Ip → Addr → Type 0
Chosen true ips invalid = ⊥
Chosen true ips (ip4 n) = ⊥
Chosen true ips (ip6 n) = In (v6 n) ips
Chosen false ips invalid = ⊥
Chosen false ips (ip4 n) = In (v4 n) ips
Chosen false ips (ip6 n) = ⊥

filtered-empty :
    (is_v6 : Bool) (ips : List Ip) → (length (filtered is_v6 ips) == 0) ≡ not (has_family is_v6 ips)
unfolding filtered
filtered-empty is_v6 [] = ground arith
filtered-empty is_v6 (v4 n ∷ ips) = ground (arith, filtered-empty is_v6 ips)
filtered-empty is_v6 (v6 n ∷ ips) = ground (arith, filtered-empty is_v6 ips)

Chosen-cons :
    (is_v6 : Bool) (i : Ip) (ips : List Ip) (a : Addr)
    → Chosen is_v6 ips a
    → Chosen is_v6 (i ∷ ips) a
Chosen-cons true i ips invalid c = c
Chosen-cons true i ips (ip4 n) c = c
Chosen-cons true i ips (ip6 n) c = inr c
Chosen-cons false i ips invalid c = c
Chosen-cons false i ips (ip4 n) c = inr c
Chosen-cons false i ips (ip6 n) c = c

nth-Chosen :
    (is_v6 : Bool) (ips : List Ip) (i : ℕ)
    → i < length (filtered is_v6 ips)
    → (a : Addr) × (nth (filtered is_v6 ips) i ≡ some a) × Chosen is_v6 ips a
unfolding filtered
nth-Chosen is_v6 [] i b = absurd (omega arith)
nth-Chosen true (v4 n ∷ ips) i b =
    let (a, e, c) = nth-Chosen true ips i b in (a, e, Chosen-cons true (v4 n) ips a c)
nth-Chosen false (v6 n ∷ ips) i b =
    let (a, e, c) = nth-Chosen false ips i b in (a, e, Chosen-cons false (v6 n) ips a c)
nth-Chosen true (v6 n ∷ ips) zero b = (ip6 n, refl, inl refl)
nth-Chosen false (v4 n ∷ ips) zero b = (ip4 n, refl, inl refl)
nth-Chosen true (v6 n ∷ ips) (suc i) b =
    let (a, e, c) = nth-Chosen true ips i (omega (arith, b)) in
    (a, e, Chosen-cons true (v6 n) ips a c)
nth-Chosen false (v4 n ∷ ips) (suc i) b =
    let (a, e, c) = nth-Chosen false ips i (omega (arith, b)) in
    (a, e, Chosen-cons false (v4 n) ips a c)

-- Where the text behind the first ':' is a port and the host is looked up, and rand.Intn stays below its
-- argument: with an address of the wanted family among those that are looked up, lookup returns one of
-- them, with the port as a uint16.
pub lookup_chooses :
    (atoi : Bytes → Option ℕ) (lookup_ip : Bytes → Option (List Ip)) (intn : ℕ → ℕ)
    (endpoint : Bytes) (is_v6 : Bool) (port : ℕ) (ips : List Ip)
    → ((n : ℕ) → n ≢ 0 → intn n < n)
    → atoi (cut_colon endpoint).1 ≡ some port
    → lookup_ip (cut_colon endpoint).0 ≡ some ips
    → has_family is_v6 ips ≡ true
    → (a : Addr) × Chosen is_v6 ips a
      × (lookup atoi lookup_ip intn endpoint is_v6
          ≡ found (record { addr = a; port = port % 2 ^ 16 }))
unfolding lookup
lookup_chooses atoi lookup_ip intn endpoint is_v6 port ips below p l f =
    let addrs = filtered is_v6 ips in
    let some_addr : length addrs ≢ 0 = ground (arith, filtered-empty is_v6 ips) in
    let (a, e, c) = nth-Chosen is_v6 ips (intn (length addrs)) (below (length addrs) some_addr) in
    (a, c, ground (arith, filtered-empty is_v6 ips))

-- With no such address it returns an error, whatever the random number is.
lookup_refuses :
    (atoi : Bytes → Option ℕ) (lookup_ip : Bytes → Option (List Ip)) (intn : ℕ → ℕ)
    (endpoint : Bytes) (is_v6 : Bool) (ips : List Ip)
    → lookup_ip (cut_colon endpoint).0 ≡ some ips
    → has_family is_v6 ips ≡ false
    → lookup atoi lookup_ip intn endpoint is_v6 ≡ refused
unfolding lookup
lookup_refuses atoi lookup_ip intn endpoint is_v6 ips l f =
    elim (Option-cases (atoi (cut_colon endpoint).1)) [
      | inl e ↦ ground arith
      | inr (p, e) ↦ ground (arith, filtered-empty is_v6 ips)
    ]
