-- ===== src/Wgengine/Peers/Differs.antt =====
-- When diffPeers takes two peers for the same (the function literal `differs` in
-- tetraengine/wgengine/util.go).
use tetrapod.Base.{
  ℕ, ◌≡◌, refl, true, false, List, [], ◌∷◌, Option, none, some, ℕ_discrete, length, arith, ite,
  Bool-cases, inl, inr,
}
use tetrapod.Base.Bytes.{Bytes, Bytes-discrete}
use tetrapod.Wgengine.{PeerConfig}
use tetrapod.Wgengine.Peers.{differs, options_differ, ips_differ}

ips_differ-false : (es cs : List Bytes) → length es ≡ length cs → ips_differ es cs ≡ false → es ≡ cs
unfolding ips_differ
ips_differ-false [] [] n h = refl
ips_differ-false [] (c ∷ cs) n h = ground arith
ips_differ-false (e ∷ es) [] n h = ground arith
ips_differ-false (e ∷ es) (c ∷ cs) n h = ground (arith, ips_differ-false es cs)

ips_differ_same : (es : List Bytes) → ips_differ es es ≡ false
unfolding ips_differ
ips_differ_same [] = refl
ips_differ_same (e ∷ es) = ground (arith, ips_differ_same es)

options_differ-false {ℓ} :
    {A : Type ℓ} (dec : Discrete A) (a b : Option A) → options_differ dec a b ≡ false → a ≡ b
options_differ-false dec none none h = refl
options_differ-false dec none (some b) h = cc
options_differ-false dec (some a) none h = cc
options_differ-false dec (some a) (some b) h = ground arith

pub options_differ_same {ℓ} :
    {A : Type ℓ} (dec : Discrete A) (a : Option A) → options_differ dec a a ≡ false
options_differ_same dec none = refl
options_differ_same dec (some a) = ground arith

pub differs_same : (e : PeerConfig) → differs e e ≡ false
unfolding differs
differs_same e = ground (
  arith,
  options_differ_same Bytes-discrete e.endpoint,
  options_differ_same ℕ_discrete e.persistent_keepalive_interval,
  options_differ_same Bytes-discrete e.preshared_key,
  ips_differ_same e.allowed_ips,
)

-- When diffPeers finds that two peers do not differ, they have one endpoint, keepalive interval, preshared
-- key, public key and list of allowed addresses.
pub differs-false :
    (e c : PeerConfig)
    → differs e c ≡ false
    → (e.endpoint ≡ c.endpoint)
      × (e.persistent_keepalive_interval ≡ c.persistent_keepalive_interval)
      × (e.preshared_key ≡ c.preshared_key)
      × (e.public_key ≡ c.public_key)
      × (e.allowed_ips ≡ c.allowed_ips)
unfolding differs
differs-false e c h = ground (
  arith,
  options_differ-false Bytes-discrete e.endpoint c.endpoint,
  options_differ-false ℕ_discrete e.persistent_keepalive_interval c.persistent_keepalive_interval,
  options_differ-false Bytes-discrete e.preshared_key c.preshared_key,
  ips_differ-false e.allowed_ips c.allowed_ips,
)

-- What the device must know of a peer, but for the two marks.
abbrev pub Parts : Type 0
Parts = Option Bytes × Option ℕ × Option Bytes × Bytes × List Bytes

abbrev pub parts : PeerConfig → Parts
parts p =
    (p.endpoint, p.persistent_keepalive_interval, p.preshared_key, p.public_key, p.allowed_ips)

unfoldable pub Parts-discrete : Discrete Parts
unfolding Bytes-discrete ℕ_discrete
Parts-discrete = hlevel (Bytes-discrete, ℕ_discrete)

differs-alike : (e c : PeerConfig) → parts e ≡ parts c → differs e c ≡ false
unfolding differs
differs-alike e c h = ground (
  arith,
  options_differ_same Bytes-discrete e.endpoint,
  options_differ_same ℕ_discrete e.persistent_keepalive_interval,
  options_differ_same Bytes-discrete e.preshared_key,
  ips_differ_same e.allowed_ips,
)

-- The code takes two peers for the same exactly when they agree in all parts.
pub differs-Parts :
    (e c : PeerConfig) → differs e c ≡ ite (Parts-discrete (parts e) (parts c)) false true
differs-Parts e c = elim (Parts-discrete (parts e) (parts c)) [
  | yes h ↦ ground (arith, differs-alike e c h)
  | no n ↦ elim (Bool-cases (differs e c)) [
    | inl t ↦ ground arith
    | inr f ↦ absurd (n (ground (arith, differs-false e c f)))
  ]
]
