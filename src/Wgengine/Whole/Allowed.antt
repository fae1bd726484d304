-- ===== src/Wgengine/Whole/Allowed.antt =====
-- The allowed networks of the peers and the routes generated for them (generateRoutesFromWGConfig in
-- tetraengine/wgengine/util.go).
use tetrapod.Base.{ℕ, ◌≡◌, refl, Bool, false, ◌||◌, List, [], ◌∷◌, ◌++◌, elem, arith}
use tetrapod.Base.Bytes.{Bytes, Bytes-discrete}
use tetrapod.Wgengine.{PeerConfig}
use tetrapod.Wgengine.Kernel.{Route, routes_of, generate_routes}
use tetrapod.Wgengine.Kernel.Differences.{holds}

-- Some peer has the network among its allowed ones.
abbrev pub is_allowed : Bytes → List PeerConfig → Bool
is_allowed u [] = false
is_allowed u (p ∷ ps) = elem Bytes-discrete u p.allowed_ips || is_allowed u ps

holds-routes_of :
    (u : Bytes) (link table : ℕ) (ips : List Bytes) (rest : List Route)
    → holds (λ r. r.dst) u (routes_of link table ips ++ rest)
      ≡ (elem Bytes-discrete u ips || holds (λ r. r.dst) u rest)
unfolding holds
holds-routes_of u link table [] rest = refl
holds-routes_of u link table (ip ∷ ips) rest = ground (arith, holds-routes_of u link table ips rest)

pub holds-generate_routes :
    (u : Bytes) (link table : ℕ) (ps : List PeerConfig)
    → holds (λ r. r.dst) u (generate_routes ps link table) ≡ is_allowed u ps
unfolding generate_routes holds
holds-generate_routes u link table [] = refl
holds-generate_routes u link table (p ∷ ps) = ground (
  arith,
  holds-routes_of u link table p.allowed_ips (generate_routes ps link table),
  holds-generate_routes u link table ps,
)
