-- ===== src/Pkg/Syncmap.antt =====
-- pkg/syncmap/syncmap.go and pkg/sets/sets.go. The typed wrapper adds nothing to Go's sync.Map but
-- the type assertions, so a map is the list of its entries. Range visits the entries in an order that
-- Go leaves open: a statement for every list of entries is a statement for every order.
pub mod Laws
use tetrapod.Base.{ℕ, Bool, true, false, List, [], ◌∷◌, Option, none, some, ite, is_some}

abbrev pub Map {ℓ} : Type ℓ → Type ℓ → Type ℓ
Map K V = List (K × V)

module _ {ℓ} {K V : Type ℓ} (dec : Discrete K) where
  unfoldable pub load : K → Map K V → Option V
  load k [] = none
  load k ((j, v) ∷ m) = ite (dec j k) (some v) (load k m)

  unfoldable pub store : K → V → Map K V → Map K V
  store k v [] = (k, v) ∷ []
  store k v ((j, w) ∷ m) = ite (dec j k) ((k, v) ∷ m) ((j, w) ∷ store k v m)

  unfoldable pub delete : K → Map K V → Map K V
  delete k [] = []
  delete k ((j, w) ∷ m) = ite (dec j k) (delete k m) ((j, w) ∷ delete k m)

  -- The value that was there, and the map without it.
  unfoldable pub load_and_delete : K → Map K V → Option V × Map K V
  unfolding load delete
  load_and_delete k m = (load k m, delete k m)

  -- The value now in the map, whether it was there before, and the map.
  unfoldable pub load_or_store : K → V → Map K V → V × Bool × Map K V
  unfolding load store
  load_or_store k v m = elim (load k m) [ some w ↦ (w, true, m) | none ↦ (v, false, store k v m) ]

-- The set of pkg/sets: a slice's elements as the keys of a map.
module _ {ℓ} {K : Type ℓ} (dec : Discrete K) where
  unfoldable pub add_all : List K → Map K (Unit {ℓ}) → Map K (Unit {ℓ})
  unfolding store
  add_all [] s = s
  add_all (k ∷ ks) s = add_all ks (store dec k tt s)

  unfoldable pub from_slice : List K → Map K (Unit {ℓ})
  unfolding add_all
  from_slice slice = add_all slice []

  unfoldable pub contains : K → Map K (Unit {ℓ}) → Bool
  unfolding load
  contains k s = is_some (load dec k s)
