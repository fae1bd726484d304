-- ===== src/Pkg/Syncmap/Laws.antt =====
-- What a lookup sees after each operation of the map.
use tetrapod.Base.{◌≡◌, refl, List, [], ◌∷◌, none, some, ite, is_some, arith, elem, ◌||◌}
use tetrapod.Pkg.Syncmap.{Map, load, store, delete, add_all, from_slice, contains}

module _ {ℓ} {K V : Type ℓ} (dec : Discrete K) where
  pub load-store :
      (j k : K) (v : V) (m : Map K V)
      → load dec j (store dec k v m) ≡ ite (dec k j) (some v) (load dec j m)
  unfolding load store
  load-store j k v [] = refl
  load-store j k v ((i, w) ∷ m) = ground (arith, load-store j k v m)

  pub load-store_self : (k : K) (v : V) (m : Map K V) → load dec k (store dec k v m) ≡ some v
  load-store_self k v m = ground (arith, load-store k k v m)

  pub load-delete :
      (j k : K) (m : Map K V) → load dec j (delete dec k m) ≡ ite (dec k j) none (load dec j m)
  unfolding load delete
  load-delete j k [] = ground arith
  load-delete j k ((i, w) ∷ m) = ground (arith, load-delete j k m)

  -- No key stands twice among the entries, as in any sync.Map.
  abbrev pub Distinct : Map K V → Type ℓ
  Distinct [] = Unit {ℓ}
  Distinct ((k, v) ∷ m) = (load dec k m ≡ none) × Distinct m

  pub store-Distinct : (k : K) (v : V) (m : Map K V) → Distinct m → Distinct (store dec k v m)
  unfolding load store
  store-Distinct k v [] d = (refl, tt)
  store-Distinct k v ((i, w) ∷ m) d = ground (arith, load-store i k v m, store-Distinct k v m d.1)

  pub delete-Distinct : (k : K) (m : Map K V) → Distinct m → Distinct (delete dec k m)
  unfolding load delete
  delete-Distinct k [] d = d
  delete-Distinct k ((i, w) ∷ m) d = ground (arith, load-delete i k m, delete-Distinct k m d.1)

module _ {ℓ} {K : Type ℓ} (dec : Discrete K) where
  add_all-load :
      (k : K) (ks : List K) (s : Map K (Unit {ℓ}))
      → is_some (load dec k (add_all dec ks s)) ≡ (elem dec k ks || is_some (load dec k s))
  unfolding add_all
  add_all-load k [] s = refl
  add_all-load k (x ∷ ks) s =
      ground (arith, add_all-load k ks (store dec x tt s), load-store dec k x tt s)

  -- A set made from a slice contains the slice's elements and no others.
  pub contains-from_slice :
      (k : K) (ks : List K) → contains dec k (from_slice dec ks) ≡ elem dec k ks
  unfolding contains from_slice load
  contains-from_slice k ks = ground (arith, add_all-load k ks [])
