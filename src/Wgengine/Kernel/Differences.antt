-- ===== src/Wgengine/Kernel/Differences.antt =====
-- What the differences of addresses and routes say of each text.
use tetrapod.Base.{Bool, false, not, ◌||◌, ◌&&◌, ◌≡◌, refl, List, [], ◌∷◌, is_yes, is_some, arith}
use tetrapod.Base.Bytes.{Bytes, Bytes-discrete}
use tetrapod.Base.Order.{sort_slice, insert_sorted}
use tetrapod.Pkg.Syncmap.{Map, load, store, delete}
use tetrapod.Pkg.Syncmap.Laws.{load-store, load-delete}
use tetrapod.Wgengine.Kernel.{values, desired_map, diff_current, diff, diff_ips, never}

module _ {A : Type 0} (text : A → Bytes) where
  -- Some element has the text.
  unfoldable pub holds : Bytes → List A → Bool
  unfolding Bytes-discrete
  holds t [] = false
  holds t (a ∷ xs) = is_yes (Bytes-discrete (text a) t) || holds t xs

  -- No text stands twice.
  abbrev pub DistinctTexts : List A → Type 0
  DistinctTexts [] = Unit
  DistinctTexts (a ∷ xs) = (holds (text a) xs ≡ false) × DistinctTexts xs

  -- Every entry stands under its own text.
  abbrev Keyed : Map Bytes A → Type 0
  Keyed [] = Unit
  Keyed ((k, a) ∷ m) = (text a ≡ k) × Keyed m

  store-Keyed : (d : A) (m : Map Bytes A) → Keyed m → Keyed (store Bytes-discrete (text d) d m)
  unfolding store
  store-Keyed d [] h = (refl, tt)
  store-Keyed d ((k, a) ∷ m) h = ground (arith, store-Keyed d m h.1)

  delete-Keyed : (t : Bytes) (m : Map Bytes A) → Keyed m → Keyed (delete Bytes-discrete t m)
  unfolding delete
  delete-Keyed t [] h = tt
  delete-Keyed t ((k, a) ∷ m) h = ground (arith, delete-Keyed t m h.1)

  desired_map-Keyed : (ds : List A) (m : Map Bytes A) → Keyed m → Keyed (desired_map text ds m)
  unfolding desired_map
  desired_map-Keyed [] m h = h
  desired_map-Keyed (d ∷ ds) m h =
      desired_map-Keyed ds (store Bytes-discrete (text d) d m) (store-Keyed d m h)

  load-desired_map :
      (t : Bytes) (ds : List A) (m : Map Bytes A)
      → is_some (load Bytes-discrete t (desired_map text ds m))
        ≡ (holds t ds || is_some (load Bytes-discrete t m))
  unfolding desired_map holds
  load-desired_map t [] m = refl
  load-desired_map t (d ∷ ds) m = ground (
    arith,
    load-desired_map t ds (store Bytes-discrete (text d) d m),
    load-store Bytes-discrete t (text d) d m,
  )

  holds-values :
      (t : Bytes) (m : Map Bytes A)
      → Keyed m
      → holds t (values m) ≡ is_some (load Bytes-discrete t m)
  unfolding holds load
  holds-values t [] h = refl
  holds-values t ((k, a) ∷ m) h = ground (arith, holds-values t m h.1)

  holds-insert_sorted :
      (t : Bytes) (a : A) (xs : List A)
      → holds t (insert_sorted text a xs) ≡ (is_yes (Bytes-discrete (text a) t) || holds t xs)
  unfolding insert_sorted holds
  holds-insert_sorted t a [] = refl
  holds-insert_sorted t a (x ∷ xs) = ground (arith, holds-insert_sorted t a xs)

  holds-sort_slice : (t : Bytes) (xs : List A) → holds t (sort_slice text xs) ≡ holds t xs
  unfolding sort_slice holds
  holds-sort_slice t [] = refl
  holds-sort_slice t (a ∷ xs) =
      ground (arith, holds-insert_sorted t a (sort_slice text xs), holds-sort_slice t xs)

  diff_current-Keyed :
      (cs : List A) (m : Map Bytes A) → Keyed m → Keyed (diff_current text never cs m).0
  unfolding diff_current
  diff_current-Keyed [] m h = h
  diff_current-Keyed (c ∷ cs) m h = ground (
    arith,
    diff_current-Keyed cs m h,
    diff_current-Keyed cs (delete Bytes-discrete (text c) m) (delete-Keyed (text c) m h),
  )

  load-diff_current :
      (t : Bytes) (cs : List A) (m : Map Bytes A)
      → is_some (load Bytes-discrete t (diff_current text never cs m).0)
        ≡ (is_some (load Bytes-discrete t m) && not (holds t cs))
  unfolding diff_current holds
  load-diff_current t [] m = ground arith
  load-diff_current t (c ∷ cs) m = ground (
    arith,
    load-diff_current t cs m,
    load-diff_current t cs (delete Bytes-discrete (text c) m),
    load-delete Bytes-discrete t (text c) m,
  )

  deleted-diff_current :
      (t : Bytes) (cs : List A) (m : Map Bytes A)
      → DistinctTexts cs
      → holds t (diff_current text never cs m).1
        ≡ (holds t cs && not (is_some (load Bytes-discrete t m)))
  unfolding diff_current holds
  deleted-diff_current t [] m d = refl
  deleted-diff_current t (c ∷ cs) m d = ground (
    arith,
    deleted-diff_current t cs m d.1,
    deleted-diff_current t cs (delete Bytes-discrete (text c) m) d.1,
    load-delete Bytes-discrete t (text c) m,
  )

  -- When no two current addresses have one text: a text is added exactly when it is desired and not
  -- current, and it is deleted exactly when it is current and not desired. So what is current, without
  -- what is deleted, and with what is added, has the desired texts.
  pub diff_ips_exact :
      (t : Bytes) (desired current : List A)
      → DistinctTexts current
      → let d = diff_ips text desired current in
        (holds t d.0 ≡ (holds t desired && not (holds t current)))
        × (holds t d.1 ≡ (holds t current && not (holds t desired)))
        × (((holds t current && not (holds t d.1)) || holds t d.0) ≡ holds t desired)
  unfolding diff_ips diff load
  diff_ips_exact t desired current d = ground (
    arith,
    holds-sort_slice t (values (diff_current text never current (desired_map text desired [])).0),
    holds-values t (diff_current text never current (desired_map text desired [])).0 (
        diff_current-Keyed current (desired_map text desired []) (desired_map-Keyed desired [] tt)),
    load-diff_current t current (desired_map text desired []),
    deleted-diff_current t current (desired_map text desired []) d,
    load-desired_map t desired [],
  )
