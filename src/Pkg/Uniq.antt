-- ===== src/Pkg/Uniq.antt =====
-- tetrad/pkg/util/uniq.go.
use tetrapod.Base.{◌≡◌, refl, false, not, ◌&&◌, List, [], ◌∷◌, none, some, is_some, elem, arith}
use tetrapod.Pkg.Syncmap.{Map, load, store}
use tetrapod.Pkg.Syncmap.Laws.{load-store}

module _ {K : Type 0} (dec : Discrete K) where
  -- The loop over the slice, with the set `exists` of what was seen. `results` is what is built in front.
  unfoldable pub uniq_from : List K → Map K (Unit {0}) → List K
  unfolding load store
  uniq_from [] seen = []
  uniq_from (a ∷ arr) seen = elim (load dec a seen) [
    | some _ ↦ uniq_from arr seen
    | none ↦ a ∷ uniq_from arr (store dec a tt seen)
  ]

  unfoldable pub uniq : List K → List K
  unfolding uniq_from
  uniq arr = uniq_from arr []

  elem-uniq_from :
      (k : K) (arr : List K) (seen : Map K (Unit {0}))
      → elem dec k (uniq_from arr seen) ≡ (elem dec k arr && not (is_some (load dec k seen)))
  unfolding uniq_from
  elem-uniq_from k [] seen = refl
  elem-uniq_from k (a ∷ arr) seen = ground (
    arith,
    elem-uniq_from k arr seen,
    elem-uniq_from k arr (store dec a tt seen),
    load-store dec k a tt seen,
  )

  abbrev pub NoRepeats : List K → Type 0
  NoRepeats [] = Unit
  NoRepeats (a ∷ arr) = (elem dec a arr ≡ false) × NoRepeats arr

  uniq_from-NoRepeats : (arr : List K) (seen : Map K (Unit {0})) → NoRepeats (uniq_from arr seen)
  unfolding uniq_from
  uniq_from-NoRepeats [] seen = tt
  uniq_from-NoRepeats (a ∷ arr) seen = ground (
    arith,
    uniq_from-NoRepeats arr seen,
    uniq_from-NoRepeats arr (store dec a tt seen),
    elem-uniq_from a arr (store dec a tt seen),
    load-store dec a a tt seen,
  )

  -- Uniq keeps exactly the elements that the slice has, and none of them twice.
  pub uniq-NoRepeats :
      (arr : List K) → NoRepeats (uniq arr) × ((k : K) → elem dec k (uniq arr) ≡ elem dec k arr)
  unfolding uniq load
  uniq-NoRepeats arr = (uniq_from-NoRepeats arr [], λ k. ground (arith, elem-uniq_from k arr []))
