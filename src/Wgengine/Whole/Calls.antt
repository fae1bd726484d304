-- ===== src/Wgengine/Whole/Calls.antt =====
-- What the calls for addresses leave of each text.
use tetrapod.Base.{
  Bool, true, false, not, ◌||◌, ◌&&◌, ◌≡◌, refl, List, [], ◌∷◌, ◌++◌, map, some, is_yes, arith,
  Option-cases, inl, inr,
}
use tetrapod.Base.Bytes.{Bytes, Bytes-discrete}
use tetrapod.Pkg.Syncmap.{Map, load, delete}
use tetrapod.Wgengine.Kernel.{
  diff_current, diff_ips, never, Call, deleting, adding, delete_all, reconfig_addresses,
}
use tetrapod.Wgengine.Kernel.Differences.{holds, DistinctTexts, diff_ips_exact}

-- Whether a text is there after the calls, when it was there before or not.
abbrev pub after : {A : Type 0} → (A → Bytes) → Bytes → List (Call A) → Bool → Bool
after text t [] was = was
after text t (deleting d ∷ calls) was =
    after text t calls (was && not (is_yes (Bytes-discrete (text d) t)))
after text t (adding a ∷ calls) was = after text t calls (was || is_yes (Bytes-discrete (text a) t))

module _ {A : Type 0} (text : A → Bytes) where
  pub after-append :
      (t : Bytes) (xs ys : List (Call A)) (was : Bool)
      → after text t (xs ++ ys) was ≡ after text t ys (after text t xs was)
  after-append t [] ys was = refl
  after-append t (deleting d ∷ xs) ys was = after-append t xs ys _
  after-append t (adding a ∷ xs) ys was = after-append t xs ys _

  pub after-adding :
      (t : Bytes) (xs : List A) (was : Bool)
      → after text t (map adding xs) was ≡ (was || holds text t xs)
  unfolding holds
  after-adding t [] was = ground arith
  after-adding t (x ∷ xs) was =
      ground (arith, after-adding t xs (was || is_yes (Bytes-discrete (text x) t)))

  -- Nothing of the text is kept.
  abbrev pub unkept : (A → Bool) → Bytes → List A → Bool
  unkept keeps t [] = true
  unkept keeps t (x ∷ xs) = not (keeps x && is_yes (Bytes-discrete (text x) t)) && unkept keeps t xs

  pub after-delete_all :
      (t : Bytes) (keeps : A → Bool) (xs : List A) (was : Bool)
      → unkept keeps t xs ≡ true
      → after text t (delete_all keeps xs) was ≡ (was && not (holds text t xs))
  unfolding holds
  after-delete_all t keeps [] was k = ground arith
  after-delete_all t keeps (x ∷ xs) was k = ground (
    arith,
    after-delete_all t keeps xs was,
    after-delete_all t keeps xs (was && not (is_yes (Bytes-discrete (text x) t))),
  )

  unkept-none : (t : Bytes) (xs : List A) → unkept (λ a. false) t xs ≡ true
  unkept-none t [] = refl
  unkept-none t (x ∷ xs) = unkept-none t xs

  -- What is deleted is some of what is current.
  pub diff_current-unkept :
      (keeps : A → Bool) (t : Bytes) (cs : List A) (m : Map Bytes A)
      → unkept keeps t cs ≡ true
      → unkept keeps t (diff_current text never cs m).1 ≡ true
  unfolding diff_current
  diff_current-unkept keeps t [] m h = refl
  diff_current-unkept keeps t (c ∷ cs) m h = elim (Option-cases (load Bytes-discrete (text c) m)) [
    | inl e ↦ ground (arith, diff_current-unkept keeps t cs m)
    | inr (r, e) ↦ ground (arith, diff_current-unkept keeps t cs (delete Bytes-discrete (text c) m))
  ]

  -- The calls for the addresses leave exactly the texts that are desired.
  pub reconfig_addresses-after :
      (t : Bytes) (ok : Call A → Bool) (addrs current : List A)
      → DistinctTexts text current
      → after text t (reconfig_addresses text ok addrs (some current)).0 (holds text t current)
        ≡ holds text t addrs
  unfolding reconfig_addresses
  reconfig_addresses-after t ok addrs current d =
      let df = diff_ips text addrs current in
      ground (
        arith,
        after-append t (delete_all (λ a. false) df.1) (map adding df.0) (holds text t current),
        after-adding t df.0 (after text t (delete_all (λ a. false) df.1) (holds text t current)),
        after-delete_all t (λ a. false) df.1 (holds text t current) (unkept-none t df.1),
        diff_ips_exact text t addrs current d,
      )
