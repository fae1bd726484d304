-- ===== src/Tetracni/ExtraRoutes/Lookup.antt =====
-- What both commands look up, when links stay and routes come.
use tetrapod.Base.{
  ℕ, ◌≡◌, refl, sym, ◌∙◌, ap, List, [], ◌∷◌, Option, none, some, inl, inr, arith, Option-cases,
}
use tetrapod.Base.Bytes.{Bytes}
use tetrapod.Tetracni.ExtraRoutes.{
  Link, Kernel, Interface, veth, vrf, other, find_veth, vrf_table, prepared,
}

module _ (k : Kernel) where
  pub find_veth-same :
      (interfaces : List Interface) (found : Option ℕ) (s s' : k.State)
      → ((n : Bytes) → k.link_by_name n s' ≡ k.link_by_name n s)
      → find_veth k interfaces found s' ≡ find_veth k interfaces found s
  unfolding find_veth
  find_veth-same [] found s s' same = refl
  find_veth-same (i ∷ interfaces) found s s' same =
      let behind : (f : Option ℕ) → find_veth k interfaces f s' ≡ find_veth k interfaces f s =
        λ f. find_veth-same interfaces f s s' same in
      elim (Option-cases (k.link_by_name i.name s)) [
        | inl e ↦ ground (arith, same i.name, behind found)
        | inr (link, e) ↦ by_link link e (behind found) behind
      ]
    where
      by_link :
          (link : Link)
          → k.link_by_name i.name s ≡ some link
          → find_veth k interfaces found s' ≡ find_veth k interfaces found s
          → ((f : Option ℕ) → find_veth k interfaces f s' ≡ find_veth k interfaces f s)
          → find_veth k (i ∷ interfaces) found s' ≡ find_veth k (i ∷ interfaces) found s
      by_link (veth index) e b f = ground (arith, same i.name, f (some index))
      by_link (vrf table) e b f = ground (arith, same i.name)
      by_link other e b f = ground (arith, same i.name)

  pub vrf_table-same :
      (name : Bytes) (s s' : k.State)
      → ((n : Bytes) → k.link_by_name n s' ≡ k.link_by_name n s)
      → vrf_table k name s' ≡ vrf_table k name s
  unfolding vrf_table
  vrf_table-same name s s' same = ground (arith, same name)

  -- What was looked up, and what is looked up when links are the same and the routes are other ones.
  pub prepared-parts :
      (name : Bytes) (interfaces : List Interface) (s : k.State) (index table : ℕ)
      (listed : List Bytes)
      → prepared k name interfaces s ≡ some (index, table, listed)
      → (find_veth k interfaces none s ≡ some (some index))
        × (vrf_table k name s ≡ some table)
        × (k.routes table s ≡ some listed)
  unfolding prepared
  prepared-parts name interfaces s index table listed h =
      elim (Option-cases (find_veth k interfaces none s)) [
        | inl e ↦ absurd (ground arith)
        | inr (found, e) ↦ elim (Option-cases found) [
          | inl f ↦ absurd (ground arith)
          | inr (i, f) ↦ elim (Option-cases (vrf_table k name s)) [
            | inl g ↦ absurd (ground arith)
            | inr (t, g) ↦ elim (Option-cases (k.routes t s)) [
              | inl m ↦ absurd (ground arith)
              | inr (l, m) ↦
                  let all : (i ≡ index) × (t ≡ table) × (l ≡ listed) = ground arith in
                  (ground arith, ground arith, rw (sym all.1) (m ∙ ap some all.2))
            ]
          ]
        ]
      ]

  pub parts-prepared :
      (name : Bytes) (interfaces : List Interface) (s : k.State) (index table : ℕ)
      (listed : List Bytes)
      → find_veth k interfaces none s ≡ some (some index)
      → vrf_table k name s ≡ some table
      → k.routes table s ≡ some listed
      → prepared k name interfaces s ≡ some (index, table, listed)
  unfolding prepared
  parts-prepared name interfaces s index table listed e g m = ground arith
