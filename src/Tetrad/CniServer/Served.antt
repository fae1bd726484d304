-- ===== src/Tetrad/CniServer/Served.antt =====
-- When GetPodCIDRs and GetExtraPodCIDRs return, and with which claims.
use tetrapod.Base.{
  ◌≡◌, refl, sym, ◌∙◌, ap, true, false, List, [], ◌∷◌, Option, none, some, In, inl, inr, ◌⊎◌, elem,
  arith, Bool-cases,
}
use tetrapod.Base.Bytes.{Bytes, Bytes-discrete}
use tetrapod.Pkg.Syncmap.{load, from_slice, add_all, store, delete}
use tetrapod.Tetrad.Api.{Object}
use tetrapod.Tetrad.CniServer.{
  Names, usable, tick_off_named, check_claims, attempt, retry_pod_cidrs, get_pod_cidrs,
}
use tetrapod.Tetrad.CniServer.Ready.{
  AllUsable, Serves, offered, crosses, none_left-load, load-none_left, templates-each,
  each-templates, load-tick_off_named, check_claims-usable, usable-check_claims, check_claims-left,
  check_claims-crossed, check_claims-shrinks,
}

module _ {Selector : Type 0} where
  -- Where claims serve the names that are left, an attempt with them succeeds.
  serves-attempt :
      (claims : List (Object Selector)) (names : Names)
      → AllUsable claims
      → ((t : Bytes) → (load Bytes-discrete t names ≡ none) ⊎ (offered true t claims ≡ true))
      → (attempt (some claims) names).0 ≡ true
  unfolding attempt
  serves-attempt claims names u each =
      let left : (t : Bytes)
          → load Bytes-discrete t (check_claims tick_off_named claims names).1 ≡ none =
        λ t. elim (each t) [
          | inl n ↦ check_claims-shrinks tick_off_named true load-tick_off_named claims names t n
          | inr o ↦
              ground (
                arith,
                check_claims-left tick_off_named true load-tick_off_named claims names t u,
                o,
              )
        ] in
      ground (
        arith,
        usable-check_claims tick_off_named true load-tick_off_named claims names u,
        load-none_left (check_claims tick_off_named claims names).1 left,
      )

  attempt-shrinks :
      (listing : Option (List (Object Selector))) (names : Names) (t : Bytes)
      → load Bytes-discrete t names ≡ none
      → load Bytes-discrete t (attempt listing names).1 ≡ none
  unfolding attempt
  attempt-shrinks none names t h = h
  attempt-shrinks (some claims) names t h =
      check_claims-shrinks tick_off_named true load-tick_off_named claims names t h

  -- A name that an attempt crosses out was offered by its claims.
  attempt-crossed :
      (listing : Option (List (Object Selector))) (names : Names) (t : Bytes)
      → load Bytes-discrete t (attempt listing names).1 ≡ none
      → (load Bytes-discrete t names ≡ none)
        ⊎ ((claims : List (Object Selector)) × (listing ≡ some claims)
            × (offered true t claims ≡ true))
  unfolding attempt
  attempt-crossed none names t h = inl h
  attempt-crossed (some claims) names t h =
      elim (check_claims-crossed tick_off_named true load-tick_off_named claims names t h) [
        | inl n ↦ inl n
        | inr o ↦ inr (claims, refl, o)
      ]

  attempt-succeeds :
      (listing : Option (List (Object Selector))) (names : Names)
      → (attempt listing names).0 ≡ true
      → (claims : List (Object Selector)) × (listing ≡ some claims)
        × AllUsable claims
        × ((t : Bytes) → load Bytes-discrete t (attempt listing names).1 ≡ none)
  unfolding attempt
  attempt-succeeds none names h = absurd (cc)
  attempt-succeeds (some claims) names h = (
    claims,
    refl,
    check_claims-usable tick_off_named true load-tick_off_named claims names (ground arith),
    none_left-load (check_claims tick_off_named claims names).1 (ground arith),
  )

  -- Some attempt's claims offered the template.
  abbrev pub OfferedAmong : Bytes → List (Option (List (Object Selector))) → Type 0
  OfferedAmong t listings =
      (claims : List (Object Selector)) × In (some claims) listings × (offered true t claims ≡ true)

  retry-returns :
      (listings : List (Option (List (Object Selector)))) (names : Names)
      (claims : List (Object Selector))
      → retry_pod_cidrs listings names ≡ some claims
      → In (some claims) listings
        × AllUsable claims
        × ((t : Bytes) → (load Bytes-discrete t names ≡ none) ⊎ OfferedAmong t listings)
  unfolding retry_pod_cidrs
  retry-returns [] names claims h = absurd (cc)
  retry-returns (l ∷ listings) names claims h = elim (Bool-cases (attempt l names).0) [
    | inl t ↦
        let (c, e, u, left) = attempt-succeeds l names t in
        let same : l ≡ some claims = ground arith in
        let same_claims : c ≡ claims = cc in (inl same, rw (sym same_claims) u, λ t. now t (left t))
    | inr f ↦
        let (i, u, each) = retry-returns listings (attempt l names).1 claims (ground arith) in
        (inr i, u, λ t. elim (each t) [ inl n ↦ now t n | inr (c, j, o) ↦ inr (c, inr j, o) ])
  ]
    where
      now :
          (t : Bytes)
          → load Bytes-discrete t (attempt l names).1 ≡ none
          → (load Bytes-discrete t names ≡ none) ⊎ OfferedAmong t (l ∷ listings)
      now t n = elim (attempt-crossed l names t n) [
        | inl m ↦ inl m
        | inr (c, e, o) ↦ inr (c, inl e, o)
      ]

  retry-total :
      (listings : List (Option (List (Object Selector)))) (names : Names)
      (claims : List (Object Selector))
      → In (some claims) listings
      → AllUsable claims
      → ((t : Bytes) → (load Bytes-discrete t names ≡ none) ⊎ (offered true t claims ≡ true))
      → (answer : List (Object Selector)) × (retry_pod_cidrs listings names ≡ some answer)
  unfolding retry_pod_cidrs
  retry-total [] names claims i u each = absurd i
  retry-total (l ∷ listings) names claims i u each = elim (Bool-cases (attempt l names).0) [
    | inl t ↦ let (c, e, u, left) = attempt-succeeds l names t in (c, ground arith)
    | inr f ↦
        let (answer, h) = retry-total listings (attempt l names).1 claims (later f i) u still in
        (answer, ground arith)
  ]
    where
      later :
          (attempt l names).0 ≡ false → In (some claims) (l ∷ listings) → In (some claims) listings
      later f (inl e) = absurd (
          let now = serves-attempt claims names u each in
          let same : (attempt l names).0 ≡ true = ap (λ k. (attempt k names).0) e ∙ now in cc)
      later f (inr j) = j

      still :
          (t : Bytes)
          → (load Bytes-discrete t (attempt l names).1 ≡ none) ⊎ (offered true t claims ≡ true)
      still t = elim (each t) [ inl n ↦ inl (attempt-shrinks l names t n) | inr o ↦ inr o ]

  -- GetPodCIDRs returns the claims that one of its attempts listed, all of them ready in their current
  -- generation, where for each template a claim was listed by some attempt, perhaps an earlier one. As soon as
  -- an attempt lists claims that are all ready and have one for each template, it does return.
  pub get_pod_cidrs_served :
      (templates : List Bytes) (listings : List (Option (List (Object Selector))))
      (claims : List (Object Selector))
      → (get_pod_cidrs templates listings ≡ some claims
          → In (some claims) listings
            × AllUsable claims
            × ((t : Bytes) → elem Bytes-discrete t templates ≡ true → OfferedAmong t listings))
        × (In (some claims) listings
            → Serves true templates claims
            → (answer : List (Object Selector)) × (get_pod_cidrs templates listings ≡ some answer))
  unfolding get_pod_cidrs
  get_pod_cidrs_served templates listings claims =
      let names = from_slice Bytes-discrete templates in
      (
        λ h.
            let (i, u, each) = retry-returns listings names claims h in
            (i, u, λ t e. each-templates templates t (OfferedAmong t listings) (each t) e),
        λ i s.
            retry-total listings names claims i s.all_usable
              (λ t. templates-each templates t (offered true t claims ≡ true) (s.each_offered t)),
      )

  -- Where the first attempt lists a ready claim of the only template and then one that is not ready, and the
  -- second lists no claim at all, GetPodCIDRs returns no claim and no error: what an attempt that failed
  -- crossed out stays crossed out.
  pub get_pod_cidrs_forgets :
      (template : Bytes) (ready_one unready : Object Selector)
      (listings : List (Option (List (Object Selector))))
      → usable ready_one ≡ true
      → usable unready ≡ false
      → crosses true template ready_one ≡ true
      → get_pod_cidrs (template ∷ []) (some (ready_one ∷ unready ∷ []) ∷ some [] ∷ listings)
        ≡ some []
  unfolding get_pod_cidrs retry_pod_cidrs attempt check_claims from_slice add_all store
      tick_off_named delete
  get_pod_cidrs_forgets template ready_one unready listings r u o = ground arith
