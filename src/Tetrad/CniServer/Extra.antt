-- ===== src/Tetrad/CniServer/Extra.antt =====
-- When GetExtraPodCIDRs returns, and with which claims.
use tetrapod.Base.{
  ◌≡◌, sym, ◌∙◌, ap, true, false, ◌&&◌, List, [], ◌∷◌, Option, none, some, In, inl, inr, arith,
  Bool-cases, Option-cases,
}
use tetrapod.Base.Bytes.{Bytes, Bytes-discrete}
use tetrapod.Pkg.Syncmap.{load, from_slice}
use tetrapod.Tetrad.Labels.{extra_pod_cidr_template_names}
use tetrapod.Tetrad.Api.{Object}
use tetrapod.Tetrad.CniServer.{
  tick_off, check_claims, none_left, extra_attempt, retry_extra, get_extra_pod_cidrs,
}
use tetrapod.Tetrad.CniServer.Ready.{
  Serves, offered, none_left-load, load-none_left, templates-each, each-templates, load-tick_off,
  check_claims-usable, usable-check_claims, check_claims-left, check_claims-crossed,
  check_claims-shrinks,
}

module _ {Selector : Type 0} where
  module _ (split : Bytes → List Bytes) (trim : Bytes → Bytes) where
    extra_attempt_returns :
        (annotation : Bytes) (claims : List (Object Selector))
        → Serves false (extra_pod_cidr_template_names split trim annotation) claims
        → extra_attempt split trim (some annotation) (some claims) ≡ some claims
    unfolding extra_attempt
    extra_attempt_returns annotation claims s =
        let templates = extra_pod_cidr_template_names split trim annotation in
        let names = from_slice Bytes-discrete templates in
        let left : (t : Bytes)
            → load Bytes-discrete t (check_claims tick_off claims names).1 ≡ none =
          λ t.
            elim (templates-each templates t (offered false t claims ≡ true) (s.each_offered t)) [
              | inl n ↦ check_claims-shrinks tick_off false load-tick_off claims names t n
              | inr o ↦ ground (
                arith,
                check_claims-left tick_off false load-tick_off claims names t s.all_usable,
                o,
              )
            ] in
        ground (
          arith,
          usable-check_claims tick_off false load-tick_off claims names s.all_usable,
          load-none_left (check_claims tick_off claims names).1 left,
        )

    extra_attempt-Serves :
        (annotation : Bytes) (listed claims : List (Object Selector))
        → extra_attempt split trim (some annotation) (some listed) ≡ some claims
        → (listed ≡ claims)
          × Serves false (extra_pod_cidr_template_names split trim annotation) listed
    unfolding extra_attempt
    extra_attempt-Serves annotation listed claims h =
        let templates = extra_pod_cidr_template_names split trim annotation in
        let names = from_slice Bytes-discrete templates in
        let r = check_claims tick_off listed names in
        elim (Bool-cases (r.0 && none_left r.1)) [
          | inr f ↦ absurd (ground arith)
          | inl t ↦
              let left = none_left-load r.1 (ground arith) in
              (
                ground arith,
                record {
                  all_usable =
                      check_claims-usable tick_off false load-tick_off listed names (ground arith);
                  each_offered = λ n e.
                      each-templates templates n (offered false n listed ≡ true)
                        (check_claims-crossed tick_off false load-tick_off listed names n (left n))
                        e;
                },
              )
        ]

    -- The claims were listed by an attempt that they serve.
    abbrev ServedBy :
        List (Option Bytes × Option (List (Object Selector))) → List (Object Selector) → Type 0
    ServedBy answers claims =
        (read : Bytes) × In (some read, some claims) answers
        × Serves false (extra_pod_cidr_template_names split trim read) claims

    attempt-served :
        (answer : Option Bytes × Option (List (Object Selector)))
        (answers : List (Option Bytes × Option (List (Object Selector))))
        (claims : List (Object Selector))
        → extra_attempt split trim answer.0 answer.1 ≡ some claims
        → ServedBy (answer ∷ answers) claims
    unfolding extra_attempt
    attempt-served (none, listing) answers claims h = absurd (cc)
    attempt-served (some read, none) answers claims h = absurd (cc)
    attempt-served (some read, some listed) answers claims h =
        let (same, s) = extra_attempt-Serves read listed claims h in
        (read, inl (ap (λ c. (some read, some c)) same), rw (sym same) s)

    retry_extra-served :
        (answers : List (Option Bytes × Option (List (Object Selector))))
        (claims : List (Object Selector))
        → retry_extra split trim answers ≡ some claims
        → ServedBy answers claims
    unfolding retry_extra
    retry_extra-served [] claims h = absurd (cc)
    retry_extra-served (a ∷ answers) claims h =
        elim (Option-cases (extra_attempt split trim a.0 a.1)) [
          | inl n ↦
              let (read, i, s) = retry_extra-served answers claims (ground arith) in
              (read, inr i, s)
          | inr (c, e) ↦ attempt-served a answers claims (ground arith)
        ]

    retry_extra_total :
        (answers : List (Option Bytes × Option (List (Object Selector)))) (annotation : Bytes)
        (claims : List (Object Selector))
        → In (some annotation, some claims) answers
        → Serves false (extra_pod_cidr_template_names split trim annotation) claims
        → (answer : List (Object Selector)) × (retry_extra split trim answers ≡ some answer)
    unfolding retry_extra
    retry_extra_total [] annotation claims i s = absurd i
    retry_extra_total (a ∷ answers) annotation claims (inl e) s =
        let now =
          ap (λ b. extra_attempt split trim b.0 b.1) e
          ∙ extra_attempt_returns annotation claims s in
        (claims, ground arith)
    retry_extra_total (a ∷ answers) annotation claims (inr i) s =
        let (answer, h) = retry_extra_total answers annotation claims i s in
        elim (Option-cases (extra_attempt split trim a.0 a.1)) [
          | inl n ↦ (answer, ground arith)
          | inr (c, e) ↦ (c, ground arith)
        ]

    -- With a local cache, GetExtraPodCIDRs returns the claims that one of its attempts listed, all of them ready
    -- in their current generation, with one for each template of the pod's annotation as the same attempt
    -- read it. As soon as an attempt finds such claims, it does return.
    pub get_extra_pod_cidrs_served :
        (answers : List (Option Bytes × Option (List (Object Selector)))) (annotation : Bytes)
        (claims : List (Object Selector))
        → (get_extra_pod_cidrs split trim true answers ≡ some claims
            → (read : Bytes) × In (some read, some claims) answers
              × Serves false (extra_pod_cidr_template_names split trim read) claims)
          × (In (some annotation, some claims) answers
              → Serves false (extra_pod_cidr_template_names split trim annotation) claims
              → (answer : List (Object Selector)) × (get_extra_pod_cidrs split trim true answers
                  ≡ some answer))
    unfolding get_extra_pod_cidrs
    get_extra_pod_cidrs_served answers annotation claims =
        (retry_extra-served answers claims, retry_extra_total answers annotation claims)
