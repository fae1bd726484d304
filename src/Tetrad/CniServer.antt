-- ===== src/Tetrad/CniServer.antt =====
-- tetrad/pkg/cniserver/cniserver.go: the claims whose addresses a pod gets. Each call tries again until an
-- attempt succeeds or the backoff stops; what the server answers to each attempt that is made is an argument.
pub mod Ready
pub mod Served
pub mod Extra
use tetrapod.Base.{
  ◌≡◌, Bool, true, false, ◌&&◌, not, List, [], ◌∷◌, Option, none, some, ◌==◌, if◌then◌else◌,
}
use tetrapod.Base.Bytes.{Bytes, Bytes-discrete}
use tetrapod.Pkg.Syncmap.{Map, load, delete, from_slice}
use tetrapod.Controlplane.CidrClaim.{is_ready}
use tetrapod.Tetrad.Labels.{
  Key-discrete, template_name, or_empty, is_empty, extra_pod_cidr_template_names,
}
use tetrapod.Tetrad.Api.{Object}

-- templateNames
abbrev pub Names : Type 0
Names = Map Bytes Unit

-- len(templateNames) == 0
abbrev pub none_left : Names → Bool
none_left [] = true
none_left (n ∷ names) = false

module _ {Selector : Type 0} where
  -- generationOK and statusOK
  unfoldable pub usable : Object Selector → Bool
  usable o =
      (o.claim.status.observed_generation == o.claim.generation) && is_ready o.claim.status.state

  unfoldable pub template_of : Object Selector → Bytes
  unfolding load Key-discrete
  template_of o = or_empty (load Key-discrete template_name o.labels)

  -- GetPodCIDRs passes over a claim without a template.
  unfoldable pub tick_off_named : Object Selector → Names → Names
  unfolding template_of delete Bytes-discrete
  tick_off_named o names =
      if is_empty (template_of o) then names else delete Bytes-discrete (template_of o) names

  unfoldable pub tick_off : Object Selector → Names → Names
  unfolding template_of delete Bytes-discrete
  tick_off o names = delete Bytes-discrete (template_of o) names

  -- The loop over the claims: whether all of them are usable, and the names that are left then.
  unfoldable pub check_claims :
      (Object Selector → Names → Names) → List (Object Selector) → Names → Bool × Names
  unfolding usable
  check_claims off [] names = (true, names)
  check_claims off (o ∷ claims) names =
      let rest = check_claims off claims (off o names) in if usable o then rest else (false, names)

  -- An attempt of GetPodCIDRs, from what List answers: whether it succeeds, and the names left for the next one.
  unfoldable pub attempt : Option (List (Object Selector)) → Names → Bool × Names
  unfolding check_claims tick_off_named
  attempt none names = (false, names)
  attempt (some claims) names =
      let r = check_claims tick_off_named claims names in (r.0 && none_left r.1, r.1)

  -- backoff.Retry; none is an error.
  unfoldable pub retry_pod_cidrs :
      List (Option (List (Object Selector))) → Names → Option (List (Object Selector))
  unfolding attempt
  retry_pod_cidrs [] names = none
  retry_pod_cidrs (listing ∷ listings) names =
      let r = attempt listing names in
      let rest = retry_pod_cidrs listings r.1 in if r.0 then listing else rest

  unfoldable pub get_pod_cidrs :
      List Bytes → List (Option (List (Object Selector))) → Option (List (Object Selector))
  unfolding retry_pod_cidrs from_slice Bytes-discrete
  get_pod_cidrs templates listings = retry_pod_cidrs listings (from_slice Bytes-discrete templates)

  module _ (split : Bytes → List Bytes) (trim : Bytes → Bytes) where
    -- An attempt of GetExtraPodCIDRs, from the pod's annotation and what List answers; none is an error of
    -- the call.
    unfoldable pub extra_attempt :
        Option Bytes → Option (List (Object Selector)) → Option (List (Object Selector))
    unfolding check_claims tick_off extra_pod_cidr_template_names from_slice Bytes-discrete
    extra_attempt none listing = none
    extra_attempt (some annotation) none = none
    extra_attempt (some annotation) (some claims) =
        let names =
          from_slice Bytes-discrete (extra_pod_cidr_template_names split trim annotation) in
        let r = check_claims tick_off claims names in
        if r.0 && none_left r.1 then some claims else none

    unfoldable pub retry_extra :
        List (Option Bytes × Option (List (Object Selector))) → Option (List (Object Selector))
    unfolding extra_attempt
    retry_extra [] = none
    retry_extra (answer ∷ answers) =
        let rest = retry_extra answers in
        elim (extra_attempt answer.0 answer.1) [ none ↦ rest | some claims ↦ some claims ]

    -- Without a local cache there are no claims.
    unfoldable pub get_extra_pod_cidrs :
        Bool
        → List (Option Bytes × Option (List (Object Selector)))
        → Option (List (Object Selector))
    unfolding retry_extra
    get_extra_pod_cidrs has_local_cache answers =
        if has_local_cache then retry_extra answers else some []
