-- ===== src/Tetrad/Claimer.antt =====
-- tetrad/controllers/cidrclaimer_controller.go: the claims of a node, one for each of its templates.
pub mod Settles
pub mod Pruned
use tetrapod.Base.{
  ◌≡◌, ◌≢◌, refl, sym, ◌∙◌, Bool, true, false, ◌&&◌, not, List, [], ◌∷◌, Option, none, some, map,
  ◌==◌, if◌then◌else◌, elem, is_yes, arith,
}
use tetrapod.Base.Bytes.{Bytes, Bytes-discrete}
use tetrapod.Pkg.Syncmap.{load}
use tetrapod.Controlplane.CidrClaim.{Claim}
use tetrapod.Tetrad.Labels.{Labels, Key-discrete, template_name, or_empty, selects}
use tetrapod.Tetrad.Api.{Api, Object, Template, kept}

-- The calls of Reconcile.
pub data Call : Type 0 where
  deletes gets_node gets_template upserts : Call

-- An error, the claims deleted, or the claim written and the CIDR that the callback is called with.
pub data Outcome {Selector : Type 0} (api : Api Selector) : Type 0 where
  failed : Outcome api
  deleted : api.Server → Outcome api
  upserted : Object Selector → api.Server → Option Bytes → Outcome api

-- claim.Status.CIDR, unless the status is of an older generation or there is no callback.
abbrev pub told : {Selector : Type 0} → Bool → Claim Selector → Option Bytes
told has_callback c =
    if c.status.observed_generation == c.generation
    then (if has_callback then some c.status.cidr else none)
    else none

-- A Go map as the labels of an object: some label of the set is missing or another one.
unfoldable pub mismatch : Labels → Labels → Bool
unfolding load Key-discrete Bytes-discrete
mismatch [] object = false
mismatch ((k, v) ∷ set) object =
    if is_yes (Bytes-discrete (or_empty (load Key-discrete k object)) v)
    then mismatch set object
    else true

module _ {Selector : Type 0} (api : Api Selector) (labels : Bytes → Labels) where
  -- The function that CreateOrUpdate is given.
  unfoldable pub mutate :
      Option Bytes → Template Selector → Bytes → Object Selector → Option (Object Selector)
  mutate self_node tmpl name o =
      let o' = record o {
        labels = labels name;
        claim = record o.claim { selector = tmpl.selector; size_bit = tmpl.size_bit };
      } in
      elim self_node [ none ↦ some o' | some nd ↦ api.own nd o' ]

  -- controlPlaneClaimHandler: the template to reconcile, when a claim with these labels changed.
  unfoldable pub claim_event : Labels → Option Bytes
  unfolding load Key-discrete mismatch
  claim_event object =
      let name = or_empty (load Key-discrete template_name object) in
      if mismatch (labels name) object
      then none
      else if is_yes (Bytes-discrete name [])
      then none
      else some name

  module _ (claim_name_generator : Bytes → Bytes) (template_names : List Bytes)
      (has_callback : Bool) where
    -- `answers` says which of the calls reach the server.
    unfoldable pub reconcile_claimer : (Call → Bool) → Bytes → api.Server → Outcome api
    unfolding mutate Bytes-discrete
    reconcile_claimer answers name s =
        if not (elem Bytes-discrete name template_names)
        then (if answers deletes then deleted (api.delete_all_of (labels name) s) else failed)
        else if not (answers gets_node && answers gets_template)
        then failed
        else elim (api.template name s) [
          | none ↦ failed
          | some tmpl ↦
              if answers upserts
              then elim (api.create_or_update (claim_name_generator name)
                  (mutate (api.self_node s) tmpl name) s) [
                    | none ↦ failed
                    | some r ↦ upserted r.0 r.1 (told has_callback r.0.claim)
                  ]
              else failed
        ]
