-- ===== src/Tetrad/Claimer/Pruned.antt =====
-- Reconcile of a template that the node does not use any longer.
use tetrapod.Base.{
  ◌≡◌, ◌≢◌, refl, sym, ◌∙◌, Bool, true, false, List, [], ◌∷◌, some, elem, is_yes, arith,
}
use tetrapod.Base.Bytes.{Bytes, Bytes-discrete}
use tetrapod.Pkg.Syncmap.{load, store}
use tetrapod.Tetrad.Labels.{Key-discrete, node_type_for_node, typed_for_node, for_node, selects}
use tetrapod.Tetrad.Api.{Api, Object, kept-labels}
use tetrapod.Tetrad.Claimer.{deleted, reconcile_claimer, claim_event, mismatch}

selects-node_type :
    (cluster_name node_name name other : Bytes)
    → name ≢ []
    → selects
        (node_type_for_node cluster_name node_name name)
        (node_type_for_node cluster_name node_name other)
      ≡ is_yes (Bytes-discrete other name)
unfolding selects node_type_for_node typed_for_node for_node store load Key-discrete Bytes-discrete
selects-node_type cluster_name node_name [] other n = absurd (n refl)
selects-node_type cluster_name node_name (c ∷ cs) [] n = ground arith
selects-node_type cluster_name node_name (c ∷ cs) (d ∷ ds) n = ground arith

claim_event-node_type :
    {Selector : Type 0} (api : Api Selector) (cluster_name node_name name : Bytes)
    → name ≢ []
    → claim_event api
        (node_type_for_node cluster_name node_name)
        (node_type_for_node cluster_name node_name name)
      ≡ some name
unfolding claim_event mismatch node_type_for_node typed_for_node for_node store load Key-discrete
    Bytes-discrete
claim_event-node_type api cluster_name node_name [] n = absurd (n refl)
claim_event-node_type api cluster_name node_name (c ∷ cs) n = ground arith

module _ {Selector : Type 0} (api : Api Selector) (cluster_name node_name : Bytes) where
  -- For a template that is not one of the node's, Reconcile leaves no claim with the node's labels for
  -- it, and keeps every claim with the node's labels for another template, where the calls are answered.
  -- A change of a claim with the node's labels for a template leads to that template's Reconcile.
  pub reconcile_claimer_prunes :
      (claim_name_generator : Bytes → Bytes) (template_names : List Bytes) (has_callback : Bool)
      (name : Bytes) (s : api.Server)
      → let labels = node_type_for_node cluster_name node_name in
        elem Bytes-discrete name template_names ≡ false
        → name ≢ []
        → (s' : api.Server) × (reconcile_claimer api labels claim_name_generator template_names
              has_callback
              (λ c. true)
              name
              s
            ≡ deleted s')
          × ((n : Bytes) (o : Object Selector) → api.get n s' ≡ some o → o.labels ≢ labels name)
          × ((n other : Bytes) (o : Object Selector)
              → api.get n s ≡ some o
              → o.labels ≡ labels other
              → other ≢ name
              → api.get n s' ≡ some o)
          × (claim_event api labels (labels name) ≡ some name)
  unfolding reconcile_claimer
  reconcile_claimer_prunes claim_name_generator template_names has_callback name s unlisted named =
      let s' = api.delete_all_of (node_type_for_node cluster_name node_name name) s in
      (
        s',
        rw unlisted refl,
        gone,
        stays,
        claim_event-node_type api cluster_name node_name name named,
      )
    where
      gone :
          (n : Bytes) (o : Object Selector)
          → api.get n (api.delete_all_of (node_type_for_node cluster_name node_name name) s)
            ≡ some o
          → o.labels ≢ node_type_for_node cluster_name node_name name
      gone n o h e =
          let left = kept-labels (node_type_for_node cluster_name node_name name) (api.get n s) o (
            sym (api.get-delete_all_of (node_type_for_node cluster_name node_name name) n s) ∙ h) in
          absurd
            (ground (arith, left.0, selects-node_type cluster_name node_name name name named, e))

      stays :
          (n other : Bytes) (o : Object Selector)
          → api.get n s ≡ some o
          → o.labels ≡ node_type_for_node cluster_name node_name other
          → other ≢ name
          → api.get n (api.delete_all_of (node_type_for_node cluster_name node_name name) s)
            ≡ some o
      stays n other o h e different = ground (
        arith,
        api.get-delete_all_of (node_type_for_node cluster_name node_name name) n s,
        selects-node_type cluster_name node_name name other named,
      )
