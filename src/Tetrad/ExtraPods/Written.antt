-- ===== src/Tetrad/ExtraPods/Written.antt =====
-- The claims of a pod after Reconcile.
use tetrapod.Base.{
  ◌≡◌, ◌≢◌, refl, sym, subst, ◌∙◌, Bool, true, List, [], ◌∷◌, Option, some, In, inl, inr,
}
use tetrapod.Base.Bytes.{Bytes}
use tetrapod.Tetrad.Labels.{extra_pod_cidr_template_names}
use tetrapod.Tetrad.Names.{claim_name}
use tetrapod.Tetrad.Api.{Api, Object, Template}
use tetrapod.Tetrad.Claimer.{mutate}
use tetrapod.Tetrad.Claimer.Settles.{Wears, mutate-Wears}
use tetrapod.Tetrad.ExtraPods.{annotated, extra_labels, sync_templates, reconcile_pod}

-- The names of the elements of a list are all different.
abbrev pub Apart : (Bytes → Bytes) → List Bytes → Type 0
Apart name_of [] = Unit
Apart name_of (t ∷ ts) = ((u : Bytes) → In u ts → name_of t ≢ name_of u) × Apart name_of ts

module _ {Selector : Type 0} (api : Api Selector) (cluster_name node_name : Bytes)
    (sha1_hex : Bytes → Bytes) (split : Bytes → List Bytes) (trim : Bytes → Bytes)
    (namespace name : Bytes) where
  abbrev pub name_for : Bytes → Bytes
  name_for = claim_name sha1_hex cluster_name node_name namespace name

  -- The server has the claim for a template, as its CIDRClaimTemplate says.
  abbrev pub Written : api.Server → (Bytes → Template Selector) → Bytes → Type 0
  Written s tmpl t =
      (o : Object Selector) × (api.get (name_for t) s ≡ some o)
      × Wears (extra_labels cluster_name node_name namespace name t) (tmpl t) o

  abbrev sync_all : Option Bytes → List Bytes → api.Server → api.Server × Bool
  sync_all =
      sync_templates cluster_name node_name api sha1_hex split trim (λ t c. true) namespace name

  -- A round of the loop that writes its claim.
  sync_templates-round :
      (self_node : Option Bytes) (t : Bytes) (ts : List Bytes) (s : api.Server)
      (tmpl : Template Selector) (r : Object Selector × api.Server)
      → trim t ≡ t
      → api.template t s ≡ some tmpl
      → api.create_or_update
          (name_for t)
          (mutate api (extra_labels cluster_name node_name namespace name) self_node tmpl t)
          s
        ≡ some r
      → sync_all self_node (t ∷ ts) s ≡ sync_all self_node ts r.1
  unfolding sync_templates
  sync_templates-round self_node t ts s tmpl r e k c =
      let named : api.template (trim t) s ≡ some tmpl = rw e k in
      let made : api.create_or_update (name_for (trim t))
            (mutate api (extra_labels cluster_name node_name namespace name) self_node tmpl
              (trim t))
            s
          ≡ some r =
        rw e c in
      rw named (rw made refl)

  sync_templates-Written :
      (self_node : Option Bytes) (tmpl : Bytes → Template Selector) (ts : List Bytes)
      (s : api.Server)
      → ((t : Bytes) → In t ts → (trim t ≡ t) × (api.template t s ≡ some (tmpl t)))
      → ((t : Bytes) (o : Object Selector)
          → (m : Object Selector) × (mutate api
                (extra_labels cluster_name node_name namespace name)
                self_node
                (tmpl t)
                t
                o
              ≡ some m))
      → Apart name_for ts
      → (s' : api.Server) × (sync_all self_node ts s ≡ (s', true))
        × ((t : Bytes) → In t ts → Written s' tmpl t)
        × ((k : Bytes) → ((t : Bytes) → In t ts → name_for t ≢ k) → api.get k s' ≡ api.get k s)
  unfolding sync_templates
  sync_templates-Written self_node tmpl [] s known owned apart =
      (s, refl, λ t i. absurd i, λ k d. refl)
  sync_templates-Written self_node tmpl (t ∷ ts) s known owned apart =
      let labels = extra_labels cluster_name node_name namespace name in
      let f = mutate api labels self_node (tmpl t) t in
      let n = name_for t in
      let (m, made) = owned t (api.found n s) in
      let (o, s1, done, l, ow, sel, size, there, others, templates, node) =
        api.upsert n f s m made in
      let w = mutate-Wears api labels self_node (tmpl t) t (api.found n s) m made in
      let (s', rest, written, same) =
        sync_templates-Written self_node tmpl ts s1
          (λ u i. ((known u (inr i)).0, templates u ∙ (known u (inr i)).1)) owned apart.1 in
      (
        s',
        sync_templates-round self_node t ts s (tmpl t) (o, s1) (known t (inl refl)).0
              (known t (inl refl)).1 done
            ∙ rest,
        λ u i.
            now s' u i
              (
                o,
                same n (λ v j e. apart.0 v j (sym e)) ∙ there,
                record {
                  labelled = l ∙ w.labelled;
                  selects_as = sel ∙ w.selects_as;
                  sized = size ∙ w.sized;
                },
              )
              (written u),
        λ k d. same k (λ u i. d u (inr i)) ∙ others k (λ e. d t (inl refl) (sym e)),
      )
    where
      now :
          (s' : api.Server) (u : Bytes)
          → In u (t ∷ ts)
          → Written s' tmpl t
          → (In u ts → Written s' tmpl u)
          → Written s' tmpl u
      now s' u (inl e) here behind = subst (Written s' tmpl) e here
      now s' u (inr i) here behind = behind i

  -- For a pod whose annotation names templates that all exist, where every call is answered and the owner can
  -- be set: if no two of the claims get one name, Reconcile succeeds, afterwards there is a claim for each
  -- of the templates with the pod's labels and the template's selector and size, and claims of other names are
  -- as before.
  pub reconcile_pod-Written :
      (annotation : Bytes) (tmpl : Bytes → Template Selector) (s : api.Server)
      → let ts = extra_pod_cidr_template_names split trim annotation in
        ((t : Bytes) → In t ts → (trim t ≡ t) × (api.template t s ≡ some (tmpl t)))
        → ((t : Bytes) (o : Object Selector)
            → (m : Object Selector) × (mutate api
                  (extra_labels cluster_name node_name namespace name)
                  (api.self_node s)
                  (tmpl t)
                  t
                  o
                ≡ some m))
        → Apart name_for ts
        → (s' : api.Server) × (reconcile_pod cluster_name node_name api sha1_hex split trim
              (λ t c. true)
              namespace
              name
              true
              true
              (annotated annotation)
              s
            ≡ (s', true))
          × ((t : Bytes) → In t ts → Written s' tmpl t)
          × ((k : Bytes) → ((t : Bytes) → In t ts → name_for t ≢ k) → api.get k s' ≡ api.get k s)
  unfolding reconcile_pod
  reconcile_pod-Written annotation tmpl s known owned apart =
      sync_templates-Written (api.self_node s) tmpl
        (extra_pod_cidr_template_names split trim annotation) s known owned apart
