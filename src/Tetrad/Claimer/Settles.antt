-- ===== src/Tetrad/Claimer/Settles.antt =====
-- Reconcile of the node's claims, once and again.
use tetrapod.Base.{◌≡◌, ◌≢◌, refl, sym, ◌∙◌, ap, Bool, true, List, Option, none, some, elem, arith}
use tetrapod.Base.Bytes.{Bytes, Bytes-discrete}
use tetrapod.Tetrad.Labels.{Labels}
use tetrapod.Tetrad.Api.{Api, Object, Template}
use tetrapod.Tetrad.Claimer.{Outcome, upserted, mutate, reconcile_claimer, told}

module _ {Selector : Type 0} where
  -- An object has what the function given to CreateOrUpdate sets.
  pub record Wears (l : Labels) (tmpl : Template Selector) (o : Object Selector) : Type 0 where
    pub labelled : o.labels ≡ l
    pub selects_as : o.claim.selector ≡ tmpl.selector
    pub sized : o.claim.size_bit ≡ tmpl.size_bit

module _ {Selector : Type 0} (api : Api Selector) (labels : Bytes → Labels) where
  pub mutate-Wears :
      (nd : Option Bytes) (tmpl : Template Selector) (name : Bytes) (o m : Object Selector)
      → mutate api labels nd tmpl name o ≡ some m
      → Wears (labels name) tmpl m
  unfolding mutate
  mutate-Wears none tmpl name o m h = record {
    labelled = ground arith;
    selects_as = ground arith;
    sized = ground arith;
  }
  mutate-Wears (some nd) tmpl name o m h =
      let o' = record o {
        labels = labels name;
        claim = record o.claim { selector = tmpl.selector; size_bit = tmpl.size_bit };
      } in
      let same = api.own_keeps nd o' m h in
      record {
        labelled = same.0;
        selects_as = ap (λ c. c.selector) same.1;
        sized = ap (λ c. c.size_bit) same.1;
      }

  rebuilt :
      (l : Labels) (tmpl : Template Selector) (p : Object Selector)
      → Wears l tmpl p
      → record p {
        labels = l;
        claim = record p.claim { selector = tmpl.selector; size_bit = tmpl.size_bit };
      }
        ≡ p
  rebuilt l tmpl p w = rw (sym w.labelled) (rw (sym w.selects_as) (rw (sym w.sized) refl))

  mutate_again :
      (nd : Option Bytes) (tmpl : Template Selector) (name : Bytes) (o m p : Object Selector)
      → mutate api labels nd tmpl name o ≡ some m
      → p.owners ≡ m.owners
      → Wears (labels name) tmpl p
      → mutate api labels nd tmpl name p ≡ some p
  unfolding mutate
  mutate_again none tmpl name o m p h e w = ap some (rebuilt (labels name) tmpl p w)
  mutate_again (some nd) tmpl name o m p h e w =
      let o' = record o {
        labels = labels name;
        claim = record o.claim { selector = tmpl.selector; size_bit = tmpl.size_bit };
      } in
      ap (api.own nd) (rebuilt (labels name) tmpl p w) ∙ api.own_again nd o' m p h e

  module _ (claim_name_generator : Bytes → Bytes) (template_names : List Bytes)
      (has_callback : Bool) where
    abbrev reconcile_all : Bytes → api.Server → Outcome api
    reconcile_all =
        reconcile_claimer api labels claim_name_generator template_names has_callback (λ c. true)

    -- Where every call is answered, Reconcile ends in what CreateOrUpdate ends in.
    reconcile_upserts :
        (name : Bytes) (s : api.Server) (tmpl : Template Selector) (o : Object Selector)
        (s' : api.Server)
        → elem Bytes-discrete name template_names ≡ true
        → api.template name s ≡ some tmpl
        → api.create_or_update
            (claim_name_generator name)
            (mutate api labels (api.self_node s) tmpl name)
            s
          ≡ some (o, s')
        → reconcile_all name s ≡ upserted o s' (told has_callback o.claim)
    unfolding reconcile_claimer
    reconcile_upserts name s tmpl o s' listed t made = rw listed (rw t (rw made refl))

    -- For one of the node's templates, where every call is answered and the owner can be set, Reconcile
    -- writes the claim of the template's name with the template's labels, selector and size, touches no
    -- claim of another name, and the same Reconcile again changes nothing and tells the same.
    pub reconcile_claimer_settles :
        (name : Bytes) (s : api.Server) (tmpl : Template Selector) (m : Object Selector)
        → elem Bytes-discrete name template_names ≡ true
        → api.template name s ≡ some tmpl
        → mutate api labels (api.self_node s) tmpl name (api.found (claim_name_generator name) s)
          ≡ some m
        → (o : Object Selector) × (s' : api.Server) × (reconcile_all name s
            ≡ upserted o s' (told has_callback o.claim))
          × (api.get (claim_name_generator name) s' ≡ some o)
          × Wears (labels name) tmpl o
          × ((k : Bytes) → k ≢ claim_name_generator name → api.get k s' ≡ api.get k s)
          × (reconcile_all name s' ≡ upserted o s' (told has_callback o.claim))
    reconcile_claimer_settles name s tmpl m listed t made =
        let n = claim_name_generator name in
        let f = mutate api labels (api.self_node s) tmpl name in
        let (o, s', done, l, ow, sel, size, there, others, templates, node) =
          api.upsert n f s m made in
        let w = mutate-Wears (api.self_node s) tmpl name (api.found n s) m made in
        let wears : Wears (labels name) tmpl o = record {
          labelled = l ∙ w.labelled;
          selects_as = sel ∙ w.selects_as;
          sized = size ∙ w.sized;
        } in
        let again =
          api.upsert_same n f s' o there
            (mutate_again (api.self_node s) tmpl name (api.found n s) m o made ow wears) in
        (
          o,
          s',
          reconcile_upserts name s tmpl o s' listed t done,
          there,
          wears,
          others,
          reconcile_upserts name s' tmpl o s' listed (templates name ∙ t) (rw node again),
        )
