-- ===== src/Tetracni/RoutePods/Firewall.antt =====
-- The rules after the firewall is set up.
use tetrapod.Base.{
  ◌≡◌, refl, sym, ◌∙◌, true, false, List, [], ◌∷◌, ◌++◌, none, some, In, arith, inl, inr,
  Option-cases, In-append_left, In-append_right, elem,
}
use tetrapod.Base.Bytes.{Bytes, Bytes-discrete}
use tetrapod.Tetracni.RoutePods.{
  Protocol, Rule, jump_to, accept_in, accept_related_out, drop_out, Iptables, redirected_rules,
  append_each, jumps, in_chain, append_rules, set_up_iptables,
}
use tetrapod.Tetracni.RoutePods.Rules.{In-dec, second_is_new, third_is_new}

module _ (ipt : Iptables) (p : Protocol) where
  append_unique-has :
      (c : Bytes) (r : Rule) (s s' : ipt.State)
      → ipt.append_unique p c r s ≡ some s'
      → In r (ipt.rules p c s')
  append_unique-has c r s s' h = elim (In-dec r (ipt.rules p c s)) [
    | yes i ↦ rw (ipt.append_unique-there p c r s s' h i) i
    | no n ↦
        rw (ipt.append_unique-absent p c r s s' h n)
          (In-append_right r (ipt.rules p c s) (r ∷ []) (inl refl))
  ]

  append_unique-keeps :
      (c d : Bytes) (r q : Rule) (s s' : ipt.State)
      → ipt.append_unique p c r s ≡ some s'
      → In q (ipt.rules p d s)
      → In q (ipt.rules p d s')
  append_unique-keeps c d r q s s' h i = elim (Bytes-discrete d c) [
    | no n ↦ rw (ipt.append_unique-other p c d r s s' h n) i
    | yes e ↦ elim (In-dec r (ipt.rules p c s)) [
      | yes j ↦ rw (e, ipt.append_unique-there p c r s s' h j) (rw (sym e) i)
      | no n ↦
          rw (e, ipt.append_unique-absent p c r s s' h n)
            (In-append_left q (ipt.rules p c s) (r ∷ []) (rw (sym e) i))
    ]
  ]

  append_unique-fixed :
      (c d : Bytes) (r : Rule) (s s' : ipt.State)
      → ipt.append_unique p c r s ≡ some s'
      → In r (ipt.rules p c s)
      → ipt.rules p d s' ≡ ipt.rules p d s
  append_unique-fixed c d r s s' h i = elim (Bytes-discrete d c) [
    | no n ↦ ipt.append_unique-other p c d r s s' h n
    | yes e ↦ rw e (ipt.append_unique-there p c r s s' h i)
  ]

  -- Each rule stands in its chain.
  abbrev pub Present : List (Bytes × Rule) → ipt.State → Type 0
  Present [] s = Unit
  Present ((c, r) ∷ rest) s = In r (ipt.rules p c s) × Present rest s

  Present-jumps :
      (b c : Bytes) (chains : List Bytes) (s : ipt.State)
      → In b chains
      → Present (jumps ipt chains c) s
      → In (jump_to c) (ipt.rules p b s)
  Present-jumps b c [] s i a = absurd i
  Present-jumps b c (d ∷ chains) s (inl e) a = rw (sym e) a.0
  Present-jumps b c (d ∷ chains) s (inr i) a = Present-jumps b c chains s i a.1

  Present-keeps :
      (c : Bytes) (r : Rule) (xs : List (Bytes × Rule)) (s s' : ipt.State)
      → ipt.append_unique p c r s ≡ some s'
      → Present xs s
      → Present xs s'
  Present-keeps c r [] s s' h a = tt
  Present-keeps c r ((d, q) ∷ xs) s s' h a =
      (append_unique-keeps c d r q s s' h a.0, Present-keeps c r xs s s' h a.1)

  append_each-some :
      (c : Bytes) (r : Rule) (xs : List (Bytes × Rule)) (s s' : ipt.State)
      → ipt.append_unique p c r s ≡ some s'
      → append_each ipt p ((c, r) ∷ xs) s ≡ append_each ipt p xs s'
  unfolding append_each
  append_each-some c r xs s s' e = ground arith

  append_each-none :
      (c : Bytes) (r : Rule) (xs : List (Bytes × Rule)) (s : ipt.State)
      → ipt.append_unique p c r s ≡ none
      → append_each ipt p ((c, r) ∷ xs) s ≡ (s, false)
  unfolding append_each
  append_each-none c r xs s e = ground arith

  append_each-keeps :
      (xs : List (Bytes × Rule)) (d : Bytes) (q : Rule) (s : ipt.State)
      → In q (ipt.rules p d s)
      → In q (ipt.rules p d (append_each ipt p xs s).0)
  unfolding append_each
  append_each-keeps [] d q s i = i
  append_each-keeps ((c, r) ∷ xs) d q s i = elim (Option-cases (ipt.append_unique p c r s)) [
    | inl e ↦ rw (append_each-none c r xs s e) i
    | inr (s', e) ↦
        rw (append_each-some c r xs s s' e)
          (append_each-keeps xs d q s' (append_unique-keeps c d r q s s' e i))
  ]

  append_each-Present :
      (xs : List (Bytes × Rule)) (s : ipt.State)
      → (append_each ipt p xs s).1 ≡ true
      → Present xs (append_each ipt p xs s).0
  unfolding append_each
  append_each-Present [] s h = tt
  append_each-Present ((c, r) ∷ xs) s h = elim (Option-cases (ipt.append_unique p c r s)) [
    | inl e ↦ absurd (ground arith)
    | inr (s', e) ↦ rw (append_each-some c r xs s s' e) (
      append_each-keeps xs c r s' (append_unique-has c r s s' e),
      append_each-Present xs s' (ground arith),
    )
  ]

  append_each-fixed :
      (xs : List (Bytes × Rule)) (d : Bytes) (s : ipt.State)
      → Present xs s
      → ipt.rules p d (append_each ipt p xs s).0 ≡ ipt.rules p d s
  unfolding append_each
  append_each-fixed [] d s a = refl
  append_each-fixed ((c, r) ∷ xs) d s a = elim (Option-cases (ipt.append_unique p c r s)) [
    | inl e ↦ rw (append_each-none c r xs s e) refl
    | inr (s', e) ↦ ground (
      arith,
      append_each-some c r xs s s' e,
      append_each-fixed xs d s' (Present-keeps c r xs s s' e a.1),
      append_unique-fixed c d r s s' e a.0,
    )
  ]

  append_each-jumps :
      (chains : List Bytes) (redirected d : Bytes) (s : ipt.State)
      → elem Bytes-discrete d chains ≡ false
      → ipt.rules p d (append_each ipt p (jumps ipt chains redirected) s).0 ≡ ipt.rules p d s
  unfolding append_each
  append_each-jumps [] redirected d s h = refl
  append_each-jumps (c ∷ chains) redirected d s h =
      elim (Option-cases (ipt.append_unique p c (jump_to redirected) s)) [
        | inl e ↦
            rw (append_each-none c (jump_to redirected) (jumps ipt chains redirected) s e) refl
        | inr (s', e) ↦ ground (
          arith,
          append_each-jumps chains redirected d s',
          ipt.append_unique-other p c d (jump_to redirected) s s' e,
        )
      ]

  append_each-next :
      (c : Bytes) (r : Rule) (xs : List (Bytes × Rule)) (s : ipt.State) (rs : List Rule)
      → ipt.rules p c s ≡ rs
      → (In r rs → ⊥)
      → (append_each ipt p ((c, r) ∷ xs) s).1 ≡ true
      → (s' : ipt.State) × (ipt.rules p c s' ≡ rs ++ (r ∷ []))
        × (append_each ipt p ((c, r) ∷ xs) s ≡ append_each ipt p xs s')
  append_each-next c r xs s rs e n h = elim (Option-cases (ipt.append_unique p c r s)) [
    | inl g ↦ absurd (ground (arith, append_each-none c r xs s g))
    | inr (s', g) ↦ (
      s',
      rw (sym e) (ipt.append_unique-absent p c r s s' g (λ i. n (rw (sym e) i))),
      append_each-some c r xs s s' g,
    )
  ]

  append_each-empty :
      (name c : Bytes) (s : ipt.State)
      → ipt.rules p c s ≡ []
      → (append_each ipt p (in_chain ipt c (redirected_rules name)) s).1 ≡ true
      → ipt.rules p c (append_each ipt p (in_chain ipt c (redirected_rules name)) s).0
        ≡ redirected_rules name
  unfolding append_each
  append_each-empty name c s e h =
      let one =
        append_each-next c (accept_in name) ((c, accept_related_out name) ∷ (c, drop_out name) ∷ [])
          s [] e (λ i. i) h in
      let two =
        append_each-next c (accept_related_out name) ((c, drop_out name) ∷ []) one.0
          (accept_in name ∷ []) one.1 (second_is_new name) (rw (sym one.2) h) in
      let three =
        append_each-next c (drop_out name) [] two.0 (accept_in name ∷ accept_related_out name ∷ [])
          two.1 (third_is_new name) (rw (sym two.2) (rw (sym one.2) h)) in
      rw (one.2 ∙ two.2 ∙ three.2) three.1

  Present-append_each :
      (xs ys : List (Bytes × Rule)) (s : ipt.State)
      → Present xs s
      → Present xs (append_each ipt p ys s).0
  Present-append_each [] ys s a = tt
  Present-append_each ((c, r) ∷ xs) ys s a =
      (append_each-keeps ys c r s a.0, Present-append_each xs ys s a.1)

  append_rules-ok :
      (chains : List Bytes) (name c : Bytes) (s : ipt.State)
      → let jumped = append_each ipt p (jumps ipt chains c) s in
        (append_rules ipt p chains name c s).1 ≡ true
        → (jumped.1 ≡ true)
          × (append_rules ipt p chains name c s
              ≡ append_each ipt p (in_chain ipt c (redirected_rules name)) jumped.0)
  unfolding append_rules
  append_rules-ok chains name c s h = ground arith

  append_rules-Present :
      (chains : List Bytes) (name c : Bytes) (s : ipt.State)
      → (append_rules ipt p chains name c s).1 ≡ true
      → Present (jumps ipt chains c) (append_rules ipt p chains name c s).0
        × Present (in_chain ipt c (redirected_rules name)) (append_rules ipt p chains name c s).0
  append_rules-Present chains name c s h =
      let (done, e) = append_rules-ok chains name c s h in
      let jumped = append_each ipt p (jumps ipt chains c) s in
      let wanted = in_chain ipt c (redirected_rules name) in
      rw e (
        Present-append_each (jumps ipt chains c) wanted jumped.0
            (append_each-Present (jumps ipt chains c) s done),
        append_each-Present wanted jumped.0 (rw (sym e) h),
      )

  append_rules-fixed :
      (chains : List Bytes) (name c d : Bytes) (s : ipt.State)
      → Present (jumps ipt chains c) s
      → Present (in_chain ipt c (redirected_rules name)) s
      → ipt.rules p d (append_rules ipt p chains name c s).0 ≡ ipt.rules p d s
  unfolding append_rules
  append_rules-fixed chains name c d s a b =
      let jumped = append_each ipt p (jumps ipt chains c) s in
      ground (
        arith,
        append_each-fixed (jumps ipt chains c) d s a,
        append_each-fixed (in_chain ipt c (redirected_rules name)) d jumped.0
            (Present-append_each (in_chain ipt c (redirected_rules name)) (jumps ipt chains c) s b),
      )

  append_rules-empty :
      (chains : List Bytes) (name c : Bytes) (s : ipt.State)
      → elem Bytes-discrete c chains ≡ false
      → ipt.rules p c s ≡ []
      → (append_rules ipt p chains name c s).1 ≡ true
      → ipt.rules p c (append_rules ipt p chains name c s).0 ≡ redirected_rules name
  unfolding append_rules
  append_rules-empty chains name c s o e h =
      let jumped = append_each ipt p (jumps ipt chains c) s in
      ground (arith, append_each-jumps chains c c s o, append_each-empty name c jumped.0)

  -- When setUpIPTables succeeds where the redirected chain did not exist, and the chain is none of
  -- iptablesChains: the chain has the rules that accept what comes in, accept what goes out of a known
  -- connection and drop what else goes out, in this order and no other; and each of iptablesChains has the
  -- rule that jumps to it. When it runs again, and finds the chain, no chain is changed.
  pub set_up_iptables_exact :
      (chains : List Bytes) (name b c d : Bytes) (s : ipt.State)
      → let first = set_up_iptables ipt p chains name c s in
        let second = set_up_iptables ipt p chains name c first.0 in
        elem Bytes-discrete c chains ≡ false
        → In b chains
        → ipt.chain_exists p c s ≡ some false
        → first.1 ≡ true
        → ipt.chain_exists p c first.0 ≡ some true
        → (ipt.rules p c first.0 ≡ accept_in name ∷ accept_related_out name ∷ drop_out name ∷ [])
          × In (jump_to c) (ipt.rules p b first.0)
          × (ipt.rules p d second.0 ≡ ipt.rules p d first.0)
  unfolding set_up_iptables
  set_up_iptables_exact chains name b c d s o listed absent h found =
      elim (Option-cases (ipt.new_chain p c s)) [
        | inl e ↦ absurd (ground arith)
        | inr (s', e) ↦
            let first = append_rules ipt p chains name c s' in
            let same : set_up_iptables ipt p chains name c s ≡ first = ground arith in
            let done : first.1 ≡ true = rw (sym same) h in
            let (a, own) = append_rules-Present chains name c s' done in
            ground (
              arith,
              append_rules-empty chains name c s' o (ipt.rules-new_chain p c s s' e) done,
              append_rules-fixed chains name c d first.0 a own,
              Present-jumps b c chains first.0 listed a,
            )
      ]
