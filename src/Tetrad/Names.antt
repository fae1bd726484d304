-- ===== src/Tetrad/Names.antt =====
-- The names of the CIDRClaims: ClaimNameGenerator of tetrad/main.go and of tetrad/cnid.go, and claimName of
-- tetrad/controllers/extrapodcidrsync_controller.go. `sha1_hex` is the text of the SHA-1 sum, in hexadecimal.
use tetrapod.Base.{
  ℕ, ◌-◌, ◌<◌, ◌≤◌, ◌≡◌, ap, append_assoc, true, List, [], ◌∷◌, ◌++◌, ltb, ◌==◌, if◌then◌else◌,
  length, take, length-take, length-append, take-append_agree, take-append_long, sym, ◌∙◌, arith,
  Bool-cases, inl, inr,
}
use tetrapod.Base.Bytes.{Bytes}

-- 45 is '-', and 47 is '/'.
abbrev dash : Bytes
dash = 45 ∷ []

abbrev slash : Bytes
slash = 47 ∷ []

-- "-pod-" and "pod-"
abbrev pod_infix : Bytes
pod_infix = 45 ∷ 112 ∷ 111 ∷ 100 ∷ 45 ∷ []

abbrev pod_dash : Bytes
pod_dash = 112 ∷ 111 ∷ 100 ∷ 45 ∷ []

-- strings.ReplaceAll(s, "/", "-")
unfoldable pub replace_slashes : Bytes → Bytes
replace_slashes [] = []
replace_slashes (c ∷ cs) = (if c == 47 then 45 else c) ∷ replace_slashes cs

-- Texts, one after the other, in front of a last one.
abbrev joined : List Bytes → Bytes → Bytes
joined [] last = last
joined (x ∷ xs) last = x ++ joined xs last

joined_agree :
    (n : ℕ) (front : List Bytes) (ys zs : Bytes)
    → take n ys ≡ take n zs
    → take n (joined front ys) ≡ take n (joined front zs)
joined_agree n [] ys zs h = h
joined_agree n (x ∷ xs) ys zs h =
    take-append_agree n x (joined xs ys) (joined xs zs) (joined_agree n xs ys zs h)

module _ (sha1_hex : Bytes → Bytes) (cluster_name node_name : Bytes) where
  abbrev generated : Bytes → Bytes
  generated template_name = cluster_name ++ dash ++ node_name ++ dash ++ template_name

  unfoldable pub claim_name_generator : Bytes → Bytes
  claim_name_generator template_name =
      let name = generated template_name in
      if ltb (length name) 53 then name else take (53 - 9) name ++ dash ++ take 8 (sha1_hex name)

  abbrev raw_name : Bytes → Bytes → Bytes → Bytes
  raw_name namespace name template_name =
      joined (cluster_name ∷ slash ∷ node_name ∷ slash ∷ namespace ∷ slash ∷ [])
        (name ++ (slash ++ template_name))

  -- The guard looks at the length of the pod's name, and the sum is that of the pod's name.
  unfoldable pub claim_name : Bytes → Bytes → Bytes → Bytes
  unfolding replace_slashes
  claim_name namespace name template_name =
      let raw = raw_name namespace name template_name in
      let cut = if ltb (53 - 9) (length name) then take (53 - 9) raw else raw in
      replace_slashes cut ++ dash ++ take 8 (sha1_hex name)

  -- The generated name has at most 53 bytes.
  pub claim_name_generator_fits :
      (template_name : Bytes) → length (claim_name_generator template_name) ≤ 53
  unfolding claim_name_generator
  claim_name_generator_fits template_name =
      let name = generated template_name in
      let sum = take 8 (sha1_hex name) in
      let cut : length (take 44 name ++ dash ++ sum) ≤ 53 = omega (
        arith,
        length-append (take 44 name ++ dash) sum,
        length-append (take 44 name) dash,
        length-take 44 name,
        length-take 8 (sha1_hex name),
      ) in
      elim (Bool-cases (ltb (length name) 53)) [
        | inl short ↦ rw short (ground arith)
        | inr long ↦ rw long cut
      ]

  raw_name-cut :
      (namespace name t u : Bytes)
      → 44 < length name
      → take 44 (raw_name namespace name t) ≡ take 44 (raw_name namespace name u)
  raw_name-cut namespace name t u long =
      joined_agree 44 (cluster_name ∷ slash ∷ node_name ∷ slash ∷ namespace ∷ slash ∷ [])
        (name ++ (slash ++ t)) (name ++ (slash ++ u))
        (take-append_long 44 name (slash ++ t) (omega arith)
          ∙ sym (take-append_long 44 name (slash ++ u) (omega arith)))

  -- For a pod whose name is longer than 44 bytes, two templates give one name: the two claims of
  -- the pod are one object.
  pub claim_name_collides :
      (namespace name template_name other_template : Bytes)
      → 44 < length name
      → claim_name namespace name template_name ≡ claim_name namespace name other_template
  unfolding claim_name
  claim_name_collides namespace name template_name other_template long =
      let guard : ltb 44 (length name) ≡ true = ground arith in
      rw guard (
        ap (λ c. replace_slashes c ++ dash ++ take 8 (sha1_hex name))
          (raw_name-cut namespace name template_name other_template long))

  abbrev generated_for_pods : Bytes → Bytes
  generated_for_pods template_name = cluster_name ++ dash ++ node_name ++ pod_infix ++ template_name

  -- ClaimNameGenerator of tetrad/cnid.go, for the claims of a node's pods.
  unfoldable pub pod_claim_name_generator : Bytes → Bytes
  pod_claim_name_generator template_name =
      let name = generated_for_pods template_name in
      if ltb (length name) 53 then name else take (53 - 9) name ++ dash ++ take 8 (sha1_hex name)

  -- The claim of a template for the node's pods has the name of the node's own claim of the template whose
  -- name is the same behind "pod-": the two are one object.
  pub pod_claim_name_collides :
      (template_name : Bytes)
      → pod_claim_name_generator template_name ≡ claim_name_generator (pod_dash ++ template_name)
  unfolding pod_claim_name_generator claim_name_generator
  pod_claim_name_collides template_name =
      let same : generated_for_pods template_name ≡ generated (pod_dash ++ template_name) = ground (
        arith,
        append_assoc (cluster_name ++ dash ++ node_name) pod_infix template_name,
        append_assoc (cluster_name ++ dash ++ node_name) dash (pod_dash ++ template_name),
      ) in
      ap
        (λ name.
          if ltb (length name) 53
          then name
          else take (53 - 9) name ++ dash ++ take 8 (sha1_hex name))
        same
