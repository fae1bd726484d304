-- ===== src/Tetrad/CniServer/Ready.antt =====
-- Which claims a pod gets.
use tetrapod.Base.{
  ◌≡◌, refl, Bool, true, false, ◌&&◌, ◌||◌, not, List, [], ◌∷◌, none, All, inl, inr, ◌⊎◌, elem,
  is_yes, is_some, arith, Bool-cases,
}
use tetrapod.Base.Bytes.{Bytes, Bytes-discrete}
use tetrapod.Pkg.Syncmap.{load, from_slice, contains}
use tetrapod.Pkg.Syncmap.Laws.{load-delete, contains-from_slice}
use tetrapod.Tetrad.Labels.{is_empty}
use tetrapod.Tetrad.Api.{Object}
use tetrapod.Tetrad.CniServer.{
  Names, usable, template_of, tick_off_named, tick_off, check_claims, none_left,
}

pub none_left-load :
    (names : Names) → none_left names ≡ true → (t : Bytes) → load Bytes-discrete t names ≡ none
unfolding load
none_left-load [] h t = refl
none_left-load (n ∷ names) h t = absurd (cc)

pub load-none_left :
    (names : Names) → ((t : Bytes) → load Bytes-discrete t names ≡ none) → none_left names ≡ true
unfolding load
load-none_left [] h = refl
load-none_left ((n, u) ∷ names) h = absurd (ground (arith, h n))

pub load-from_slice :
    (t : Bytes) (ts : List Bytes)
    → is_some (load Bytes-discrete t (from_slice Bytes-discrete ts)) ≡ elem Bytes-discrete t ts
unfolding contains
load-from_slice t ts = contains-from_slice Bytes-discrete t ts

pub templates-each :
    (templates : List Bytes) (t : Bytes) (P : Type 0)
    → (elem Bytes-discrete t templates ≡ true → P)
    → (load Bytes-discrete t (from_slice Bytes-discrete templates) ≡ none) ⊎ P
templates-each templates t P offer = elim (Bool-cases (elem Bytes-discrete t templates)) [
  | inl e ↦ inr (offer e)
  | inr f ↦ inl (ground (arith, load-from_slice t templates))
]

pub each-templates :
    (templates : List Bytes) (t : Bytes) (P : Type 0)
    → (load Bytes-discrete t (from_slice Bytes-discrete templates) ≡ none) ⊎ P
    → elem Bytes-discrete t templates ≡ true
    → P
each-templates templates t P (inl n) e = absurd (ground (arith, load-from_slice t templates))
each-templates templates t P (inr p) e = p

module _ {Selector : Type 0} where
  abbrev pub AllUsable : List (Object Selector) → Type 0
  AllUsable claims = All (λ o. usable o ≡ true) claims

  -- The claim crosses out the name: it has the template, which is not empty where `named` says so.
  abbrev pub crosses : Bool → Bytes → Object Selector → Bool
  crosses named t o = not (named && is_empty t) && is_yes (Bytes-discrete (template_of o) t)

  -- Some claim of the list crosses out the name.
  abbrev pub offered : Bool → Bytes → List (Object Selector) → Bool
  offered named t [] = false
  offered named t (o ∷ claims) = crosses named t o || offered named t claims

  -- The claims that a pod is to get: all can be used, and every template has one.
  pub record Serves (named : Bool) (templates : List Bytes) (claims : List (Object Selector))
      : Type 0 where
    pub all_usable : AllUsable claims
    pub each_offered :
        (t : Bytes) → elem Bytes-discrete t templates ≡ true → offered named t claims ≡ true

  pub load-tick_off_named :
      (o : Object Selector) (t : Bytes) (names : Names)
      → is_some (load Bytes-discrete t (tick_off_named o names))
        ≡ (not (crosses true t o) && is_some (load Bytes-discrete t names))
  unfolding tick_off_named
  load-tick_off_named o [] names =
      ground (arith, load-delete Bytes-discrete [] (template_of o) names)
  load-tick_off_named o (c ∷ cs) names =
      ground (arith, load-delete Bytes-discrete (c ∷ cs) (template_of o) names)

  pub load-tick_off :
      (o : Object Selector) (t : Bytes) (names : Names)
      → is_some (load Bytes-discrete t (tick_off o names))
        ≡ (not (crosses false t o) && is_some (load Bytes-discrete t names))
  unfolding tick_off
  load-tick_off o t names = ground (arith, load-delete Bytes-discrete t (template_of o) names)

  module _ (off : Object Selector → Names → Names) (named : Bool)
      (load-off : (o : Object Selector) (t : Bytes) (names : Names)
        → is_some (load Bytes-discrete t (off o names))
          ≡ (not (crosses named t o) && is_some (load Bytes-discrete t names))) where
    pub check_claims-usable :
        (claims : List (Object Selector)) (names : Names)
        → (check_claims off claims names).0 ≡ true
        → AllUsable claims
    unfolding check_claims
    check_claims-usable [] names h = tt
    check_claims-usable (o ∷ claims) names h =
        ground (arith, check_claims-usable claims (off o names))

    pub usable-check_claims :
        (claims : List (Object Selector)) (names : Names)
        → AllUsable claims
        → (check_claims off claims names).0 ≡ true
    unfolding check_claims
    usable-check_claims [] names u = refl
    usable-check_claims (o ∷ claims) names u =
        ground (arith, usable-check_claims claims (off o names))

    pub check_claims-left :
        (claims : List (Object Selector)) (names : Names) (t : Bytes)
        → AllUsable claims
        → is_some (load Bytes-discrete t (check_claims off claims names).1)
          ≡ (not (offered named t claims) && is_some (load Bytes-discrete t names))
    unfolding check_claims
    check_claims-left [] names t u = refl
    check_claims-left (o ∷ claims) names t u =
        let inner = check_claims-left claims (off o names) t u.1 in
        ground (arith, inner, load-off o t names)

    -- A name that is not left any longer was not there before, or was offered.
    pub check_claims-crossed :
        (claims : List (Object Selector)) (names : Names) (t : Bytes)
        → load Bytes-discrete t (check_claims off claims names).1 ≡ none
        → (load Bytes-discrete t names ≡ none) ⊎ (offered named t claims ≡ true)
    unfolding check_claims
    check_claims-crossed [] names t h = inl h
    check_claims-crossed (o ∷ claims) names t h =
        ground (arith, check_claims-crossed claims (off o names) t, load-off o t names)

    pub check_claims-shrinks :
        (claims : List (Object Selector)) (names : Names) (t : Bytes)
        → load Bytes-discrete t names ≡ none
        → load Bytes-discrete t (check_claims off claims names).1 ≡ none
    unfolding check_claims
    check_claims-shrinks [] names t h = h
    check_claims-shrinks (o ∷ claims) names t h =
        ground (arith, check_claims-shrinks claims (off o names) t, load-off o t names)
