-- ===== src/Tetrad/Api.antt =====
-- The control plane's API server as tetrad's controllers use it: CIDRClaims by name, the templates, and the
-- node's own PeerNode. What client-go and controller-runtime do is the record Api, with the laws that their
-- documentation gives; whether a call reaches the server is an argument of each controller.
use tetrapod.Base.{
  ℕ, ◌≡◌, ◌≢◌, refl, sym, Bool, true, false, List, Option, none, some, if◌then◌else◌,
}
use tetrapod.Base.Bytes.{Bytes}
use tetrapod.Controlplane.CidrClaim.{Claim}
use tetrapod.Tetrad.Labels.{Labels, selects}

-- A CIDRClaim with its labels and owner references.
pub record Object (Selector : Type 0) : Type 0 where
  pub labels : Labels
  pub owners : List Bytes
  pub claim : Claim Selector

-- CIDRClaimTemplate
pub record Template (Selector : Type 0) : Type 0 where
  pub selector : Selector
  pub size_bit : ℕ

-- What is left of an object when all of a label set are deleted.
abbrev pub kept : {Selector : Type 0} → Labels → Option (Object Selector) → Option (Object Selector)
kept l none = none
kept l (some o) = if selects l o.labels then none else some o

-- What is left does not have the labels, and was there.
pub kept-labels :
    {Selector : Type 0} (l : Labels) (was : Option (Object Selector)) (o : Object Selector)
    → kept l was ≡ some o
    → (selects l o.labels ≡ false) × (was ≡ some o)
kept-labels l none o h = absurd (cc)
kept-labels l (some p) o h = by_match (selects l p.labels) refl h
  where
    by_match :
        (b : Bool)
        → selects l p.labels ≡ b
        → (if b then none else some p) ≡ some o
        → (selects l o.labels ≡ false) × (some p ≡ some o)
    by_match true e g = absurd (cc)
    by_match false e g = let same : p ≡ o = cc in (rw (sym same) e, g)

pub record Api (Selector : Type 0) : Type 1 where
  pub Server : Type 0
  pub get : Bytes → Server → Option (Object Selector)
  pub template : Bytes → Server → Option (Template Selector)
  -- The name of the node's PeerNode, where there is one.
  pub self_node : Server → Option Bytes
  -- The object that CreateOrUpdate hands to its function: the one of the name, or one that has only the name.
  pub found : Bytes → Server → Object Selector
  -- CreateOrUpdate, with a function that may fail; none is an error.
  pub create_or_update :
      Bytes
      → (Object Selector → Option (Object Selector))
      → Server
      → Option (Object Selector × Server)
  -- SetOwnerReference
  pub own : Bytes → Object Selector → Option (Object Selector)
  -- DeleteAllOf, with SelectorFromSet.
  pub delete_all_of : Labels → Server → Server
  pub get-found : (n : Bytes) (s : Server) (o : Object Selector) → get n s ≡ some o → found n s ≡ o
  -- The server stores what the function made, but for the status and the generation, which are its own.
  pub upsert :
      (n : Bytes) (f : Object Selector → Option (Object Selector)) (s : Server)
      (m : Object Selector)
      → f (found n s) ≡ some m
      → (o : Object Selector) × (s' : Server) × (create_or_update n f s ≡ some (o, s'))
        × (o.labels ≡ m.labels)
        × (o.owners ≡ m.owners)
        × (o.claim.selector ≡ m.claim.selector)
        × (o.claim.size_bit ≡ m.claim.size_bit)
        × (get n s' ≡ some o)
        × ((k : Bytes) → k ≢ n → get k s' ≡ get k s)
        × ((t : Bytes) → template t s' ≡ template t s)
        × (self_node s' ≡ self_node s)
  -- Where the function changes nothing, nothing is written.
  pub upsert_same :
      (n : Bytes) (f : Object Selector → Option (Object Selector)) (s : Server)
      (o : Object Selector)
      → get n s ≡ some o
      → f o ≡ some o
      → create_or_update n f s ≡ some (o, s)
  pub own_keeps :
      (nd : Bytes) (o o' : Object Selector)
      → own nd o ≡ some o'
      → (o'.labels ≡ o.labels) × (o'.claim ≡ o.claim)
  -- An owner is not added again.
  pub own_again :
      (nd : Bytes) (o o' p : Object Selector)
      → own nd o ≡ some o'
      → p.owners ≡ o'.owners
      → own nd p ≡ some p
  pub get-delete_all_of :
      (l : Labels) (n : Bytes) (s : Server) → get n (delete_all_of l s) ≡ kept l (get n s)
