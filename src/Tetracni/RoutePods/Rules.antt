-- ===== src/Tetracni/RoutePods/Rules.antt =====
-- Rules are compared.
use tetrapod.Base.{
  ℕ, ◌≡◌, refl, ap, List, [], ◌∷◌, if◌then◌else◌, In, arith, inl, inr, ℕ_discrete, ◌==◌,
}
use tetrapod.Base.Bytes.{Bytes, Bytes-discrete}
use tetrapod.Tetracni.RoutePods.{Rule, jump_to, accept_in, accept_related_out, drop_out}

abbrev kind : Rule → ℕ
kind (jump_to n) = 0
kind (accept_in n) = 1
kind (accept_related_out n) = 2
kind (drop_out n) = 3

abbrev name_of : Rule → Bytes
name_of (jump_to n) = n
name_of (accept_in n) = n
name_of (accept_related_out n) = n
name_of (drop_out n) = n

abbrev build : ℕ → Bytes → Rule
build k n =
    if k == 0
    then jump_to n
    else (if k == 1 then accept_in n else (if k == 2 then accept_related_out n else drop_out n))

build-kind : (r : Rule) → build (kind r) (name_of r) ≡ r
build-kind (jump_to n) = refl
build-kind (accept_in n) = refl
build-kind (accept_related_out n) = refl
build-kind (drop_out n) = refl

pub Rule-discrete : Discrete Rule
Rule-discrete r q = elim (ℕ_discrete (kind r) (kind q)) [
  | no n ↦ no (λ e. n (ap kind e))
  | yes e ↦ elim (Bytes-discrete (name_of r) (name_of q)) [
    | no n ↦ no (λ e'. n (ap name_of e'))
    | yes e' ↦ yes (ground (arith, build-kind r, build-kind q))
  ]
]

pub In-dec : (r : Rule) (rs : List Rule) → Dec (In r rs)
In-dec r [] = no (λ h. h)
In-dec r (q ∷ rs) = elim (Rule-discrete q r) [
  | yes e ↦ yes (inl e)
  | no n ↦ elim (In-dec r rs) [
    | yes h ↦ yes (inr h)
    | no m ↦ no (λ h. elim h [ inl e ↦ n e | inr i ↦ m i ])
  ]
]

pub second_is_new : (name : Bytes) → In (accept_related_out name) (accept_in name ∷ []) → ⊥
second_is_new name (inl e) = cc
second_is_new name (inr i) = i

pub third_is_new :
    (name : Bytes) → In (drop_out name) (accept_in name ∷ accept_related_out name ∷ []) → ⊥
third_is_new name (inl e) = cc
third_is_new name (inr (inl e)) = cc
third_is_new name (inr (inr i)) = i
