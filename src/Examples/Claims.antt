-- ===== src/Examples/Claims.antt =====
-- Claims of addresses, over a toy address family of two addresses.
use tetrapod.Base.{
  ℕ, zero, suc, ◌≤◌, ◌≡◌, refl, Bool, true, false, not, ◌&&◌, List, [], ◌∷◌, Option, none, some,
  arith, inl,
}
use tetrapod.Base.Bytes.{Bytes}
use tetrapod.Controlplane.Ipaddrutil.{IpLib, any_covers, free_blocks, free_blocks-covers}
use tetrapod.Controlplane.CidrClaim.{
  Claim, CidrBlock, Status, State, ready, unknown, no_message, allocate, bind,
}
use tetrapod.Controlplane.CidrClaim.Overlap.{bind_no_overlap}

-- Both addresses, or one of them.
data Toy : Type 0 where
  whole : Toy
  half : Bool → Toy

abbrev toy_covers : Toy → Bool → Bool
toy_covers whole a = true
toy_covers (half false) a = not a
toy_covers (half true) a = a

abbrev toy_parse : Bytes → Option Toy
toy_parse (zero ∷ []) = some whole
toy_parse (suc zero ∷ []) = some (half false)
toy_parse (suc (suc zero) ∷ []) = some (half true)
toy_parse _ = none

abbrev toy_string : Toy → Bytes
toy_string whole = 0 ∷ []
toy_string (half false) = 1 ∷ []
toy_string (half true) = 2 ∷ []

abbrev toy_prefix : Toy → ℕ
toy_prefix whole = 0
toy_prefix (half b) = 1

abbrev toy_subtract : Toy → Toy → List Toy
toy_subtract b whole = []
toy_subtract whole (half c) = half (not c) ∷ []
toy_subtract (half true) (half true) = []
toy_subtract (half false) (half false) = []
toy_subtract (half true) (half false) = half true ∷ []
toy_subtract (half false) (half true) = half false ∷ []

abbrev toy_first : Toy → ℕ → Option Toy
toy_first whole zero = some whole
toy_first whole (suc zero) = some (half false)
toy_first (half b) (suc zero) = some (half b)
toy_first _ _ = none

toy_parse_string : (b : Toy) → toy_parse (toy_string b) ≡ some b
toy_parse_string whole = refl
toy_parse_string (half true) = refl
toy_parse_string (half false) = refl

toy_subtract_covers :
    (b u : Toy) (a : Bool)
    → any_covers toy_covers (toy_subtract b u) a ≡ (toy_covers b a && not (toy_covers u a))
toy_subtract_covers whole whole a = ground arith
toy_subtract_covers (half true) whole a = ground arith
toy_subtract_covers (half false) whole a = ground arith
toy_subtract_covers whole (half true) a = ground arith
toy_subtract_covers whole (half false) a = ground arith
toy_subtract_covers (half true) (half true) a = ground arith
toy_subtract_covers (half true) (half false) a = ground arith
toy_subtract_covers (half false) (half true) a = ground arith
toy_subtract_covers (half false) (half false) a = ground arith

toy_sub_block_covers :
    (b s : Toy) (n : ℕ) (a : Bool)
    → toy_first b n ≡ some s
    → toy_covers s a ≡ true
    → toy_covers b a ≡ true
toy_sub_block_covers whole s n a h c = refl
toy_sub_block_covers (half b) s zero a h c = absurd (cc)
toy_sub_block_covers (half b) s (suc zero) a h c = ground arith
toy_sub_block_covers (half b) s (suc (suc n)) a h c = absurd (cc)

abbrev one : ℕ
one = 1

toy_sub_block_prefix :
    (b s : Toy) (n : ℕ)
    → toy_first b n ≡ some s
    → toy_prefix b ≤ n
    → (toy_prefix s ≡ n) × (one ≡ one)
toy_sub_block_prefix whole s zero h l = (ground arith, refl)
toy_sub_block_prefix whole s (suc zero) h l = (ground arith, refl)
toy_sub_block_prefix whole s (suc (suc n)) h l = absurd (cc)
toy_sub_block_prefix (half b) s zero h l = absurd (cc)
toy_sub_block_prefix (half b) s (suc zero) h l = (ground arith, refl)
toy_sub_block_prefix (half b) s (suc (suc n)) h l = absurd (cc)

toy_prefix_bound : (b : Toy) → toy_prefix b ≤ 1
toy_prefix_bound whole = omega arith
toy_prefix_bound (half b) = omega arith

toy_span_covers : (b : Toy) (a : Bool) → any_covers toy_covers (b ∷ []) a ≡ toy_covers b a
toy_span_covers b a = ground arith

abbrev toy_ip : IpLib
toy_ip = record {
  Block = Toy;
  Address = Bool;
  covers = toy_covers;
  parse = toy_parse;
  string = toy_string;
  parse_string = toy_parse_string;
  bit_count = λ b. 1;
  prefix_len = toy_prefix;
  prefix_bound = toy_prefix_bound;
  subtract = toy_subtract;
  span = λ b. b ∷ [];
  merge = λ b bs. b ∷ bs;
  subtract_covers = toy_subtract_covers;
  span_covers = toy_span_covers;
  merge_covers = λ b bs a. refl;
  first_sub_block = toy_first;
  sub_block_covers = toy_sub_block_covers;
  sub_block_prefix = toy_sub_block_prefix;
  network_address = λ b. some (half false);
}

free_blocks-covers_example :
    any_covers toy_covers (free_blocks toy_ip whole (half false ∷ [])) true
    ≡ (true && not (any_covers toy_covers (half false ∷ []) true))
free_blocks-covers_example = free_blocks-covers toy_ip whole (half false ∷ []) true

abbrev status : State → Bytes → Bytes → Status
status s block cidr = record {
  observed_generation = 0;
  state = s;
  message = no_message;
  cidr_block_name = block;
  cidr = cidr;
  size_bit = 0;
}

abbrev claim : ℕ → Status → Claim Unit
claim n s = record { name = n ∷ []; generation = 1; selector = tt; size_bit = 0; status = s }

abbrev blocks : List (CidrBlock Unit)
blocks = record { name = 66 ∷ []; labels = tt; cidr = 0 ∷ [] } ∷ []

abbrev newcomer : Claim Unit
newcomer = claim 1 (status unknown [] [])

abbrev holder : Claim Unit
holder = claim 2 (status ready (66 ∷ []) (1 ∷ []))

allocate_second : allocate toy_ip 0 blocks (holder ∷ []) ≡ some (66 ∷ [], 2 ∷ [])
unfolding allocate
allocate_second = refl

bind_no_overlap_example : toy_covers (half false) true ≡ false
unfolding bind
bind_no_overlap_example =
    bind_no_overlap toy_ip newcomer blocks (newcomer ∷ holder ∷ []) holder (half true) (half false)
      true refl (λ e. cc) (inl refl) refl refl refl refl
