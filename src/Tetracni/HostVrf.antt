-- ===== src/Tetracni/HostVrf.antt =====
-- tetracni/cmd/hostvrf: the links of the host's end are put under a VRF. netlink is the record Kernel.
use tetrapod.Base.{
  ℕ, ◌≡◌, ◌≢◌, refl, Bool, true, false, List, [], ◌∷◌, Option, none, some, if◌then◌else◌, ◌==◌,
  arith, Option-cases, Bool-cases, inl, inr,
}
use tetrapod.Base.Bytes.{Bytes}
use tetrapod.Tetrad.Labels.{is_empty}
use tetrapod.Tetracni.ExtraRoutes.{Interface}

pub record Link : Type 0 where
  pub index : ℕ
  pub master_index : ℕ
  pub is_vrf : Bool

pub record Kernel : Type 1 where
  pub State : Type 0
  -- LinkByName, LinkSetMaster of the links of two indices; none is an error.
  pub link_by_name : Bytes → State → Option Link
  pub link_set_master : ℕ → ℕ → State → Option State
  -- An index is not 0, and LinkSetMaster changes the master of that link only.
  pub index_positive :
      (name : Bytes) (s : State) (l : Link) → link_by_name name s ≡ some l → l.index ≢ 0
  pub link-link_set_master :
      (name : Bytes) (i m : ℕ) (s s' : State) (l : Link)
      → link_by_name name s ≡ some l
      → link_set_master i m s ≡ some s'
      → link_by_name name s'
        ≡ some (record l { master_index = if l.index == i then m else l.master_index })

module _ (k : Kernel) where
  -- The loop of cmdAdd: the links then, and whether there was no error.
  unfoldable pub set_masters : ℕ → List Interface → k.State → k.State × Bool
  set_masters vrf [] s = (s, true)
  set_masters vrf (i ∷ interfaces) s =
      if is_empty i.sandbox
      then elim (k.link_by_name i.name s) [
        | none ↦ (s, false)
        | some link ↦
            if link.master_index == 0
            then elim (k.link_set_master link.index vrf s) [
              | none ↦ (s, false)
              | some s' ↦ set_masters vrf interfaces s'
            ]
            else set_masters vrf interfaces s
      ]
      else set_masters vrf interfaces s

  -- cmdAdd, after the configuration is decoded.
  unfoldable pub cmd_add : Bytes → List Interface → k.State → k.State × Bool
  unfolding set_masters
  cmd_add vrf interfaces s = elim (k.link_by_name vrf s) [
    | none ↦ (s, false)
    | some link ↦ if link.is_vrf then set_masters link.index interfaces s else (s, false)
  ]

  unfoldable pub cmd_check : List Interface → k.State → Bool
  cmd_check [] s = true
  cmd_check (i ∷ interfaces) s =
      if is_empty i.sandbox
      then elim (k.link_by_name i.name s) [
        | none ↦ false
        | some link ↦ if link.master_index == 0 then false else cmd_check interfaces s
      ]
      else cmd_check interfaces s

  -- The link of the name is there, and has a master.
  abbrev pub has_master : Option Link → Bool
  has_master none = false
  has_master (some l) = if l.master_index == 0 then false else true

  link_set_master-keeps :
      (name : Bytes) (i m : ℕ) (s s' : k.State)
      → m ≢ 0
      → k.link_set_master i m s ≡ some s'
      → has_master (k.link_by_name name s) ≡ true
      → has_master (k.link_by_name name s') ≡ true
  link_set_master-keeps name i m s s' n e h = elim (Option-cases (k.link_by_name name s)) [
    | inl g ↦ absurd (ground arith)
    | inr (l, g) ↦ ground (arith, k.link-link_set_master name i m s s' l g e)
  ]

  set_masters-keeps :
      (vrf : ℕ) (name : Bytes) (interfaces : List Interface) (s : k.State)
      → vrf ≢ 0
      → has_master (k.link_by_name name s) ≡ true
      → has_master (k.link_by_name name (set_masters vrf interfaces s).0) ≡ true
  unfolding set_masters
  set_masters-keeps vrf name [] s n h = h
  set_masters-keeps vrf name (i ∷ interfaces) s n h =
      elim (Option-cases (k.link_by_name i.name s)) [
        | inl e ↦ ground (arith, set_masters-keeps vrf name interfaces s n h)
        | inr (l, e) ↦ elim (Option-cases (k.link_set_master l.index vrf s)) [
          | inl g ↦ ground (arith, set_masters-keeps vrf name interfaces s n h)
          | inr (s', g) ↦ ground (
            arith,
            set_masters-keeps vrf name interfaces s n h,
            set_masters-keeps vrf name interfaces s' n,
            link_set_master-keeps name l.index vrf s s' n g h,
          )
        ]
      ]

  cmd_check-cons :
      (i : Interface) (interfaces : List Interface) (s : k.State)
      → is_empty i.sandbox ≡ true
      → has_master (k.link_by_name i.name s) ≡ true
      → cmd_check (i ∷ interfaces) s ≡ cmd_check interfaces s
  unfolding cmd_check
  cmd_check-cons i interfaces s e h = elim (Option-cases (k.link_by_name i.name s)) [
    | inl g ↦ absurd (ground arith)
    | inr (l, g) ↦ ground arith
  ]

  cmd_check-set_masters :
      (vrf : ℕ) (interfaces : List Interface) (s : k.State)
      → vrf ≢ 0
      → (set_masters vrf interfaces s).1 ≡ true
      → cmd_check interfaces (set_masters vrf interfaces s).0 ≡ true
  unfolding set_masters cmd_check
  cmd_check-set_masters vrf [] s n h = refl
  cmd_check-set_masters vrf (i ∷ interfaces) s n h = elim (Bool-cases (is_empty i.sandbox)) [
    | inr e ↦ ground (arith, cmd_check-set_masters vrf interfaces s n)
    | inl e ↦ elim (Option-cases (k.link_by_name i.name s)) [
      | inl g ↦ absurd (ground arith)
      | inr (l, g) ↦ elim (Option-cases (k.link_set_master l.index vrf s)) [
        | inl f ↦ ground (
          arith,
          cmd_check-set_masters vrf interfaces s n,
          set_masters-keeps vrf i.name interfaces s n,
          cmd_check-cons i interfaces (set_masters vrf interfaces s).0 e,
        )
        | inr (s', f) ↦ ground (
          arith,
          cmd_check-set_masters vrf interfaces s n,
          cmd_check-set_masters vrf interfaces s' n,
          set_masters-keeps vrf i.name interfaces s n,
          set_masters-keeps vrf i.name interfaces s' n,
          cmd_check-cons i interfaces (set_masters vrf interfaces s).0 e,
          cmd_check-cons i interfaces (set_masters vrf interfaces s').0 e,
          k.link-link_set_master i.name l.index vrf s s' l g f,
        )
      ]
    ]
  ]

  -- When cmdAdd returns no error, then cmdCheck returns none for the same interfaces, on the links as cmdAdd
  -- left them: every link outside a sandbox has a master, also after the links behind it were changed.
  pub cmd_check-cmd_add_vrf :
      (vrf : Bytes) (interfaces : List Interface) (s : k.State)
      → (cmd_add vrf interfaces s).1 ≡ true
      → cmd_check interfaces (cmd_add vrf interfaces s).0 ≡ true
  unfolding cmd_add
  cmd_check-cmd_add_vrf vrf interfaces s h = elim (Option-cases (k.link_by_name vrf s)) [
    | inl e ↦ absurd (ground arith)
    | inr (l, e) ↦
        ground (arith, cmd_check-set_masters l.index interfaces s (k.index_positive vrf s l e))
  ]
