-- ===== src/Wgengine/Device.antt =====
-- tetraengine/wgengine/wgengine.go: the namespace and the device that the engine makes at its start.
-- The links of both namespaces are the record Links.
pub mod Restart
use tetrapod.Base.{
  ℕ, ◌≡◌, ◌≢◌, Bool, true, false, not, ◌||◌, List, [], ◌∷◌, Option, none, some, if◌then◌else◌,
}
use tetrapod.Base.Bytes.{Bytes}

-- LinkByName: a Wireguard link, a link of another type, a LinkNotFoundError, another error.
pub data Found : Type 0 where
  wireguard other not_found failed : Found

-- The main namespace, and the one of the engine.
pub data Place : Type 0 where
  main_ns wg_ns : Place

-- netlink's handles. none is an error, after which the links are as they were.
pub record Links : Type 1 where
  pub State : Type 0
  pub link_by_name : Place → Bytes → State → Found
  -- LinkDel in the main namespace; LinkAdd of a Wireguard there; LinkSetNsFd of it to the engine's.
  pub link_del : Bytes → State → Option State
  pub link_add : Bytes → State → Option State
  pub link_set_ns_fd : Bytes → State → Option State
  pub link_set_mtu : ℕ → Bytes → State → Option State
  pub link_set_up : Bytes → State → Option State
  pub link-link_del :
      (n : Bytes) (s s' : State)
      → link_del n s ≡ some s'
      → (link_by_name main_ns n s' ≡ not_found) × (link_by_name wg_ns n s' ≡ link_by_name wg_ns n s)
  pub link-link_add :
      (n : Bytes) (s s' : State)
      → link_add n s ≡ some s'
      → (link_by_name main_ns n s' ≡ wireguard) × (link_by_name wg_ns n s' ≡ link_by_name wg_ns n s)
  pub link-link_set_ns_fd :
      (n : Bytes) (s s' : State)
      → link_set_ns_fd n s ≡ some s'
      → (link_by_name main_ns n s' ≡ not_found)
        × (link_by_name wg_ns n s' ≡ link_by_name main_ns n s)
  pub link-link_set_mtu :
      (p : Place) (m : ℕ) (n : Bytes) (s s' : State)
      → link_set_mtu m n s ≡ some s'
      → link_by_name p n s' ≡ link_by_name p n s
  pub link-link_set_up :
      (p : Place) (n : Bytes) (s s' : State)
      → link_set_up n s ≡ some s'
      → link_by_name p n s' ≡ link_by_name p n s

abbrev or_same : {A : Type 0} → A → Option A → A
or_same s none = s
or_same s (some s') = s'

module _ (l : Links) where
  -- garbageCollect; the result of LinkDel is not looked at.
  unfoldable pub garbage_collect : Bytes → l.State → l.State
  garbage_collect n s = elim (l.link_by_name main_ns n s) [
    | wireguard ↦ or_same s (l.link_del n s)
    | other ↦ or_same s (l.link_del n s)
    | not_found ↦ s
    | failed ↦ s
  ]

  -- The case of initWireguard in which there is no device yet.
  unfoldable pub create_wireguard : Bytes → l.State → l.State × Bool
  create_wireguard n s = elim (l.link_add n s) [
    | none ↦ (s, false)
    | some s' ↦ elim (l.link_set_ns_fd n s') [ none ↦ (s', false) | some s'' ↦ (s'', true) ]
  ]

  -- initWireguard: the links then, and whether there was no error.
  unfoldable pub init_wireguard : Bytes → l.State → l.State × Bool
  unfolding garbage_collect create_wireguard
  init_wireguard n s =
      let cleared = garbage_collect n s in
      elim (l.link_by_name wg_ns n cleared) [
        | wireguard ↦ (cleared, true)
        | other ↦ (cleared, false)
        | not_found ↦ create_wireguard n cleared
        | failed ↦ (cleared, false)
      ]

  -- init after initWireguard. `enters` says whether the wgctrl client is made in the namespace.
  unfoldable pub bring_up : Bool → Bytes → l.State → l.State × Bool
  bring_up enters n s = elim (l.link_set_mtu 1280 n s) [
    | none ↦ (s, false)
    | some s' ↦ elim (l.link_set_up n s') [ none ↦ (s', false) | some s'' ↦ (s'', enters) ]
  ]

  unfoldable pub init_links : Bool → Bytes → l.State → l.State × Bool
  unfolding init_wireguard bring_up
  init_links enters n s =
      let made = init_wireguard n s in if made.1 then bring_up enters n made.0 else made

-- netns.GetFromName: the namespace, an error for which os.IsNotExist holds, or another error.
pub data Looked : Type 0 where
  missing broken : Looked
  there : ℕ → Looked

-- initNetns; `create` is nsutil.CreateNamespace.
unfoldable pub init_netns : Looked → Option ℕ → Option ℕ
init_netns missing create = create
init_netns broken create = none
init_netns (there ns) create = some ns

-- init, with the handle for the main namespace and the one for the engine's.
unfoldable pub init :
    (l : Links) → Bool → Looked → Option ℕ → (ℕ → Bool) → Bool → Bytes → l.State → l.State × Bool
unfolding init_netns init_links
init l main_handle looked create handle_at enters n s =
    if not main_handle then (s, false) else elim (init_netns looked create) [
      | none ↦ (s, false)
      | some ns ↦ if handle_at ns then init_links l enters n s else (s, false)
    ]
