-- ===== src/Tetracni/ExtraRoutes/Checked.antt =====
-- What cmdCheck finds after cmdAdd.
use tetrapod.Base.{
  ℕ, ◌≡◌, refl, sym, subst, ◌∙◌, ap, Bool, true, false, List, [], ◌∷◌, Option, none, some, In, inl,
  inr, elem, arith, Option-cases, Bool-cases,
}
use tetrapod.Base.Bytes.{Bytes, Bytes-discrete}
use tetrapod.Pkg.Syncmap.{from_slice, contains}
use tetrapod.Pkg.Syncmap.Laws.{contains-from_slice}
use tetrapod.Tetrad.Api.{Object}
use tetrapod.Tetracni.ExtraRoutes.Lookup.{
  find_veth-same, vrf_table-same, prepared-parts, parts-prepared,
}
use tetrapod.Tetracni.ExtraRoutes.{
  Kernel, Interface, extra_routes, vrf_table, add_routes, check_routes, prepared, cmd_add,
  cmd_check,
}

elem-In : (a : Bytes) (xs : List Bytes) → elem Bytes-discrete a xs ≡ true → In a xs
elem-In a [] h = absurd (cc)
elem-In a (x ∷ xs) h = ground (arith, elem-In a xs)

In-elem : (a : Bytes) (xs : List Bytes) → In a xs → elem Bytes-discrete a xs ≡ true
In-elem a [] h = absurd h
In-elem a (x ∷ xs) (inl e) = ground arith
In-elem a (x ∷ xs) (inr h) = ground (arith, In-elem a xs h)

module _ (k : Kernel) (parse_cidr : Bytes → Option Bytes) where
  -- Every route that reads as a network stands in a list.
  abbrev AllListed : List Bytes → List Bytes → Type 0
  AllListed rs listed =
      (r : Bytes) → In r rs → (cidr : Bytes) × (parse_cidr r ≡ some cidr) × In cidr listed

  AllListed-check_routes :
      (rs listed : List Bytes) → AllListed rs listed → check_routes k parse_cidr listed rs ≡ true
  unfolding check_routes
  AllListed-check_routes [] listed all = refl
  AllListed-check_routes (r ∷ rs) listed all =
      let (cidr, e, i) = all r (inl refl) in
      ground (
        arith,
        In-elem cidr listed i,
        contains-from_slice Bytes-discrete cidr listed,
        AllListed-check_routes rs listed (λ u j. all u (inr j)),
      )

  -- The links and the old routes after the loop, which has all of the extra ones when it ends without error.
  pub record Added (before : k.State) (table : ℕ) (listed rs : List Bytes) (r : k.State × Bool)
      : Type 0 where
    pub same_links : (n : Bytes) → k.link_by_name n r.0 ≡ k.link_by_name n before
    pub now : List Bytes
    pub are_now : k.routes table r.0 ≡ some now
    pub kept_listed : (d : Bytes) → In d listed → In d now
    pub all_listed : r.1 ≡ true → AllListed rs now

  -- The loop stopped at a route.
  stopped :
      (s : k.State) (table : ℕ) (listed rs : List Bytes)
      → k.routes table s ≡ some listed
      → Added s table listed rs (s, false)
  stopped s table listed rs h = record {
    same_links = λ n. refl;
    now = listed;
    are_now = h;
    kept_listed = λ d i. i;
    all_listed = λ t. absurd (cc);
  }

  -- The loop went on after a route whose network is listed by now.
  went_on :
      (s s1 : k.State) (table : ℕ) (listed listed1 rs : List Bytes) (r cidr : Bytes)
      (end : k.State × Bool)
      → parse_cidr r ≡ some cidr
      → In cidr listed1
      → ((d : Bytes) → In d listed → In d listed1)
      → ((n : Bytes) → k.link_by_name n s1 ≡ k.link_by_name n s)
      → Added s1 table listed1 rs end
      → Added s table listed (r ∷ rs) end
  went_on s s1 table listed listed1 rs r cidr end e i more links a = record {
    same_links = λ n. a.same_links n ∙ links n;
    now = a.now;
    are_now = a.are_now;
    kept_listed = λ d j. a.kept_listed d (more d j);
    all_listed = λ t u j. at_end t u j;
  }
    where
      at_end : end.1 ≡ true → AllListed (r ∷ rs) a.now
      at_end t u (inl same) = (cidr, ap parse_cidr (sym same) ∙ e, a.kept_listed cidr i)
      at_end t u (inr j) = a.all_listed t u j

  add_routes-Added :
      (rs at_first listed : List Bytes) (index table : ℕ) (s : k.State)
      → k.routes table s ≡ some listed
      → ((d : Bytes) → In d at_first → In d listed)
      → Added s table listed rs (add_routes k parse_cidr at_first index table rs s)
  unfolding add_routes
  add_routes-Added [] at_first listed index table s h sub = record {
    same_links = λ n. refl;
    now = listed;
    are_now = h;
    kept_listed = λ d i. i;
    all_listed = λ t r i. absurd i;
  }
  add_routes-Added (r ∷ rs) at_first listed index table s h sub =
      elim (Option-cases (parse_cidr r)) [
        | inl e ↦
            let ends : (s, false) ≡ add_routes k parse_cidr at_first index table (r ∷ rs) s =
              ground arith in
            subst (Added s table listed (r ∷ rs)) ends (stopped s table listed (r ∷ rs) h)
        | inr (cidr, e) ↦
            elim (Bool-cases (contains Bytes-discrete cidr (from_slice Bytes-discrete at_first))) [
              | inl there ↦
                  let goes : add_routes k parse_cidr at_first index table rs s
                      ≡ add_routes k parse_cidr at_first index table (r ∷ rs) s =
                    ground arith in
                  let i =
                    elem-In cidr at_first
                      (sym (contains-from_slice Bytes-discrete cidr at_first) ∙ there) in
                  subst (Added s table listed (r ∷ rs)) goes (
                    went_on s s table listed listed rs r cidr
                      (add_routes k parse_cidr at_first index table rs s) e (sub cidr i) (λ d j. j)
                      (λ n. refl) (add_routes-Added rs at_first listed index table s h sub))
              | inr absent ↦ elim (Option-cases (k.route_add cidr index table s)) [
                | inl f ↦
                    let ends : (s, false)
                        ≡ add_routes k parse_cidr at_first index table (r ∷ rs) s =
                      ground arith in
                    subst (Added s table listed (r ∷ rs)) ends (stopped s table listed (r ∷ rs) h)
                | inr (s1, f) ↦
                    let goes : add_routes k parse_cidr at_first index table rs s1
                        ≡ add_routes k parse_cidr at_first index table (r ∷ rs) s =
                      ground arith in
                    let (listed1, h1, i, more) =
                      k.routes-route_add cidr index table s s1 listed f h in
                    subst (Added s table listed (r ∷ rs)) goes (
                      went_on s s1 table listed listed1 rs r cidr
                        (add_routes k parse_cidr at_first index table rs s1) e i more
                        (λ n. k.link-route_add cidr index table s s1 n f)
                        (add_routes-Added rs at_first listed1 index table s1 h1
                          (λ d j. more d (sub d j))))
              ]
            ]
      ]

  -- The loop after what it looked up: the same lookup then finds the routes of the end.
  prepared_again :
      (name : Bytes) (interfaces : List Interface) (s : k.State) (index table : ℕ)
      (listed rs : List Bytes) (r : k.State × Bool) (a : Added s table listed rs r)
      → prepared k name interfaces s ≡ some (index, table, listed)
      → prepared k name interfaces r.0 ≡ some (index, table, a.now)
  prepared_again name interfaces s index table listed rs r a h =
      let (v, t, m) = prepared-parts k name interfaces s index table listed h in
      parts-prepared k name interfaces r.0 index table a.now
        (find_veth-same k interfaces none s r.0 a.same_links ∙ v)
        (vrf_table-same k name s r.0 a.same_links ∙ t) a.are_now

  -- After a cmdAdd that reports no error, cmdCheck with the same configuration, interfaces and claims
  -- succeeds; and whether or not it reports one, no route that the table had is gone.
  pub cmd_check-cmd_add :
      {Selector : Type 0} (vrf_name : Bytes) (interfaces : List Interface)
      (claims : Option (List (Object Selector))) (s : k.State)
      → let r = cmd_add k parse_cidr vrf_name interfaces claims s in
        (r.1 ≡ true → cmd_check k parse_cidr vrf_name interfaces claims r.0 ≡ true)
        × ((table : ℕ) (listed : List Bytes)
            → vrf_table k vrf_name s ≡ some table
            → k.routes table s ≡ some listed
            → (now : List Bytes) × (k.routes table r.0 ≡ some now)
              × ((d : Bytes) → In d listed → In d now))
  unfolding cmd_add cmd_check
  cmd_check-cmd_add vrf_name interfaces none s =
      (λ t. absurd (cc), λ table listed e h. (listed, h, λ d i. i))
  cmd_check-cmd_add vrf_name interfaces (some claims) s =
      elim (Option-cases (prepared k vrf_name interfaces s)) [
        | inl e ↦
            let ends : (s, false) ≡ cmd_add k parse_cidr vrf_name interfaces (some claims) s =
              rw (e, cmd_add) refl in
            subst Holds ends (λ t. absurd (cc), λ table listed v h. (listed, h, λ d i. i))
        | inr ((index, table, listed), e) ↦
            let rs = extra_routes claims in
            let r = add_routes k parse_cidr listed index table rs s in
            let goes : r ≡ cmd_add k parse_cidr vrf_name interfaces (some claims) s =
              rw (e, cmd_add) refl in
            let (v, t, m) = prepared-parts k vrf_name interfaces s index table listed e in
            let a = add_routes-Added rs listed listed index table s m (λ d i. i) in
            let again = prepared_again vrf_name interfaces s index table listed rs r a e in
            subst Holds goes (
              λ ok. rw (again, cmd_check) (AllListed-check_routes rs a.now (a.all_listed ok)),
              λ other_table other_listed v' h.
                  let same : other_table ≡ table = ground arith in
                  let here : k.routes other_table r.0 ≡ some a.now = rw same a.are_now in
                  let lists : other_listed ≡ listed = ground arith in
                  (a.now, here, rw lists a.kept_listed),
            )
      ]
    where
      Holds : k.State × Bool → Type 0
      Holds r =
          (r.1 ≡ true → cmd_check k parse_cidr vrf_name interfaces (some claims) r.0 ≡ true)
          × ((table : ℕ) (listed : List Bytes)
              → vrf_table k vrf_name s ≡ some table
              → k.routes table s ≡ some listed
              → (now : List Bytes) × (k.routes table r.0 ≡ some now)
                × ((d : Bytes) → In d listed → In d now))
