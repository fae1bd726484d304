-- ===== src/Tetraengine/Publish/Reached.antt =====
-- What one node publishes, and where another node looks for it.
use tetrapod.Base.{
  ◌≡◌, refl, ◌^◌, Bool, true, not, ◌&&◌, ◌||◌, List, [], ◌∷◌, none, some, elem, ltb, arith,
  if◌then◌else◌,
}
use tetrapod.Base.Bytes.{Bytes, Bytes-discrete}
use tetrapod.Base.Netip.{Addr, AddrPort, Addr-discrete, invalid, ip4, ip6, is_valid}
use tetrapod.Pkg.Syncmap.Laws.{contains-from_slice}
use tetrapod.Tetraengine.{Texts, targets_of}
use tetrapod.Tetraengine.Publish.{Printed, published}

-- A value that AddrPort can hold: its numbers fit their machine words.
abbrev pub is_representable : AddrPort → Bool
is_representable e =
    ltb e.port (2 ^ 16)
    && elim e.addr [ invalid ↦ true | ip4 n ↦ ltb n (2 ^ 32) | ip6 n ↦ ltb n (2 ^ 128) ]

abbrev pub all_representable : List AddrPort → Bool
all_representable [] = true
all_representable (e ∷ eps) = is_representable e && all_representable eps

-- The valid endpoints that are neither at one of the publisher's own addresses nor behind the NAT of the reader.
abbrev pub reachable : Printed → List Bytes → List Addr → List AddrPort → List AddrPort
reachable printed own global [] = []
reachable printed own global (e ∷ eps) =
    if is_valid e.addr
      && not (elem Bytes-discrete (printed.addr e.addr) own || elem Addr-discrete e.addr global)
    then e ∷ reachable printed own global eps
    else reachable printed own global eps

-- Where the text of a valid AddrPort is read back, and that of an invalid one is refused, the endpoints that
-- another node looks for are exactly the valid ones of those that were collected, in their order, but for
-- those at the publisher's own addresses and those that share an address with the reader's NAT.
pub targets_of-published :
    (texts : Texts) (printed : Printed)
    → ((e : AddrPort)
        → is_representable e ≡ true
        → texts.parse_addr_port (printed.addr_port e) ≡ (if is_valid e.addr then some e else none))
    → (own : List Bytes) (global : List Addr) (eps : List AddrPort) → all_representable eps ≡ true
    → targets_of texts global (published printed own eps) ≡ reachable printed own global eps
unfolding targets_of published
targets_of-published texts printed read own global [] h = refl
targets_of-published texts printed read own global (e ∷ eps) h = ground (
  arith,
  targets_of-published texts printed read own global eps,
  contains-from_slice Bytes-discrete (printed.addr e.addr) own,
  contains-from_slice Addr-discrete e.addr global,
  read e,
)
