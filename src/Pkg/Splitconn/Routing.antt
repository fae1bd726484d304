-- ===== src/Pkg/Splitconn/Routing.antt =====
-- Where the datagrams go.
use tetrapod.Base.{
  ℕ, zero, suc, ◌≤◌, ◌≡◌, refl, ap, sym, ◌∙◌, Bool, false, List, [], ◌∷◌, ◌++◌, none, some, ltb,
  if◌then◌else◌, length, take, arith, append_assoc, append-nil, length-append, take_all,
  take-append, Bool-cases, List-cases, inl, inr, All,
}
use tetrapod.Pkg.Splitconn.{Packet, Conn, queue_cap, offer, dispatch, receive, read_from}

-- The child at the index is the first whose filter takes the packet.
unfoldable pub goes_to : ℕ → List Conn → Packet → Bool
goes_to i [] pkt = false
goes_to zero (c ∷ cs) pkt = c.filter pkt
goes_to (suc i) (c ∷ cs) pkt = if c.filter pkt then false else goes_to i cs pkt

abbrev pub queue_of : ℕ → List Conn → List Packet
queue_of i [] = []
queue_of zero (c ∷ cs) = c.queue
queue_of (suc i) (c ∷ cs) = queue_of i cs

-- The packets of a list that go to a child.
unfoldable pub routed : ℕ → List Conn → List Packet → List Packet
unfolding goes_to
routed i cs [] = []
routed i cs (d ∷ ds) = if goes_to i cs d then d ∷ routed i cs ds else routed i cs ds

-- All datagrams dispatched, none received in between.
unfoldable pub dispatch_all : List Packet → List Conn → List Conn
unfolding dispatch
dispatch_all [] cs = cs
dispatch_all (d ∷ ds) cs = dispatch_all ds (dispatch d cs)

-- No queue holds more than its capacity.
abbrev pub Fits : List Conn → Type 0
Fits = All (λ c. length c.queue ≤ queue_cap)

queue_of-dispatch :
    (i : ℕ) (d : Packet) (cs : List Conn)
    → queue_of i (dispatch d cs) ≡ (
        if goes_to i cs d
        then (if ltb (length (queue_of i cs)) queue_cap
            then queue_of i cs ++ d ∷ []
            else queue_of i cs)
        else queue_of i cs)
unfolding dispatch goes_to offer
queue_of-dispatch i d [] = ground arith
queue_of-dispatch zero d (c ∷ cs) = ground arith
queue_of-dispatch (suc i) d (c ∷ cs) = ground (arith, queue_of-dispatch i d cs)

goes_to-dispatch :
    (i : ℕ) (d e : Packet) (cs : List Conn) → goes_to i (dispatch d cs) e ≡ goes_to i cs e
unfolding dispatch goes_to offer
goes_to-dispatch i d e [] = refl
goes_to-dispatch zero d e (c ∷ cs) = ground arith
goes_to-dispatch (suc i) d e (c ∷ cs) = ground (arith, goes_to-dispatch i d e cs)

dispatch-Fits : (d : Packet) (cs : List Conn) → Fits cs → Fits (dispatch d cs)
unfolding dispatch offer
dispatch-Fits d [] f = f
dispatch-Fits d (c ∷ cs) f = ground (arith, dispatch-Fits d cs f.1, length-append c.queue (d ∷ []))

routed-dispatch :
    (i : ℕ) (d : Packet) (ds : List Packet) (cs : List Conn)
    → routed i (dispatch d cs) ds ≡ routed i cs ds
unfolding routed
routed-dispatch i d [] cs = refl
routed-dispatch i d (e ∷ ds) cs =
    ground (arith, goes_to-dispatch i d e cs, routed-dispatch i d ds cs)

take_queue :
    (d : Packet) (q r : List Packet)
    → length q ≤ queue_cap
    → take queue_cap ((if ltb (length q) queue_cap then q ++ d ∷ [] else q) ++ r)
      ≡ take queue_cap (q ++ (d ∷ r))
take_queue d q r h = elim (Bool-cases (ltb (length q) queue_cap)) [
  | inl room ↦ rw room (ap (take queue_cap) (append_assoc q (d ∷ []) r))
  | inr full ↦
      let n : length q ≡ queue_cap = ground arith in
      rw full (take-append queue_cap q r n ∙ sym (take-append queue_cap q (d ∷ r) n))
]

queue_of-le : (i : ℕ) (cs : List Conn) → Fits cs → length (queue_of i cs) ≤ queue_cap
queue_of-le i [] f = omega arith
queue_of-le zero (c ∷ cs) f = f.0
queue_of-le (suc i) (c ∷ cs) f = queue_of-le i cs f.1

-- When no queue is over its capacity and nobody reads: every child ends with the first five of the packets
-- that it had and of the datagrams whose first taker it is, in their order; and no queue is over its
-- capacity.
pub queue_of-dispatch_all :
    (i : ℕ) (ds : List Packet) (cs : List Conn)
    → Fits cs
    → (queue_of i (dispatch_all ds cs) ≡ take queue_cap (queue_of i cs ++ routed i cs ds))
      × Fits (dispatch_all ds cs)
unfolding dispatch_all routed
queue_of-dispatch_all i [] cs f = (
  sym (rw (append-nil (queue_of i cs)) (take_all queue_cap (queue_of i cs) (queue_of-le i cs f))),
  f,
)
queue_of-dispatch_all i (d ∷ ds) cs f =
    let (q, f') = queue_of-dispatch_all i ds (dispatch d cs) (dispatch-Fits d cs f) in
    (
      ground (
        arith,
        q,
        queue_of-dispatch i d cs,
        routed-dispatch i d ds cs,
        take_queue d (queue_of i cs) (routed i cs ds) (queue_of-le i cs f),
      ),
      f',
    )

-- The packets that a child is still to receive.
abbrev pub pending : ℕ → List Conn → List Packet → List Packet
pending i cs ds = queue_of i cs ++ routed i cs ds

receive_empty : (i : ℕ) (cs : List Conn) → queue_of i cs ≡ [] → receive i cs ≡ none
unfolding receive
receive_empty i [] h = refl
receive_empty zero (c ∷ cs) h = ground arith
receive_empty (suc i) (c ∷ cs) h = ground (arith, receive_empty i cs h)

receive_next :
    (i : ℕ) (cs : List Conn) (d : Packet) (q : List Packet)
    → queue_of i cs ≡ d ∷ q
    → (cs' : List Conn) × (receive i cs ≡ some (d, cs'))
      × (queue_of i cs' ≡ q)
      × ((e : Packet) → goes_to i cs' e ≡ goes_to i cs e)
unfolding receive goes_to
receive_next i [] d q h = absurd (cc)
receive_next zero (c ∷ cs) d q h = (record c { queue = q } ∷ cs, ground arith, refl, λ e. refl)
receive_next (suc i) (c ∷ cs) d q h =
    let (cs', r, q', g) = receive_next i cs d q h in
    (c ∷ cs', ground arith, q', λ e. ground (arith, g e))

routed_same :
    (i : ℕ) (cs cs' : List Conn) (ds : List Packet)
    → ((e : Packet) → goes_to i cs' e ≡ goes_to i cs e)
    → routed i cs' ds ≡ routed i cs ds
unfolding routed
routed_same i cs cs' [] g = refl
routed_same i cs cs' (d ∷ ds) g = ground (arith, g d, routed_same i cs cs' ds g)

-- A waiting packet is handed over at once.
read_from_queued :
    (i size : ℕ) (ds : List Packet) (cs : List Conn) (d : Packet) (q rest : List Packet)
    → queue_of i cs ≡ d ∷ q
    → q ++ routed i cs ds ≡ rest
    → (cs' : List Conn) × (ds' : List Packet) × (read_from i size ds cs
        ≡ some (take size d.b, d.addr, cs', ds'))
      × (pending i cs' ds' ≡ rest)
unfolding read_from
read_from_queued i size [] cs d q rest h p =
    let (cs', r, q', g) = receive_next i cs d q h in
    (cs', [], ground arith, ground (arith, routed_same i cs cs' [] g))
read_from_queued i size (e ∷ ds) cs d q rest h p =
    let (cs', r, q', g) = receive_next i cs d q h in
    (cs', e ∷ ds, ground arith, ground (arith, routed_same i cs cs' (e ∷ ds) g))

-- While datagrams arrive that a child takes first, ReadFrom of the child returns: it hands over the oldest
-- packet that is pending for the child, queued or still to arrive, cut to the size of the buffer, and
-- leaves the others pending in their order.
pub read_from_next :
    (i size : ℕ) (ds : List Packet) (cs : List Conn) (d : Packet) (rest : List Packet)
    → pending i cs ds ≡ d ∷ rest
    → (cs' : List Conn) × (ds' : List Packet) × (read_from i size ds cs
        ≡ some (take size d.b, d.addr, cs', ds'))
      × (pending i cs' ds' ≡ rest)
unfolding read_from routed
read_from_next i size [] cs d rest p = elim (List-cases (queue_of i cs)) [
  | inl e ↦ absurd (ground arith)
  | inr (d', q, e) ↦ read_from_queued i size [] cs d q rest (ground arith) (ground arith)
]
read_from_next i size (n ∷ ds) cs d rest p = elim (List-cases (queue_of i cs)) [
  | inl e ↦
      let (cs', ds', r, p') =
        read_from_next i size ds (dispatch n cs) d rest
          (ground (arith, queue_of-dispatch i n cs, routed-dispatch i n ds cs)) in
      (cs', ds', ground (arith, receive_empty i cs e), p')
  | inr (d', q, e) ↦ read_from_queued i size (n ∷ ds) cs d q rest (ground arith) (ground arith)
]
