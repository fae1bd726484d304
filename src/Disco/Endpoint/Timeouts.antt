-- ===== src/Disco/Endpoint/Timeouts.antt =====
-- The timeouts of an endpoint's packets (newDiscoPeerEndpoint in disco/discoPeerEndpoint.go, AddPacket in
-- disco/pktmgr/pktmgr.go).
use tetrapod.Base.{
  ℕ, ◌+◌, ◌*◌, ◌≡◌, refl, ◌∙◌, Bool, false, ◌&&◌, ◌||◌, List, [], ◌∷◌, none, some, leb,
  if◌then◌else◌, is_yes, ℕ_discrete, arith, Bool-cases, inl, inr,
}
use tetrapod.Pkg.Syncmap.{load, delete}
use tetrapod.Pkg.Syncmap.Laws.{load-delete, Distinct, delete-Distinct}
use tetrapod.Disco.Pktmgr.{Manager, expire}
use tetrapod.Disco.Ticker.{millisecond}
use tetrapod.Disco.Endpoint.{Endpoint, packet_timeout, drop_callback}

-- The timeout that the packet manager is made with.
abbrev pub timeout : ℕ
timeout = 400 * millisecond

-- The goroutines of AddPacket, for packets with their times of sending: those run whose timeout is over.
unfoldable pub time_out_due : ℕ → List (ℕ × ℕ) → Endpoint → Endpoint
unfolding packet_timeout
time_out_due now [] pe = pe
time_out_due now ((id, sent) ∷ waiting) pe =
    time_out_due now waiting (if leb (sent + timeout) now then packet_timeout id pe else pe)

-- The endpoint once every timeout that is over by `now` has run.
unfoldable pub elapse : ℕ → Endpoint → Endpoint
unfolding time_out_due
elapse now pe = time_out_due now pe.packet_manager pe

packet_timeout-delete :
    (id : ℕ) (pe : Endpoint)
    → (packet_timeout id pe).packet_manager ≡ delete ℕ_discrete id pe.packet_manager
unfolding packet_timeout expire drop_callback
packet_timeout-delete id pe = ground arith

-- Some entry of the packet is due.
is_due : ℕ → ℕ → List (ℕ × ℕ) → Bool
is_due now k [] = false
is_due now k ((id, sent) ∷ es) =
    (is_yes (ℕ_discrete id k) && leb (sent + timeout) now) || is_due now k es

load-is_due : (now k : ℕ) (m : Manager) → load ℕ_discrete k m ≡ none → is_due now k m ≡ false
unfolding load is_due
load-is_due now k [] h = refl
load-is_due now k ((id, sent) ∷ m) h = ground (arith, load-is_due now k m)

waiting_not_due :
    (now k t : ℕ) (m : Manager)
    → Distinct ℕ_discrete m
    → load ℕ_discrete k m ≡ some t
    → leb (t + timeout) now ≡ false
    → is_due now k m ≡ false
unfolding load is_due
waiting_not_due now k t [] d h early = absurd (cc)
waiting_not_due now k t ((id, sent) ∷ m) d h early =
    ground (arith, waiting_not_due now k t m d.1, load-is_due now k m)

time_out_due-load :
    (now k : ℕ) (es : List (ℕ × ℕ)) (pe : Endpoint)
    → is_due now k es ≡ false
    → load ℕ_discrete k (time_out_due now es pe).packet_manager
      ≡ load ℕ_discrete k pe.packet_manager
unfolding time_out_due is_due
time_out_due-load now k [] pe h = refl
time_out_due-load now k ((id, sent) ∷ es) pe h = ground (
  arith,
  time_out_due-load now k es (if leb (sent + timeout) now then packet_timeout id pe else pe),
  packet_timeout-delete id pe,
  load-delete ℕ_discrete k id pe.packet_manager,
)

time_out_due-Distinct :
    (now : ℕ) (es : List (ℕ × ℕ)) (pe : Endpoint)
    → Distinct ℕ_discrete pe.packet_manager
    → Distinct ℕ_discrete (time_out_due now es pe).packet_manager
unfolding time_out_due
time_out_due-Distinct now [] pe d = d
time_out_due-Distinct now ((id, sent) ∷ es) pe d =
    time_out_due-Distinct now es _ (elim (Bool-cases (leb (sent + timeout) now)) [
      | inl due ↦
          rw (due, packet_timeout-delete id pe) (delete-Distinct ℕ_discrete id pe.packet_manager d)
      | inr early ↦ rw early d
    ])

-- A packet whose timeout is not over still waits.
pub elapse-waiting :
    (now k t : ℕ) (pe : Endpoint)
    → Distinct ℕ_discrete pe.packet_manager
    → load ℕ_discrete k pe.packet_manager ≡ some t
    → leb (t + timeout) now ≡ false
    → (load ℕ_discrete k (elapse now pe).packet_manager ≡ some t)
      × Distinct ℕ_discrete (elapse now pe).packet_manager
unfolding elapse
elapse-waiting now k t pe d w early = (
  time_out_due-load now k pe.packet_manager pe (waiting_not_due now k t pe.packet_manager d w early)
      ∙ w,
  time_out_due-Distinct now pe.packet_manager pe d,
)
