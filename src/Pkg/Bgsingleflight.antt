-- ===== src/Pkg/Bgsingleflight.antt =====
-- pkg/bgsingleflight/bgsingleflight.go: functions that run in the background, one for a key at a time.
-- The log keeps the keys whose function was started and whose exit was notified.
use tetrapod.Base.{ℕ, ◌+◌, ◌≡◌, refl, List, [], ◌∷◌, none, some, is_some, if◌then◌else◌, arith, ite}
use tetrapod.Base.Bytes.{Bytes, Bytes-discrete}
use tetrapod.Pkg.Syncmap.{Map, load, delete, load_or_store}
use tetrapod.Pkg.Syncmap.Laws.{load-store, load-delete}

pub record Group : Type 0 where
  pub set : Map Bytes Unit
  pub started : List Bytes
  pub exited : List Bytes

-- Run is called, or a started function returns.
pub data Move : Type 0 where
  run_called : Bytes → Move
  returned : Bytes → Move

-- Run, up to the start of the goroutine.
unfoldable pub run : Bytes → Group → Group
unfolding load_or_store Bytes-discrete
run key g =
    let (value, loaded, m) = load_or_store Bytes-discrete key tt g.set in
    if loaded then g else record g { set = m; started = key ∷ g.started }

-- The deferred function of the goroutine. Only a running function returns.
unfoldable pub exit : Bytes → Group → Group
unfolding load delete Bytes-discrete
exit key g = elim (load Bytes-discrete key g.set) [
  | none ↦ g
  | some _ ↦ record g { set = delete Bytes-discrete key g.set; exited = key ∷ g.exited }
]

unfoldable pub moves : List Move → Group → Group
unfolding run exit
moves [] g = g
moves (run_called k ∷ ms) g = moves ms (run k g)
moves (returned k ∷ ms) g = moves ms (exit k g)

unfoldable pub times : Bytes → List Bytes → ℕ
unfolding Bytes-discrete
times k [] = 0
times k (j ∷ js) = ite (Bytes-discrete j k) (1 + times k js) (times k js)

-- One more start than exits while the key is in the set, and as many otherwise.
abbrev pub Balanced : Bytes → Group → Type 0
Balanced k g =
    times k g.started ≡ times k g.exited + (if is_some (load Bytes-discrete k g.set) then 1 else 0)

pub run-Balanced : (k j : Bytes) (g : Group) → Balanced k g → Balanced k (run j g)
unfolding run load_or_store times
run-Balanced k j g h = ground (arith, load-store Bytes-discrete k j tt g.set)

pub exit-Balanced : (k j : Bytes) (g : Group) → Balanced k g → Balanced k (exit j g)
unfolding exit times
exit-Balanced k j g h = ground (arith, load-delete Bytes-discrete k j g.set)

moves_from-Balanced :
    (k : Bytes) (ms : List Move) (g : Group) → Balanced k g → Balanced k (moves ms g)
unfolding moves
moves_from-Balanced k [] g h = h
moves_from-Balanced k (run_called j ∷ ms) g h =
    moves_from-Balanced k ms (run j g) (run-Balanced k j g h)
moves_from-Balanced k (returned j ∷ ms) g h =
    moves_from-Balanced k ms (exit j g) (exit-Balanced k j g h)

abbrev pub empty_group : Group
empty_group = record { set = []; started = []; exited = [] }

-- After any calls of Run and returns of started functions, in any order: the functions started for a key are
-- the ones that were notified as exited, and one more exactly when the key is in the set. So no two
-- functions of one key run at a time.
pub moves-Balanced : (k : Bytes) (ms : List Move) → Balanced k (moves ms empty_group)
unfolding times load
moves-Balanced k ms = moves_from-Balanced k ms empty_group refl
