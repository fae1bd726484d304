-- ===== src/Examples/Names.antt =====
-- Names, labels and lists without repetition.
use tetrapod.Base.{ℕ, ◌≡◌, refl, List, [], ◌∷◌, replicate, ℕ_discrete}
use tetrapod.Base.Bytes.{Bytes, Bytes-discrete}
use tetrapod.Pkg.Bgsingleflight.{Move, run_called, returned, moves, empty_group}
use tetrapod.Pkg.Uniq.{uniq}

abbrev numbers : List ℕ
numbers = 3 ∷ 1 ∷ 3 ∷ 2 ∷ 1 ∷ []

uniq-numbers : uniq ℕ_discrete numbers ≡ 3 ∷ 1 ∷ 2 ∷ []
unfolding uniq ℕ_discrete
uniq-numbers = refl

abbrev toy_sum : Bytes → Bytes
toy_sum b = replicate 40 102

abbrev two_runs : List Move
two_runs = run_called (1 ∷ []) ∷ run_called (1 ∷ []) ∷ returned (1 ∷ []) ∷ run_called (1 ∷ []) ∷ []

two_runs_start_two : (moves two_runs empty_group).started ≡ (1 ∷ []) ∷ (1 ∷ []) ∷ []
unfolding moves Bytes-discrete
two_runs_start_two = refl
