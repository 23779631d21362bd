-- ===== src/Processes/Numbers.antt =====
-- The numbers of the processes in a list.
use matte_os.Base.{
  ℕ, ◌+◌, ◌<◌, ◌≡◌, ◌≢◌, refl, true, false, arith, ◌==◌, update, List, [], ◌∷◌, ◌++◌,
}
use matte_os.Errors.{value}
use matte_os.Arrays.Queries.{first_match, match_result}
use matte_os.Scheduler.{Process}

-- The processes in the list have numbers below the counter, and none of them stands at the address `at`.
unfoldable pub Known : (ℕ → Process) → ℕ → List ℕ → Type 0
Known processes counter [] = Unit
Known processes counter (p ∷ ps) = ((processes p).pid < counter) × Known processes counter ps

unfoldable pub NotAt : ℕ → List ℕ → Type 0
NotAt at [] = Unit
NotAt at (p ∷ ps) = (at ≢ p) × NotAt at ps

-- A process that is put in place behind the others is the first one with its number.
pub last_match :
    (processes : ℕ → Process) (process : Process) (at : ℕ) (ps : List ℕ) (i : ℕ)
    → Known processes process.pid ps
    → NotAt at ps
    → match_result
        (first_match (λ p. (update processes at process p).pid == process.pid) (ps ++ at ∷ []) i)
      ≡ value at
unfolding Known NotAt first_match match_result
last_match processes process at [] i known away =
    let hit : ((update processes at process at).pid == process.pid) ≡ true = ground arith in
    rw hit refl
last_match processes process at (p ∷ ps) i (lt, known) (ne, away) =
    let miss : ((update processes at process p).pid == process.pid) ≡ false = ground arith in
    rw miss (last_match processes process at ps (i + 1) known away)

pub Known-update :
    (processes : ℕ → Process) (process : Process) (at counter : ℕ) (ps : List ℕ)
    → process.pid < counter
    → Known processes process.pid ps
    → NotAt at ps
    → Known (update processes at process) counter (ps ++ at ∷ [])
unfolding Known NotAt
Known-update processes process at counter [] lt known away = (ground arith, tt)
Known-update processes process at counter (p ∷ ps) lt (low, known) (ne, away) =
    (ground arith, Known-update processes process at counter ps lt known away)
