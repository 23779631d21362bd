-- ===== src/Tests/Queue.antt =====
-- A queue of two numbers.
use matte_os.Base.{ℕ, ◌==◌, ◌≡◌, refl, none, some, [], ◌∷◌, arith, if◌then◌else◌}
use matte_os.Queue.{LinkedQueue, rotate_left}
use matte_os.Queue.Links.{Memory, nothing, element, Distinct, Below, Away, last_address, values}
use matte_os.Queue.Laws.{IsQueue}
use matte_os.Queue.Rotation.{rotate_left-IsQueue}

abbrev two_elements : Memory ℕ
two_elements p =
    if p == 3
    then some (record { element = 10; next = some 1 })
    else if p == 1
    then some (record { element = 20; next = none })
    else none

abbrev pub pair : LinkedQueue ℕ
pair = record { memory = two_elements; fresh = 4; head = some 3; tail = some 1 }

pub pair-IsQueue : IsQueue pair (10 ∷ 20 ∷ [])
unfolding values Distinct Below Away last_address
pair-IsQueue = record {
  items = (3, 10) ∷ (1, 20) ∷ [];
  content = refl;
  linked = element refl (element refl nothing);
  distinct = ((λ e. omega (arith, e), tt), (tt, tt));
  below = (omega arith, (omega arith, tt));
  ends = refl;
}

abbrev nobody : LinkedQueue ℕ
nobody = record { memory = λ p. none; fresh = 0; head = none; tail = none }

nobody-IsQueue : IsQueue nobody []
unfolding values Distinct Below last_address
nobody-IsQueue = record {
  items = [];
  content = refl;
  linked = nothing;
  distinct = tt;
  below = tt;
  ends = refl;
}

rotate_left-IsQueue_example :
    (q' : LinkedQueue ℕ) × (rotate_left pair ≡ some q') × IsQueue q' (20 ∷ 10 ∷ [])
rotate_left-IsQueue_example = rotate_left-IsQueue pair 10 (20 ∷ []) pair-IsQueue
