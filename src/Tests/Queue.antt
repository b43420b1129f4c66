-- ===== src/Tests/Queue.antt =====
-- The message queue at concrete inputs.
use judge_system.Base.{◌≡◌, ℕ, some, false, [], ◌∷◌}
use judge_system.Queue.{try_pop, empty}
use judge_system.Queue.Fifo.{push_all, pop_many, push_all-pop_many}

push_all-pop_many_example :
    (pop_many {A = ℕ} 3 (push_all empty (4 ∷ 5 ∷ 6 ∷ [])) ≡ some (4 ∷ 5 ∷ 6 ∷ [], empty))
    × (try_pop {A = ℕ} empty 9 ≡ (false, 9, empty))
push_all-pop_many_example = push_all-pop_many (4 ∷ 5 ∷ 6 ∷ []) 9
