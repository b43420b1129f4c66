-- ===== src/Queue/Fifo.antt =====
-- The queue hands elements out in the order in which they were pushed.
use mathlib.Core.List.{append-nil, append_assoc}
use judge_system.Base.{
  ◌≡◌, refl, false, Option, none, some, List, [], ◌∷◌, ◌++◌, ℕ, zero, suc, length, ◌∙◌, sym,
}
use judge_system.Queue.{ConcurrentQueue, try_pop, pop, push, empty}

module _ {ℓ} {A : Type ℓ} where
  unfoldable pub push_all : ConcurrentQueue A → List A → ConcurrentQueue A
  push_all queue [] = queue
  push_all queue (x ∷ xs) = push_all (push queue x) xs

  -- `n` calls of `pop` in a row.
  unfoldable pub pop_many : ℕ → ConcurrentQueue A → Option (List A × ConcurrentQueue A)
  pop_many zero queue = some ([], queue)
  pop_many (suc n) queue = elim (pop queue) [
    | none ↦ none
    | some (x, rest) ↦ elim (pop_many n rest) [
      | none ↦ none
      | some (xs, last) ↦ some (x ∷ xs, last)
    ]
  ]

  push_all-q : (queue : ConcurrentQueue A) (xs : List A) → (push_all queue xs).q ≡ queue.q ++ xs
  unfolding push_all push
  push_all-q queue [] = sym (append-nil queue.q)
  push_all-q queue (x ∷ xs) = push_all-q (push queue x) xs ∙ append_assoc queue.q (x ∷ []) xs

  pop_many-all : (l : List A) → pop_many (length l) (record { q = l }) ≡ some (l, empty)
  unfolding pop_many pop
  pop_many-all [] = refl
  pop_many-all (x ∷ l) = rw (pop_many-all l)

  -- Elements pushed onto an empty queue come out again, all of them, in the order of the pushes, and
  -- the queue is then empty, so that `try_pop` fails and leaves its argument as it was.
  pub push_all-pop_many :
      (xs : List A) (element : A)
      → (pop_many (length xs) (push_all empty xs) ≡ some (xs, empty))
        × (try_pop {A = A} empty element ≡ (false, element, empty))
  unfolding try_pop
  push_all-pop_many xs element = (rw (queue_eq (push_all-q empty xs)) (pop_many-all xs), refl)
    where
      queue_eq : {c : ConcurrentQueue A} → c.q ≡ xs → c ≡ record { q = xs }
      queue_eq e = λ i. record { q = e i }
