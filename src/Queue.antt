-- ===== src/Queue.antt =====
-- include/common/concurrent_queue.hpp: each call runs under the queue's mutex, so it is one step.
-- `pop` waits while the queue is empty: `none` is a call that is still waiting.
pub mod Fifo
use judge_system.Base.{Bool, true, false, Option, none, some, List, [], ◌∷◌, ◌++◌}

pub record ConcurrentQueue {ℓ} (A : Type ℓ) : Type ℓ where
  pub q : List A

module _ {ℓ} {A : Type ℓ} where
  abbrev pub empty : ConcurrentQueue A
  empty = record { q = [] }

  -- The result, the new value of `element` and the queue.
  unfoldable pub try_pop : ConcurrentQueue A → A → Bool × A × ConcurrentQueue A
  try_pop queue element = elim queue.q [
    | [] ↦ (false, element, queue)
    | x ∷ rest ↦ (true, x, record { q = rest })
  ]

  unfoldable pub pop : ConcurrentQueue A → Option (A × ConcurrentQueue A)
  pop queue = elim queue.q [ [] ↦ none | x ∷ rest ↦ some (x, record { q = rest }) ]

  unfoldable pub push : ConcurrentQueue A → A → ConcurrentQueue A
  push queue value = record { q = queue.q ++ value ∷ [] }
