-- ===== src/Worker/Loop.antt =====
-- `worker_loop` of src/worker/worker.cpp, run by several threads, with `stop_workers`, `stop_judging` and
-- the handler of signals in src/main.cpp. No task asks for more than one core, so that the queue of the
-- requests for cores is always empty. What `fetch_submission` and `judge` do here is to put tasks
-- into the queue.
pub mod Counts
pub mod Drained
pub mod Invariant
pub mod Signals
use judge_system.Base.{
  ℕ, zero, suc, ◌+◌, Bool, true, false, List, [], ◌∷◌, ◌++◌, get_elem?, set, tabulate, Option, none,
  some, if◌then◌else◌, ◌==◌,
}
use judge_system.Queue.{ConcurrentQueue, empty, try_pop, push}
use judge_system.Submission.{ClientTask}

-- Where a worker is: before its test of `stopping_judging`, before `try_pop`, after a `try_pop` that found
-- nothing and before its test of `stopping_workers`, in `fetch_submission`, in `judge` with a task, or
-- out of the loop.
pub data Phase : Type 0 where
  looping : Phase
  polling : Phase
  found_nothing : Phase
  fetching : Phase
  judging : ClientTask → Phase
  stopped : Phase

-- `pushed`, `taken` and `judged` record the tasks that came into the queue, that went out, and how many
-- calls of `judge` have ended.
pub record WorkerPool : Type 0 where
  pub workers : List Phase
  pub task_queue : ConcurrentQueue ClientTask
  pub stopping_workers : Bool
  pub stopping_judging : Bool
  pub sigint : ℕ
  pub exited : Bool
  pub pushed : List ClientTask
  pub taken : List ClientTask
  pub judged : ℕ

abbrev pub new_pool : ℕ → WorkerPool
new_pool n = record {
  workers = tabulate n (λ i. looping);
  task_queue = empty;
  stopping_workers = false;
  stopping_judging = false;
  sigint = 0;
  exited = false;
  pushed = [];
  taken = [];
  judged = 0;
}

abbrev pub stop_workers : WorkerPool → WorkerPool
stop_workers p = record p { stopping_workers = true }

abbrev pub stop_judging : WorkerPool → WorkerPool
stop_judging p = record p { stopping_judging = true }

-- `sigintHandler`, for SIGINT and for SIGTERM.
unfoldable pub sigint_handler : WorkerPool → WorkerPool
sigint_handler p =
    let q =
      (if p.sigint == 0
        then stop_workers p
        else if p.sigint == 1
        then stop_judging p
        else record p { exited = true }) in
    record q { sigint = p.sigint + 1 }

abbrev pub goes : ℕ → Phase → WorkerPool → WorkerPool
goes i phase p = record p { workers = set p.workers i phase }

-- What `try_pop` gave.
abbrev pub popped : ℕ → WorkerPool → Bool × ClientTask × ConcurrentQueue ClientTask → WorkerPool
popped i p (true, task, queue) = record (goes i (judging task) p) {
  task_queue = queue;
  taken = p.taken ++ task ∷ [];
}
popped i p (false, task, queue) = goes i found_nothing p

-- The next step of worker `i`; `junk` is in the variable that `try_pop` fills.
unfoldable pub worker_step : ClientTask → ℕ → WorkerPool → Phase → WorkerPool
unfolding try_pop
worker_step junk i p looping = goes i (if p.stopping_judging then stopped else polling) p
worker_step junk i p polling = popped i p (try_pop p.task_queue junk)
worker_step junk i p found_nothing = goes i (if p.stopping_workers then stopped else fetching) p
worker_step junk i p fetching = goes i looping p
worker_step junk i p (judging task) = record (goes i looping p) { judged = p.judged + 1 }
worker_step junk i p stopped = p

-- A call of `push` inside of `fetch_submission` or of `judge`.
unfoldable pub worker_push : ClientTask → WorkerPool → Phase → WorkerPool
unfolding push
worker_push task p fetching = record p {
  task_queue = push p.task_queue task;
  pushed = p.pushed ++ task ∷ [];
}
worker_push task p (judging t) = record p {
  task_queue = push p.task_queue task;
  pushed = p.pushed ++ task ∷ [];
}
worker_push task p phase = p

pub data Event : Type 0 where
  steps : (i : ℕ) → Event
  pushes : (i : ℕ) (task : ClientTask) → Event
  signalled : Event

unfoldable pub happen : ClientTask → Event → WorkerPool → WorkerPool
unfolding worker_step worker_push sigint_handler
happen junk (steps i) p = elim (get_elem? p.workers i) [
  | none ↦ p
  | some phase ↦ worker_step junk i p phase
]
happen junk (pushes i task) p = elim (get_elem? p.workers i) [
  | none ↦ p
  | some phase ↦ worker_push task p phase
]
happen junk signalled p = sigint_handler p

-- After `exit` nothing happens.
unfoldable pub run : ClientTask → List Event → WorkerPool → WorkerPool
unfolding happen
run junk [] p = p
run junk (e ∷ es) p = run junk es (if p.exited then p else happen junk e p)
