-- ===== src/Worker/Loop/Signals.antt =====
-- The counter of the signals.
use judge_system.Base.{
  ℕ, suc, ◌+◌, ◌≤◌, ◌≡◌, refl, Bool, true, false, List, [], ◌∷◌, get_elem?, Option, none, some,
  if◌then◌else◌, arith,
}
use judge_system.Queue.{ConcurrentQueue, try_pop}
use judge_system.Submission.{ClientTask}
use judge_system.Worker.Loop.{
  Phase, looping, polling, found_nothing, fetching, judging, stopped, WorkerPool, sigint_handler,
  popped, worker_step, worker_push, Event, steps, pushes, signalled, happen, run,
}

abbrev pub signals : List Event → ℕ
signals [] = 0
signals (signalled ∷ es) = suc (signals es)
signals (e ∷ es) = signals es

step_sigint :
    (junk : ClientTask) (i : ℕ) (p : WorkerPool) (phase : Phase)
    → (worker_step junk i p phase).sigint ≡ p.sigint
unfolding worker_step
step_sigint junk i p looping = refl
step_sigint junk i p polling = by_pop (try_pop p.task_queue junk)
  where
    by_pop : (r : Bool × ClientTask × ConcurrentQueue ClientTask) → (popped i p r).sigint ≡ p.sigint
    by_pop (true, task, queue) = refl
    by_pop (false, task, queue) = refl
step_sigint junk i p found_nothing = refl
step_sigint junk i p fetching = refl
step_sigint junk i p (judging t) = refl
step_sigint junk i p stopped = refl

push_sigint :
    (task : ClientTask) (p : WorkerPool) (phase : Phase)
    → (worker_push task p phase).sigint ≡ p.sigint
unfolding worker_push
push_sigint task p fetching = refl
push_sigint task p phase = refl

happen_sigint :
    (junk : ClientTask) (e : Event) (p : WorkerPool)
    → (happen junk e p).sigint ≤ p.sigint + signals (e ∷ [])
unfolding happen sigint_handler
happen_sigint junk (steps i) p = by_phase (get_elem? p.workers i)
  where
    by_phase :
        (o : Option Phase)
        → (let q : WorkerPool = elim o [ none ↦ p | some phase ↦ worker_step junk i p phase ] in
            q.sigint ≤ p.sigint + 0)
    by_phase none = omega arith
    by_phase (some phase) = omega (arith, step_sigint junk i p phase)
happen_sigint junk (pushes i task) p = by_phase (get_elem? p.workers i)
  where
    by_phase :
        (o : Option Phase)
        → (let q : WorkerPool = elim o [ none ↦ p | some phase ↦ worker_push task p phase ] in
            q.sigint ≤ p.sigint + 0)
    by_phase none = omega arith
    by_phase (some phase) = omega (arith, push_sigint task p phase)
happen_sigint junk signalled p = omega arith

pub run_sigint :
    (junk : ClientTask) (es : List Event) (p : WorkerPool)
    → (run junk es p).sigint ≤ p.sigint + signals es
unfolding run
run_sigint junk [] p = omega arith
run_sigint junk (e ∷ es) p = omega (
  arith,
  run_sigint junk es (if p.exited then p else happen junk e p),
  if_exited p.exited,
  split e,
)
  where
    if_exited : (b : Bool) → (if b then p else happen junk e p).sigint ≤ p.sigint + signals (e ∷ [])
    if_exited true = omega arith
    if_exited false = happen_sigint junk e p

    split : (e : Event) → signals (e ∷ es) ≡ signals (e ∷ []) + signals es
    split signalled = omega arith
    split (steps i) = omega arith
    split (pushes i task) = omega arith
