-- ===== src/Worker/Loop/Invariant.antt =====
-- What every step of the workers keeps.
use judge_system.Base.{
  ℕ, zero, suc, ◌+◌, ◌≡◌, refl, sym, ap, ◌∙◌, Bool, true, false, not, ◌||◌, List, [], ◌∷◌, ◌++◌,
  get_elem?, tabulate, Option, none, some, if◌then◌else◌, ◌==◌, any, is_nil, leb, length,
  length-append, arith,
}
use mathlib.Core.List.{append_assoc}
use judge_system.Queue.{try_pop, push}
use judge_system.Submission.{ClientTask}
use judge_system.Worker.Loop.{
  Phase, looping, polling, found_nothing, fetching, judging, stopped, WorkerPool, new_pool,
  stop_workers, stop_judging, sigint_handler, goes, popped, worker_step, worker_push, Event, steps,
  pushes, signalled, happen, run,
}
use judge_system.Worker.Loop.Counts.{
  is_busy, is_judging, in_progress, any-set, any-get_elem?, any-set_idle, in_progress-set,
}

pub record Invariant (p : WorkerPool) : Type 0 where
  pub fifo : p.taken ++ p.task_queue.q ≡ p.pushed
  pub counted : length p.taken ≡ p.judged + in_progress p.workers
  pub twice : (not p.stopping_judging || leb 2 p.sigint) ≡ true
  pub alive : (p.stopping_judging || is_nil p.task_queue.q || any is_busy p.workers) ≡ true

-- A worker that stays or becomes busy keeps the invariant, if its counts agree.
goes_busy :
    (p : WorkerPool) (i : ℕ) (old new : Phase)
    → Invariant p
    → get_elem? p.workers i ≡ some old
    → is_busy new ≡ true
    → is_judging old ≡ is_judging new
    → Invariant (goes i new p)
goes_busy p i old new v e b j = record {
  fifo = v.fifo;
  counted = omega (arith, v.counted, in_progress-set p.workers i old new e);
  twice = v.twice;
  alive = ground (arith, any-set is_busy p.workers i old new e b);
}

worker_step-Invariant :
    (junk : ClientTask) (i : ℕ) (p : WorkerPool) (phase : Phase)
    → Invariant p
    → get_elem? p.workers i ≡ some phase
    → Invariant (worker_step junk i p phase)
unfolding worker_step try_pop
worker_step-Invariant junk i p looping v e = by_flag p.stopping_judging refl
  where
    by_flag :
        (b : Bool) → p.stopping_judging ≡ b → Invariant (goes i (if b then stopped else polling) p)
    by_flag true s = record {
      fifo = v.fifo;
      counted = omega (arith, v.counted, in_progress-set p.workers i looping stopped e);
      twice = v.twice;
      alive = ground arith;
    }
    by_flag false s = goes_busy p i looping polling v e refl refl
worker_step-Invariant junk i p polling v e = by_queue p.task_queue.q refl
  where
    by_queue :
        (q : List ClientTask)
        → p.task_queue.q ≡ q
        → Invariant (popped i p (try_pop (record { q = q }) junk))
    by_queue [] q = record {
      fifo = v.fifo;
      counted = omega (arith, v.counted, in_progress-set p.workers i polling found_nothing e);
      twice = v.twice;
      alive = ground arith;
    }
    by_queue (t ∷ ts) q = record {
      fifo = append_assoc p.taken (t ∷ []) ts ∙ ap (λ l. p.taken ++ l) (sym q) ∙ v.fifo;
      counted = omega (
        arith,
        v.counted,
        in_progress-set p.workers i polling (judging t) e,
        length-append p.taken (t ∷ []),
      );
      twice = v.twice;
      alive = ground (arith, any-set is_busy p.workers i polling (judging t) e refl);
    }
worker_step-Invariant junk i p found_nothing v e = by_flag p.stopping_workers
  where
    by_flag : (b : Bool) → Invariant (goes i (if b then stopped else fetching) p)
    by_flag true = record {
      fifo = v.fifo;
      counted = omega (arith, v.counted, in_progress-set p.workers i found_nothing stopped e);
      twice = v.twice;
      alive = ground (arith, any-set_idle p.workers i found_nothing stopped e refl);
    }
    by_flag false = goes_busy p i found_nothing fetching v e refl refl
worker_step-Invariant junk i p fetching v e = goes_busy p i fetching looping v e refl refl
worker_step-Invariant junk i p (judging t) v e = record {
  fifo = v.fifo;
  counted = omega (arith, v.counted, in_progress-set p.workers i (judging t) looping e);
  twice = v.twice;
  alive = ground (arith, any-set is_busy p.workers i (judging t) looping e refl);
}
worker_step-Invariant junk i p stopped v e = v

pushed-Invariant :
    (p : WorkerPool) (i : ℕ) (task : ClientTask) (phase : Phase)
    → Invariant p
    → get_elem? p.workers i ≡ some phase
    → is_busy phase ≡ true
    → Invariant (record p { task_queue = push p.task_queue task; pushed = p.pushed ++ task ∷ [] })
unfolding push
pushed-Invariant p i task phase v e b = record {
  fifo = sym (append_assoc p.taken p.task_queue.q (task ∷ [])) ∙ ap (λ l. l ++ task ∷ []) v.fifo;
  counted = v.counted;
  twice = v.twice;
  alive = ground (arith, any-get_elem? is_busy p.workers i phase e b);
}

worker_push-Invariant :
    (task : ClientTask) (i : ℕ) (p : WorkerPool) (phase : Phase)
    → Invariant p
    → get_elem? p.workers i ≡ some phase
    → Invariant (worker_push task p phase)
unfolding worker_push
worker_push-Invariant task i p fetching v e = pushed-Invariant p i task fetching v e refl
worker_push-Invariant task i p (judging t) v e = pushed-Invariant p i task (judging t) v e refl
worker_push-Invariant task i p looping v e = v
worker_push-Invariant task i p polling v e = v
worker_push-Invariant task i p found_nothing v e = v
worker_push-Invariant task i p stopped v e = v

sigint_handler-Invariant : (p : WorkerPool) → Invariant p → Invariant (sigint_handler p)
unfolding sigint_handler
sigint_handler-Invariant p v = by_tests (p.sigint == 0) (p.sigint == 1) refl refl
  where
    by_tests :
        (a b : Bool)
        → (p.sigint == 0) ≡ a
        → (p.sigint == 1) ≡ b
        → Invariant
            (record (if a
              then stop_workers p
              else if b
              then stop_judging p
              else record p { exited = true }) { sigint = p.sigint + 1 })
    by_tests true b e f = record {
      fifo = v.fifo;
      counted = v.counted;
      twice = ground arith;
      alive = v.alive;
    }
    by_tests false true e f = record {
      fifo = v.fifo;
      counted = v.counted;
      twice = ground arith;
      alive = refl;
    }
    by_tests false false e f = record {
      fifo = v.fifo;
      counted = v.counted;
      twice = ground arith;
      alive = v.alive;
    }

happen-Invariant :
    (junk : ClientTask) (e : Event) (p : WorkerPool) → Invariant p → Invariant (happen junk e p)
unfolding happen
happen-Invariant junk (steps i) p v = by_phase (get_elem? p.workers i) refl
  where
    by_phase :
        (o : Option Phase)
        → get_elem? p.workers i ≡ o
        → Invariant (elim o [ none ↦ p | some phase ↦ worker_step junk i p phase ])
    by_phase none e = v
    by_phase (some phase) e = worker_step-Invariant junk i p phase v e
happen-Invariant junk (pushes i task) p v = by_phase (get_elem? p.workers i) refl
  where
    by_phase :
        (o : Option Phase)
        → get_elem? p.workers i ≡ o
        → Invariant (elim o [ none ↦ p | some phase ↦ worker_push task p phase ])
    by_phase none e = v
    by_phase (some phase) e = worker_push-Invariant task i p phase v e
happen-Invariant junk signalled p v = sigint_handler-Invariant p v

pub run-Invariant :
    (junk : ClientTask) (es : List Event) (p : WorkerPool) → Invariant p → Invariant (run junk es p)
unfolding run
run-Invariant junk [] p v = v
run-Invariant junk (e ∷ es) p v = run-Invariant junk es _ (if_exited p.exited)
  where
    if_exited : (b : Bool) → Invariant (if b then p else happen junk e p)
    if_exited true = v
    if_exited false = happen-Invariant junk e p v

pub new_pool-Invariant : (n : ℕ) → Invariant (new_pool n)
new_pool-Invariant n = record {
  fifo = refl;
  counted = omega (arith, none_in_progress n);
  twice = refl;
  alive = refl;
}
  where
    none_in_progress : (n : ℕ) → in_progress (tabulate n (λ i. looping)) ≡ 0
    none_in_progress zero = refl
    none_in_progress (suc n) = omega (arith, none_in_progress n)
