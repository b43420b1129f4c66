-- ===== src/Worker/Loop/Drained.antt =====
-- What the workers leave behind when all have stopped.
use judge_system.Base.{
  ℕ, ◌≤◌, ◌≡◌, refl, sym, ap, ◌∙◌, true, false, List, [], ◌∷◌, ◌++◌, any, all, is_nil, length,
  arith,
}
use mathlib.Core.List.{append-nil}
use judge_system.Submission.{ClientTask}
use judge_system.Worker.Loop.{
  Phase, looping, polling, found_nothing, fetching, judging, stopped, new_pool, Event, run,
}
use judge_system.Worker.Loop.Counts.{is_busy, is_stopped, in_progress}
use judge_system.Worker.Loop.Invariant.{Invariant, run-Invariant, new_pool-Invariant}
use judge_system.Worker.Loop.Signals.{signals, run_sigint}

none_busy :
    (ps : List Phase) → all is_stopped ps ≡ true → (any is_busy ps ≡ false) × (in_progress ps ≡ 0)
none_busy [] h = (refl, refl)
none_busy (stopped ∷ ps) h = let (b, c) = none_busy ps h in (b, omega arith)
none_busy (looping ∷ ps) h = cc
none_busy (polling ∷ ps) h = cc
none_busy (found_nothing ∷ ps) h = cc
none_busy (fetching ∷ ps) h = cc
none_busy (judging t ∷ ps) h = cc

-- However the workers and their calls of `push` are interleaved: when all have stopped after at most one
-- signal, the queue is empty, every task that was ever put into it was taken out, in the order of the
-- pushes, and judged.
pub drained_lem :
    (junk : ClientTask) (n : ℕ) (es : List Event)
    → signals es ≤ 1
    → all is_stopped (run junk es (new_pool n)).workers ≡ true
    → ((run junk es (new_pool n)).task_queue.q ≡ [])
      × ((run junk es (new_pool n)).taken ≡ (run junk es (new_pool n)).pushed)
      × ((run junk es (new_pool n)).judged ≡ length (run junk es (new_pool n)).pushed)
drained_lem junk n es few h =
    let p = run junk es (new_pool n) in
    let v : Invariant p = run-Invariant junk es (new_pool n) (new_pool-Invariant n) in
    let (idle, ended) = none_busy p.workers h in
    let bound : p.sigint ≤ 1 = omega (arith, run_sigint junk es (new_pool n)) in
    let nil : is_nil p.task_queue.q ≡ true = ground (arith, v.twice, v.alive) in
    let nothing : p.task_queue.q ≡ [] = is_nil-eq p.task_queue.q nil in
    let all_taken : p.taken ≡ p.pushed =
      sym (append-nil p.taken) ∙ ap (λ l. p.taken ++ l) (sym nothing) ∙ v.fifo in
    (nothing, all_taken, omega (arith, v.counted, ap length all_taken))
  where
    is_nil-eq : (q : List ClientTask) → is_nil q ≡ true → q ≡ []
    is_nil-eq [] h = refl
    is_nil-eq (t ∷ ts) h = cc
