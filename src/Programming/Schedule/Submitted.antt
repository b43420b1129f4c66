-- ===== src/Programming/Schedule/Submitted.antt =====
-- The life of a submission that `verify` accepts, from `distribute` on, whatever the workers answer and
-- in whatever order.
use judge_system.Base.{
  ℕ, zero, suc, ◌+◌, ◌^◌, ◌≤◌, ◌<◌, ◌≡◌, refl, ◌⊎◌, Bool, true, some, List, [], ◌∷◌, ◌++◌,
  if◌then◌else◌, length, arith, ◌==◌, inl, inr, any, is_negative, sym, ◌∙◌,
}
use mathlib.Core.Option.{some-injective}
use native.Mathlib.Decide.{dec_lt}
use judge_system.Status.{Status}
use judge_system.Status.Phase.{phase, is_settled}
use judge_system.Queue.{ConcurrentQueue, try_pop}
use judge_system.Submission.{ClientTask}
use judge_system.Programming.{JudgeTask, JudgeTaskResult, ProgrammingSubmission}
use judge_system.Programming.Verify.{verify}
use judge_system.Programming.Verify.Accepts.{IsComplete, verify_iff, IsComplete-IsForest}
use judge_system.Programming.Process.{Progress, process}
use judge_system.Programming.Process.Phases.{phase_at, active_bit, open_count, sent}
use judge_system.Programming.Process.Invariant.{IsForest}
use judge_system.Programming.Schedule.{State, Step, take, answer, Reach, here, next, start}
use judge_system.Programming.Schedule.Start.{distribute-Inv}
use judge_system.Programming.Schedule.Steps.{
  tally, is_finish, is_final_report, is_alarm, first_active,
}
use judge_system.Programming.Schedule.Finish.{Good, answered, Step-Good}

all_settled :
    (rs : List JudgeTaskResult) → open_count rs ≡ 0 → (i : ℕ) → is_settled (phase_at rs i) ≡ true
unfolding open_count phase_at
all_settled [] h i = refl
all_settled (r ∷ rs) h zero = ground arith
all_settled (r ∷ rs) h (suc i) = all_settled rs (omega arith) i

not_empty : (ts : List JudgeTask) → any (λ t. is_negative t.depends_on) ts ≡ true → 0 < length ts
not_empty [] h = cc
not_empty (t ∷ ts) h = omega arith

-- How many tasks depend on none.
abbrev pub roots : List JudgeTask → ℕ
roots [] = 0
roots (t ∷ ts) = (if is_negative t.depends_on then 1 else 0) + roots ts

module _ (sub : ProgrammingSubmission) (few : length sub.judge_tasks ≤ 2 ^ 31)
    (accepted : verify (some sub) ≡ true) (reserve : Bool) (junk : Status)
    (old : List JudgeTaskResult) where
  abbrev tasks : List JudgeTask
  tasks = sub.judge_tasks

  abbrev Reached : State → Type 0
  Reached s = Reach sub.judge_id reserve tasks (start sub.judge_id junk tasks old) s

  complete : IsComplete sub
  complete = (verify_iff sub few).0 accepted

  forest : IsForest tasks
  forest = IsComplete-IsForest sub few complete

  start-Good : Good tasks (start sub.judge_id junk tasks old)
  unfolding start tally
  start-Good =
      let (inv, silent, zero_finished) = distribute-Inv sub.judge_id junk tasks old forest in
      let some_task : 0 < length tasks = not_empty tasks complete.has_entry in
      record {
        inv = inv;
        log = record {
          fired = rw silent (ground arith);
          acked = rw silent (ground arith);
          clean = rw silent refl;
        };
      }

  Reach-Good : {s : State} → Reached s → Good tasks s
  Reach-Good here = start-Good
  Reach-Good (next r st) = Step-Good forest sub.judge_id reserve st (Reach-Good r)

  -- In a submission in which one task depends on none, `distribute` changes nothing after its only
  -- message: it may as well end before a worker starts. In every state that the workers can then bring
  -- the submission to, the final report and the end of the
  -- submission have each been announced once if all tasks are finished and not at all before, the
  -- code has never logged an excess of answers or a submission without a running task, and no more
  -- tasks are finished than there are.
  pub reported_once :
      roots tasks ≡ 1
      → (s : State) → Reached s
      → (tally is_finish s.progress.events ≡ (if s.progress.finished == length tasks then 1 else 0))
        × (tally is_final_report s.progress.events
            ≡ (if s.progress.finished == length tasks then 1 else 0))
        × (tally is_alarm s.progress.events ≡ 0)
        × (s.progress.finished ≤ length tasks)
  reported_once one s r =
      let good = Reach-Good r in
      (good.log.fired, good.log.acked, good.log.clean, omega (arith, good.inv.counted))

  -- In every such state a task has one message, in the queue or with a worker, if its result says
  -- that it runs, and none otherwise.
  pub one_message :
      (s : State)
      → Reached s
      → (i : ℕ)
      → sent i s.progress.queue.q + sent i s.busy ≡ active_bit (phase_at s.progress.results i)
  one_message s r i = (Reach-Good r).inv.flying i

  -- In every such state, whichever worker answers next with a final verdict for its task, `process`
  -- comes to an end within a depth of as many calls as there are tasks, and more tasks are finished
  -- than before.
  pub answer_processed :
      (s : State)
      → Reached s
      → (before after : List ClientTask) (message : ClientTask) (result : JudgeTaskResult)
      → s.busy ≡ before ++ message ∷ after
      → result.id ≡ message.id
      → is_settled (phase result.status) ≡ true
      → (q : Progress) × (process (length tasks) sub.judge_id reserve tasks true result s.progress
          ≡ some q)
        × (s.progress.finished < q.finished)
  answer_processed s r before after message result held same done =
      let a =
        answered forest sub.judge_id reserve before after message result s held same done
          (Reach-Good r) in
      (a.q, a.called, a.grown)

  -- When no message is left, in the queue or with a worker, every task is finished, every result is a
  -- final verdict, and the end has been announced once: no submission is stuck.
  pub idle_complete :
      (s : State)
      → Reached s
      → s.progress.queue.q ≡ []
      → s.busy ≡ []
      → (s.progress.finished ≡ length tasks)
        × ((i : ℕ) → is_settled (phase_at s.progress.results i) ≡ true)
        × (tally is_finish s.progress.events ≡ 1)
  unfolding sent
  idle_complete s r no_queue no_busy =
      (all_done, all_settled s.progress.results closed, ground (arith, good.log.fired, all_done))
    where
      good : Good tasks s
      good = Reach-Good r

      none_flying : (i : ℕ) → active_bit (phase_at s.progress.results i) ≡ 0
      none_flying i = ground (arith, good.inv.flying i)

      all_done : s.progress.finished ≡ length tasks
      all_done = elim (dec_lt s.progress.finished (length tasks)) [
        | yes more ↦
            let (i, busy_here) = first_active forest good.inv more in
            absurd (ground (arith, none_flying i))
        | no rest ↦ omega (arith, good.inv.counted)
      ]

      closed : open_count s.progress.results ≡ 0
      closed = omega (arith, good.inv.counted, all_done)

  -- Each step of the workers finishes a task, or finishes none and shortens the queue: as the number
  -- of finished tasks is bounded, the workers cannot go on for ever.
  pub work_bounded :
      (s t : State)
      → Reached s
      → Step sub.judge_id reserve tasks s t
      → (s.progress.finished < t.progress.finished)
        ⊎ ((s.progress.finished ≡ t.progress.finished)
            × (length t.progress.queue.q < length s.progress.queue.q))
  unfolding try_pop
  work_bounded s t r st = go st (Reach-Good r)
    where
      shorter :
          (l : List ClientTask)
          → s.progress.queue.q ≡ l
          → (j m : ClientTask) (q : ConcurrentQueue ClientTask)
          → try_pop s.progress.queue j ≡ (true, m, q)
          → length q.q < length s.progress.queue.q
      shorter [] e j m q h = ground arith
      shorter (x ∷ l) e j m q h = ground arith

      go :
          {u : State}
          → Step sub.judge_id reserve tasks s u
          → Good tasks s
          → (s.progress.finished < u.progress.finished)
            ⊎ ((s.progress.finished ≡ u.progress.finished)
                × (length u.progress.queue.q < length s.progress.queue.q))
      go (take j m q e) good = inr (refl, shorter s.progress.queue.q refl j m q e)
      go (answer before after message result q held same done e) good =
          let a =
            answered forest sub.judge_id reserve before after message result s held same done
              good in
          let same_q : a.q ≡ q = some-injective _ _ (sym a.called ∙ e) in
          inl (rw same_q at (a.grown))
