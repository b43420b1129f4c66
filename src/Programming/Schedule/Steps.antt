-- ===== src/Programming/Schedule/Steps.antt =====
-- Each step of the workers keeps the invariant and the log of events.
use judge_system.Base.{
  ℕ, zero, suc, ◌+◌, ◌<◌, ◌≡◌, refl, Bool, true, false, not, ◌&&◌, some, List, [], ◌∷◌, ◌++◌, ℤ,
  pos, negsuc, if◌then◌else◌, length, get_elem?, ltb, arith, ◌==◌, Bool-cases, inl, inr, ==_iff,
  ==_refl, any, get_elem?-of_lt,
}
use mathlib.Core.List.{append-nil}
use judge_system.Status.{status_eq, system_error}
use judge_system.Status.Phase.{is_active, is_settled}
use judge_system.Queue.{ConcurrentQueue, try_pop}
use judge_system.Submission.{ClientTask}
use judge_system.Programming.{JudgeTask, JudgeTaskResult}
use judge_system.Programming.Process.{
  Progress, Event, monitor_judge_time, summarized, work_dir_removed, judge_finished,
  test_case_exceeded, no_running_task, report, summarize,
}
use judge_system.Programming.Process.Phases.{
  phase_at, active_bit, sent, sent-append, open_first, any-running,
}
use judge_system.Programming.Process.Invariant.{IsForest, Inv, nobody}
use judge_system.Programming.Schedule.{State}

abbrev pub is_finish : Event → Bool
is_finish judge_finished = true
is_finish _ = false

abbrev pub is_final_report : Event → Bool
is_final_report (summarized true) = true
is_final_report _ = false

-- What the code logs as an error of its own.
abbrev pub is_alarm : Event → Bool
is_alarm test_case_exceeded = true
is_alarm no_running_task = true
is_alarm _ = false

unfoldable pub tally : (Event → Bool) → List Event → ℕ
tally test [] = 0
tally test (e ∷ es) = (if test e then 1 else 0) + tally test es

tally-append :
    (test : Event → Bool) (xs ys : List Event)
    → tally test (xs ++ ys) ≡ tally test xs + tally test ys
unfolding tally
tally-append test [] ys = omega arith
tally-append test (x ∷ xs) ys = ground (arith, tally-append test xs ys)

pub record Log (n : ℕ) (p : Progress) : Type 0 where
  pub fired : tally is_finish p.events ≡ (if p.finished == n then 1 else 0)
  pub acked : tally is_final_report p.events ≡ (if p.finished == n then 1 else 0)
  pub clean : tally is_alarm p.events ≡ 0

-- The events of a final report.
abbrev closing : Bool → List Event → List Event
closing removed es =
    (es ++ monitor_judge_time ∷ summarized true ∷ (if removed then work_dir_removed ∷ [] else []))
    ++ judge_finished ∷ []

tally-closing :
    (test : Event → Bool) (removed : Bool) (es : List Event)
    → tally test (closing removed es) ≡ tally test es + tally test (closing removed [])
tally-closing test removed es =
    let middle : List Event =
      monitor_judge_time ∷ summarized true ∷ (if removed then work_dir_removed ∷ [] else []) in
    omega (
      arith,
      tally-append test (es ++ middle) (judge_finished ∷ []),
      tally-append test es middle,
      tally-append test middle (judge_finished ∷ []),
    )

module _ {tasks : List JudgeTask} {busy : List ClientTask} (forest : IsForest tasks) where
  -- While a task is open, the first such task is with the workers.
  pub first_active :
      {p : Progress}
      → Inv tasks busy nobody nobody 0 p
      → p.finished < length tasks
      → (i : ℕ) × (is_active (phase_at p.results i) ≡ true)
  first_active {p} inv h =
      let (i, lt, opened, before) = open_first p.results (omega (arith, inv.counted)) in
      (i, here i lt opened before)
    where
      here :
          (i : ℕ)
          → i < length p.results
          → is_settled (phase_at p.results i) ≡ false
          → ((j : ℕ) → j < i → is_settled (phase_at p.results j) ≡ true)
          → is_active (phase_at p.results i) ≡ true
      here i lt opened before =
          let (t, e) = get_elem?-of_lt tasks i (omega (arith, inv.sized)) in
          go t e t.depends_on refl
        where
          go :
              (t : JudgeTask)
              → get_elem? tasks i ≡ some t
              → (d : ℤ) → t.depends_on ≡ d
              → is_active (phase_at p.results i) ≡ true
          go t e (negsuc d) q = ground (arith, inv.linked i t e)
          go t e (pos d) q = ground (arith, inv.linked i t e, forest.earlier i t e, before d)

  -- The report after an answer: final if the task was the last one, and never an alarm.
  pub report-Log :
      (reserve : Bool) {p : Progress}
      → Inv tasks busy nobody nobody 0 p
      → tally is_finish p.events ≡ 0
      → tally is_final_report p.events ≡ 0
      → tally is_alarm p.events ≡ 0
      → Log (length tasks) (report reserve tasks p)
  unfolding report summarize tally
  report-Log reserve {p} inv f a c = elim (Bool-cases (p.finished == length tasks)) [
    | inl last ↦
        rw (last, report)
          (final last (not reserve && not (any (λ r. status_eq r.status system_error) p.results)))
    | inr more ↦
        let (i, busy_here) = first_active inv (ground (arith, inv.counted)) in
        rw (more, in_bounds, any-running p.results i busy_here, report)
          (rw append-nil (partial more))
  ]
    where
      in_bounds : ltb (length tasks) p.finished ≡ false
      in_bounds = ground (arith, inv.counted)

      partial :
          (p.finished == length tasks) ≡ false
          → Log (length tasks) (record p { events = p.events ++ summarized false ∷ [] })
      partial more = record {
        fired = ground (arith, tally-append is_finish p.events (summarized false ∷ []));
        acked = ground (arith, tally-append is_final_report p.events (summarized false ∷ []));
        clean = ground (arith, tally-append is_alarm p.events (summarized false ∷ []));
      }

      final :
          (p.finished == length tasks) ≡ true
          → (removed : Bool) → Log (length tasks) (record p { events = closing removed p.events })
      final last true = record {
        fired = ground (arith, tally-closing is_finish true p.events);
        acked = ground (arith, tally-closing is_final_report true p.events);
        clean = ground (arith, tally-closing is_alarm true p.events);
      }
      final last false = record {
        fired = ground (arith, tally-closing is_finish false p.events);
        acked = ground (arith, tally-closing is_final_report false p.events);
        clean = ground (arith, tally-closing is_alarm false p.events);
      }

-- A worker takes a message: nothing else changes.
pub take-Inv :
    {tasks : List JudgeTask} (s : State) (junk message : ClientTask)
    (queue : ConcurrentQueue ClientTask)
    → try_pop s.progress.queue junk ≡ (true, message, queue)
    → Inv tasks s.busy nobody nobody 0 s.progress
    → Inv tasks (message ∷ s.busy) nobody nobody 0 (record (s.progress) { queue = queue })
unfolding try_pop sent
take-Inv s junk message queue e inv = record {
  sized = inv.sized;
  counted = inv.counted;
  linked = inv.linked;
  orphaned = inv.orphaned;
  flying = λ i. go s.progress.queue.q refl i;
}
  where
    go :
        (l : List ClientTask)
        → s.progress.queue.q ≡ l
        → (i : ℕ)
        → sent i queue.q + sent i (message ∷ s.busy) ≡ active_bit (phase_at s.progress.results i)
    go [] q i = ground arith
    go (t ∷ l) q i = ground (arith, inv.flying i)

-- A task that a worker is busy with is running, and its message is the only one for it.
pub busy-active :
    {tasks : List JudgeTask} (p : Progress) (before after : List ClientTask) (message : ClientTask)
    → Inv tasks (before ++ message ∷ after) nobody nobody 0 p
    → (is_active (phase_at p.results message.id) ≡ true)
      × Inv tasks (before ++ after) nobody (λ i. i == message.id) 0 p
unfolding sent
busy-active p before after message inv = (
  running_here,
  record {
    sized = inv.sized;
    counted = inv.counted;
    linked = inv.linked;
    orphaned = inv.orphaned;
    flying = λ i. elim (Bool-cases (i == message.id)) [
      | inl e ↦ rw ((==_iff i message.id).0 e) (rw (==_refl message.id) none_left)
      | inr e ↦
          ground (
            arith,
            inv.flying i,
            sent-append i before (message ∷ after),
            sent-append i before after,
          )
    ];
  },
)
  where
    none_left : sent message.id p.queue.q + sent message.id (before ++ after) ≡ 0
    none_left = ground (
      arith,
      inv.flying message.id,
      sent-append message.id before (message ∷ after),
      sent-append message.id before after,
    )

    running_here : is_active (phase_at p.results message.id) ≡ true
    running_here =
        ground (arith, inv.flying message.id, sent-append message.id before (message ∷ after))

pub active-lt :
    (rs : List JudgeTaskResult) (i : ℕ) → is_active (phase_at rs i) ≡ true → i < length rs
unfolding phase_at
active-lt [] i h = cc
active-lt (r ∷ rs) zero h = omega arith
active-lt (r ∷ rs) (suc i) h = omega (arith, active-lt rs i h)
