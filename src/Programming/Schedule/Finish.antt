-- ===== src/Programming/Schedule/Finish.antt =====
-- What the workers and `process` achieve together for one submission: every answer is processed, the
-- end is reached, and it is reported once.
use judge_system.Base.{
  ℕ, ◌≤◌, ◌<◌, ◌≡◌, refl, Bool, true, some, List, ◌∷◌, ◌++◌, length, arith, ◌∙◌, sym,
}
use mathlib.Core.Option.{some-injective}
use judge_system.Status.Phase.{phase, is_active, is_settled}
use judge_system.Submission.{ClientTask}
use judge_system.Programming.{JudgeTask, JudgeTaskResult}
use judge_system.Programming.Process.{Progress, Event, process, report}
use judge_system.Programming.Process.Phases.{phase_at}
use judge_system.Programming.Process.Invariant.{IsForest, Inv, nobody, Inv-congr}
use judge_system.Programming.Process.Recursion.{process-Ends}
use judge_system.Programming.Process.Growth.{process_grows, process-report, report-eq-record}
use judge_system.Programming.Schedule.{State, Step, take, answer}
use judge_system.Programming.Schedule.Steps.{Log, report-Log, take-Inv, busy-active, active-lt}

pub record Good (tasks : List JudgeTask) (s : State) : Type 0 where
  pub inv : Inv tasks s.busy nobody nobody 0 s.progress
  pub log : Log (length tasks) s.progress

module _ {tasks : List JudgeTask} (forest : IsForest tasks) (judge_id : ℕ) (reserve : Bool) where
  events-Inv :
      {busy : List ClientTask} {p : Progress} (es : List Event)
      → Inv tasks busy nobody nobody 0 p
      → Inv tasks busy nobody nobody 0 (record p { events = es })
  events-Inv es inv = record {
    sized = inv.sized;
    counted = inv.counted;
    linked = inv.linked;
    orphaned = inv.orphaned;
    flying = inv.flying;
  }

  -- What `process` makes of the answer to a message that a worker holds.
  pub record Answered (before after : List ClientTask) (p : Progress) (result : JudgeTaskResult)
      : Type 0 where
    pub q : Progress
    pub called : process (length tasks) judge_id reserve tasks true result p ≡ some q
    pub good : Good tasks (record { progress = q; busy = before ++ after })
    pub grown : p.finished < q.finished

  pub answered :
      (before after : List ClientTask) (message : ClientTask) (result : JudgeTaskResult) (s : State)
      → s.busy ≡ before ++ message ∷ after
      → result.id ≡ message.id
      → is_settled (phase result.status) ≡ true
      → Good tasks s
      → Answered before after s.progress result
  answered before after message result s held same done good =
      let p : Progress = s.progress in
      let inv : Inv tasks (before ++ message ∷ after) nobody nobody 0 p = rw (← held) good.inv in
      let (active, hidden) = busy-active p before after message inv in
      let busy_here : is_active (phase_at p.results result.id) ≡ true = rw same active in
      let (q, e, inv', ev) =
        process-Ends {busy = before ++ after} forest judge_id (length tasks) reserve result p nobody
          0 (omega (arith, active-lt p.results result.id busy_here, inv.sized)) (omega arith)
          (rw same hidden) (rw busy_here refl) done in
      let grown : p.finished < q.finished =
        process_grows (length tasks) judge_id reserve tasks result p q e in
      let counted : q.finished ≤ length tasks = omega (arith, inv'.counted) in
      let settled' : Inv tasks (before ++ after) nobody nobody 0 q = Inv-congr (λ j. refl) inv' in
      let same_but = report-eq-record reserve tasks q in
      record {
        q = report reserve tasks q;
        called = process-report (length tasks) judge_id reserve tasks result p q e;
        good = record {
          inv = rw same_but (events-Inv (report reserve tasks q).events settled');
          log =
              report-Log forest reserve settled' (rw ev (ground (arith, good.log.fired)))
                (rw ev (ground (arith, good.log.acked))) (rw ev good.log.clean);
        };
        grown = rw same_but grown;
      }

  pub Step-Good : {s t : State} → Step judge_id reserve tasks s t → Good tasks s → Good tasks t
  Step-Good {s} (take junk message queue e) good = record {
    inv = take-Inv s junk message queue e good.inv;
    log = record { fired = good.log.fired; acked = good.log.acked; clean = good.log.clean };
  }
  Step-Good {s} (answer before after message result q held same done e) good =
      let a = answered before after message result s held same done good in
      let same_q : a.q ≡ q = some-injective _ _ (sym a.called ∙ e) in rw same_q at (a.good)
