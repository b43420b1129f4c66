-- ===== src/Programming/Schedule.antt =====
-- The workers and one submission: a worker takes a message off the queue and, in any order, answers
-- with a result, which `programming_judger::judge` of src/judge/programming.cpp hands to `process` under
-- the submission's mutex.
pub mod Start
pub mod Steps
pub mod Finish
pub mod Submitted
use judge_system.Base.{ℕ, ◌≡◌, Bool, true, List, [], ◌∷◌, ◌++◌, some, length}
use judge_system.Status.{Status}
use judge_system.Status.Phase.{phase, is_settled}
use judge_system.Queue.{ConcurrentQueue, try_pop, empty}
use judge_system.Submission.{ClientTask}
use judge_system.Programming.{JudgeTask, JudgeTaskResult}
use judge_system.Programming.Process.{Progress, process, distribute}

-- `busy` lists the messages that workers have taken and not yet answered.
pub record State : Type 0 where
  pub progress : Progress
  pub busy : List ClientTask

-- A submission as `distribute` leaves it, its queue empty before. It has no lock against the workers;
-- that it ends before they start is exact if one task depends on none, and else leaves out the answers
-- that come while later tasks are still to be sent.
unfoldable pub start : ℕ → Status → List JudgeTask → List JudgeTaskResult → State
unfolding distribute
start judge_id junk tasks old = record {
  progress =
      distribute judge_id junk tasks
        (record { results = old; finished = 0; queue = empty; events = [] });
  busy = [];
}

module _ (judge_id : ℕ) (reserve : Bool) (tasks : List JudgeTask) where
  pub data Step (s : State) : State → Type 0 where
    take :
        (junk message : ClientTask) (queue : ConcurrentQueue ClientTask)
        → try_pop s.progress.queue junk ≡ (true, message, queue)
        → Step s
            (record { progress = record (s.progress) { queue = queue }; busy = message ∷ s.busy })
    answer :
        (before after : List ClientTask) (message : ClientTask) (result : JudgeTaskResult)
        (q : Progress)
        → s.busy ≡ before ++ message ∷ after
        → result.id ≡ message.id
        → is_settled (phase result.status) ≡ true
        → process (length tasks) judge_id reserve tasks true result s.progress ≡ some q
        → Step s (record { progress = q; busy = before ++ after })

  pub data Reach (s : State) : State → Type 0 where
    here : Reach s s
    next : {t u : State} → Reach s t → Step t u → Reach s u
