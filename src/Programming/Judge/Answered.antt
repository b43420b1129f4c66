-- ===== src/Programming/Judge/Answered.antt =====
-- A worker that judges the task of its message, from the start of `programming_judger::judge` to the
-- return of the `process` that it calls.
use judge_system.Base.{
  ◌+◌, ◌^◌, ◌≤◌, ◌<◌, ◌≡◌, Bool, true, some, List, ◌∷◌, ◌++◌, String, length, get_elem?,
}
use judge_system.Status.{Status}
use judge_system.Submission.{ClientTask}
use judge_system.Programming.{JudgeTask, JudgeTaskResult, ProgrammingSubmission}
use judge_system.Programming.Verify.{verify}
use judge_system.Programming.Process.{Progress, process}
use judge_system.Programming.Schedule.{State, Reach, start}
use judge_system.Programming.Schedule.Submitted.{answer_processed}
use judge_system.Programming.Judge.{judge}
use judge_system.Programming.Data.{World}
use judge_system.Programming.Judge.BaseDirs.{FilesEarlier}
use judge_system.Programming.Judge.Verdict.{DataNamed, judge_returns}

-- In every state that the workers can bring a submission of at most 2^31 tasks to that `verify` has
-- accepted, whichever worker judges the task of its message next, seeing results of as many tasks as
-- there are: if every task takes its files from an earlier one or from none, every test that is not
-- random and names a set of data names one of the submission's, and at least two sets of
-- random data may be cached, `judge` comes to a result whatever the scripts do, `process` takes it,
-- and more tasks are finished than before.
pub judge-process :
    (sub : ProgrammingSubmission)
    → length sub.judge_tasks ≤ 2 ^ 31
    → verify (some sub) ≡ true
    → FilesEarlier sub.judge_tasks
    → DataNamed sub
    → (reserve : Bool) (junk : Status) (old : List JudgeTaskResult) (s : State)
    → Reach sub.judge_id reserve sub.judge_tasks (start sub.judge_id junk sub.judge_tasks old) s
    → (before after : List ClientTask) (message : ClientTask) → s.busy ≡ before ++ message ∷ after
    → (task : JudgeTask) → get_elem? sub.judge_tasks message.id ≡ some task
    → (seen : List JudgeTaskResult) → length seen ≡ length sub.judge_tasks
    → (w : World) (junk' : Status) (what : String) → 2 ≤ w.max_random_data_num
    → (r : JudgeTaskResult) × (q : Progress) × (judge
          (length sub.judge_tasks + 1)
          w
          junk'
          message.id
          what
          sub
          seen
          task
        ≡ some r)
      × (process (length sub.judge_tasks) sub.judge_id reserve sub.judge_tasks true r s.progress
          ≡ some q)
      × (s.progress.finished < q.finished)
judge-process sub few ok up named reserve junk old s reach before after message held task at_ seen
      len w junk' what two =
    let (r, came, (same, final)) =
      judge_returns sub few ok up named seen len message.id task at_ w junk' what two in
    let (q, called, grown) =
      answer_processed sub few ok reserve junk old s reach before after message r held same final in
    (r, q, came, called, grown)
