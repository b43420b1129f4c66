-- ===== src/Programming/Process.antt =====
-- `process`, `summarize` and `programming_judger::distribute` of src/judge/programming.cpp: how the
-- tasks of one submission follow one another. `judge_id` stands for the pointer to the submission.
pub mod Phases
pub mod Invariant
pub mod Visit
pub mod Recursion
pub mod Growth
use judge_system.Base.{
  ℕ, zero, suc, ◌+◌, Bool, true, false, not, ◌&&◌, ◌||◌, Option, none, some, List, [], ◌∷◌, ◌++◌,
  eq_ℤ, scale_ℤ, is_negative, to_int, if◌then◌else◌, any, length, set, ltb, ◌==◌,
}
use judge_system.Status.{
  Status, pending, running, accepted, partial_correct, compilation_error,
  executable_compilation_error, dependency_not_satisfied, time_limit_exceeded, out_of_contest_time,
  random_gen_error, compare_error, system_error, status_eq,
}
use judge_system.Queue.{ConcurrentQueue, push}
use judge_system.Submission.{ClientTask}
use judge_system.Programming.{
  JudgeTask, JudgeTaskResult, DependencyCondition, on_accepted, on_partial_correct,
  on_non_time_limit, new_result,
}

-- What leaves the program, and what it logs about its own state.
pub data Event : Type 0 where
  monitor_judge_time : Event
  summarized : (ack : Bool) → Event
  work_dir_removed : Event
  judge_finished : Event
  test_case_exceeded : Event
  no_running_task : Event

pub record Progress : Type 0 where
  pub results : List JudgeTaskResult
  pub finished : ℕ
  pub queue : ConcurrentQueue ClientTask
  pub events : List Event

unfoldable pub satisfied : DependencyCondition → Status → Bool
satisfied on_accepted s = status_eq s accepted
satisfied on_partial_correct s = status_eq s partial_correct || status_eq s accepted
satisfied on_non_time_limit s =
    not (status_eq s system_error)
    && not (status_eq s compare_error)
    && not (status_eq s compilation_error)
    && not (status_eq s dependency_not_satisfied)
    && not (status_eq s time_limit_exceeded)
    && not (status_eq s executable_compilation_error)
    && not (status_eq s out_of_contest_time)
    && not (status_eq s random_gen_error)

-- results[i].status = s
abbrev pub set_status : List JudgeTaskResult → ℕ → Status → List JudgeTaskResult
set_status [] i s = []
set_status (r ∷ rs) zero s = record r { status = s } ∷ rs
set_status (r ∷ rs) (suc i) s = r ∷ set_status rs i s

abbrev pub client_task : ℕ → ℕ → JudgeTask → ClientTask
client_task judge_id i kase = record {
  submit = judge_id;
  id = i;
  name = kase.tag;
  cores = kase.cores;
  expect_runtime = scale_ℤ 5 kase.time_limit;
}

-- Task `i` is marked as running and sent to the workers.
unfoldable pub dispatch : ℕ → ℕ → JudgeTask → Progress → Progress
dispatch judge_id i kase p = record p {
  results = set_status p.results i running;
  queue = push p.queue (client_task judge_id i kase);
}

-- The result of a task whose dependency failed.
abbrev pub unsatisfied : ℕ → JudgeTask → JudgeTaskResult
unsatisfied i kase = new_result dependency_not_satisfied kase.tag i

unfoldable pub summarize : Bool → Progress → Progress
summarize reserve p =
    let removedir = not (any (λ r. status_eq r.status system_error) p.results) in
    record p {
      events =
          p.events
          ++ monitor_judge_time
            ∷ summarized true
            ∷ (if not reserve && removedir then work_dir_removed ∷ [] else []);
    }

-- The end of `process`, after `++submit.finished`. `reserve`: is RESERVE_SUBMISSION set?
unfoldable pub report : Bool → List JudgeTask → Progress → Progress
unfolding summarize
report reserve tasks p =
    if p.finished == length tasks
    then (let q = summarize reserve p in record q { events = q.events ++ judge_finished ∷ [] })
    else if ltb (length tasks) p.finished
    then record p { events = p.events ++ test_case_exceeded ∷ [] }
    else record p {
      events =
          p.events
          ++ (if any (λ r. status_eq r.status running) p.results then [] else no_running_task ∷ [])
          ++ summarized false ∷ [];
    }

-- The loop over the tasks, from index `i`; `child` is the recursive call of `process`.
unfoldable pub visit :
    ℕ
    → (JudgeTaskResult → Progress → Option Progress)
    → JudgeTaskResult
    → ℕ
    → List JudgeTask
    → Progress
    → Option Progress
unfolding dispatch satisfied
visit judge_id child result i [] p = some p
visit judge_id child result i (kase ∷ rest) p =
    elim (if eq_ℤ kase.depends_on (to_int result.id)
      then (if satisfied kase.depends_cond result.status
          then some (dispatch judge_id i kase p)
          else child (unsatisfied i kase) p)
      else some p) [ none ↦ none | some q ↦ visit judge_id child result (suc i) rest q ]

abbrev pub finish : Progress → Progress
finish p = record p { finished = p.finished + 1 }

abbrev pub store : JudgeTaskResult → Progress → Progress
store result p = record p { results = set p.results result.id result }

-- `process`; the first number bounds the depth of the recursion, and `none` is a recursion that goes
-- deeper.
unfoldable pub process :
    ℕ → ℕ → Bool → List JudgeTask → Bool → JudgeTaskResult → Progress → Option Progress
unfolding visit report
process zero judge_id reserve tasks is_summarize result p = none
process (suc depth) judge_id reserve tasks is_summarize result p =
    elim (visit judge_id (process depth judge_id reserve tasks false) result 0 tasks
      (store result p)) [
        | none ↦ none
        | some q ↦ some (if is_summarize then report reserve tasks (finish q) else finish q)
      ]

-- results.resize(n)
abbrev pub resize : ℕ → JudgeTaskResult → List JudgeTaskResult → List JudgeTaskResult
resize zero fresh rs = []
resize (suc n) fresh [] = fresh ∷ resize n fresh []
resize (suc n) fresh (r ∷ rs) = r ∷ resize n fresh rs

-- Every result from index `i` on becomes pending.
abbrev pub reset : ℕ → List JudgeTaskResult → List JudgeTaskResult
reset i [] = []
reset i (r ∷ rs) = record r { status = pending; id = i } ∷ reset (suc i) rs

-- The tasks from index `i` on that depend on no other are sent to the workers.
unfoldable pub send_roots : ℕ → ℕ → List JudgeTask → Progress → Progress
unfolding dispatch
send_roots judge_id i [] p = p
send_roots judge_id i (kase ∷ rest) p =
    send_roots judge_id (suc i) rest
      (if is_negative kase.depends_on then dispatch judge_id i kase p else p)

unfoldable pub distribute : ℕ → Status → List JudgeTask → Progress → Progress
unfolding send_roots
distribute judge_id junk tasks p =
    send_roots judge_id 0 tasks
      (record p { results = reset 0 (resize (length tasks) (new_result junk "" 0) p.results) })
