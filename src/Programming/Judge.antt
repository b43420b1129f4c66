-- ===== src/Programming/Judge.antt =====
-- `judge_impl`, `compile` and `programming_judger::judge` of src/judge/programming.cpp: how a task comes
-- to its result. The scripts, the file system and the random generator are outside: `World`.
pub mod Verdict
pub mod BaseDirs
pub mod Answered
use judge_system.Base.{
  ◌==◌, ℕ, zero, suc, ◌+◌, ◌/◌, ◌-◌, ◌^◌, Bool, true, false, not, ◌&&◌, ◌||◌, Option, none, some,
  List, [], ◌∷◌, ◌++◌, String, ℤ, pos, negsuc, str_eq, eq_ℤ, leb_ℤ, is_negative, get_elem?,
  if◌then◌else◌, ltb, set, length,
}
use mathlib.Core.List.{reverse}
use judge_system.Status.{
  Status, pending, accepted, partial_correct, compilation_error, executable_compilation_error,
  wrong_answer, runtime_error, time_limit_exceeded, memory_limit_exceeded, output_limit_exceeded,
  presentation_error, restrict_function, segmentation_fault, floating_point_error, random_gen_error,
  compare_error, system_error, status_eq,
}
use judge_system.Submission.{ClientTask}
use judge_system.Programming.{
  FilePath, Rational, JudgeTask, JudgeTaskResult, ProgrammingSubmission, new_result, Program,
  ActionResult,
}
use judge_system.Programming.Actions.{Files, act_all}
use judge_system.Programming.Data.{
  CheckRun, Fetched, done, executable_error, compile_error, failed, World, random,
  generate_random_data, Selected, data_dir, gave_up, unavailable, crashed, or_dir, cached_random,
  fresh_random, select_random, select_standard,
}

-- `error_codes` of include/config.hpp, as far as `judge_impl` tells them apart.
unfoldable pub verdict : ℤ → Status
verdict ret =
    if eq_ℤ ret (pos 2)
    then system_error
    else if eq_ℤ ret (pos 42)
    then accepted
    else if eq_ℤ ret (pos 43)
    then wrong_answer
    else if eq_ℤ ret (pos 54)
    then partial_correct
    else if eq_ℤ ret (pos 44)
    then presentation_error
    else if eq_ℤ ret (pos 47)
    then compare_error
    else if eq_ℤ ret (pos 48)
    then runtime_error
    else if eq_ℤ ret (pos 49)
    then floating_point_error
    else if eq_ℤ ret (pos 50)
    then segmentation_fault
    else if eq_ℤ ret (pos 51)
    then output_limit_exceeded
    else if eq_ℤ ret (pos 52)
    then time_limit_exceeded
    else if eq_ℤ ret (pos 53)
    then memory_limit_exceeded
    else if eq_ℤ ret (pos 55)
    then restrict_function
    else system_error

-- The task that the run directory is taken from.
abbrev pub file_parent : JudgeTask → ℤ
file_parent t = if is_negative t.file_depends_on then t.depends_on else t.file_depends_on

-- The run directories of the tasks up from `taskid`, the nearest first; the number bounds the
-- rounds of the loop, and `none` is a loop that goes on, or one that reads past the tasks.
unfoldable pub base_dirs : ℕ → List JudgeTask → List JudgeTaskResult → ℤ → Option (List FilePath)
base_dirs zero tasks results taskid = none
base_dirs (suc rounds) tasks results (negsuc _) = some []
base_dirs (suc rounds) tasks results (pos i) =
    let rest : ℤ → Option (List FilePath) = λ up. base_dirs rounds tasks results up in
    elim (get_elem? results i) [
      | none ↦ some []
      | some r ↦ elim (get_elem? tasks i) [
        | none ↦ none
        | some t ↦ elim (rest (file_parent t)) [
          | none ↦ none
          | some dirs ↦ some (if status_eq r.status pending then dirs else r.run_dir ∷ dirs)
        ]
      ]
    ]

-- How `judge_impl` ends, if it does.
pub data Outcome : Type 0 where
  returned : JudgeTaskResult → List String → Outcome
  thrown not_returned : Outcome

-- The result with the reports of the actions, if these do not throw.
unfoldable pub with_actions : JudgeTaskResult → Option (List ActionResult × List String) → Outcome
with_actions r none = thrown
with_actions r (some (reports, uploads)) = returned (record r { actions = reports }) uploads

-- The result with what the run of the check script left.
abbrev pub scored : JudgeTaskResult → CheckRun → Rational → JudgeTaskResult
scored result run score = record result {
  status = verdict run.ret;
  score = score;
  report = run.report;
  error_log = run.error_log;
  run_time = run.wall_time;
  memory_used = run.memory;
}

-- The result that `judge_impl` fills in, from the score if the file holds one.
unfoldable pub filed : World → JudgeTask → JudgeTaskResult → CheckRun → Option Rational → Outcome
unfolding verdict act_all with_actions
filed w task result run none = thrown
filed w task result run (some score) =
    let r = scored result run score in with_actions r (act_all w.files task.actions r)

-- What `judge_impl` makes of the run of the check script.
unfoldable pub checked : World → JudgeTask → JudgeTaskResult → CheckRun → Outcome
unfolding filed verdict
checked w task result run =
    let status : Status = verdict run.ret in
    filed w task result run (
      if status_eq status accepted
      then some (record { numerator = pos 1; denominator = pos 1 })
      else if status_eq status partial_correct
      then w.ratio run.numerator run.denominator
      else some result.score)

abbrev pub task_at : List JudgeTask → ℤ → Option JudgeTask
task_at tasks (pos i) = get_elem? tasks i
task_at tasks (negsuc _) = none

-- The run of the check script on the data in `dir`.
unfoldable pub judge_data :
    ℕ
    → World
    → List JudgeTask
    → List JudgeTaskResult
    → JudgeTask
    → JudgeTaskResult
    → FilePath
    → Outcome
unfolding base_dirs checked
judge_data rounds w tasks results task result dir =
    let used : FilePath = elim w.copy_dir [ none ↦ dir | some copy ↦ copy ] in
    elim (base_dirs rounds tasks results (file_parent task)) [
      | none ↦ not_returned
      | some dirs ↦ checked w task (record result { data_dir = used }) (w.check used (reverse dirs))
    ]

abbrev pub judge_selected :
    ℕ
    → World
    → List JudgeTask
    → List JudgeTaskResult
    → JudgeTaskResult
    → Selected × JudgeTask
    → Outcome × JudgeTask
judge_selected rounds w tasks results result (data_dir dir, task) =
    (judge_data rounds w tasks results task result dir, task)
judge_selected rounds w tasks results result (gave_up failure, task) = (returned failure [], task)
judge_selected rounds w tasks results result (unavailable, task) = (thrown, task)
judge_selected rounds w tasks results result (crashed, task) = (not_returned, task)

-- The outcome, and the task as it is left. `count` is the number of entries of `test_data`.
unfoldable pub judge_impl :
    ℕ
    → World
    → Status
    → ℕ
    → ℕ
    → List JudgeTask
    → List JudgeTaskResult
    → JudgeTask
    → Outcome × JudgeTask
unfolding select_random select_standard judge_data
judge_impl rounds w junk id count tasks results task =
    let father : Option JudgeTask = task_at tasks task.depends_on in
    let result : JudgeTaskResult = record (new_result junk task.tag id) {
      run_dir = w.work_dir ++ w.run_name ∷ [];
    } in
    if task.is_random
    then judge_selected rounds w tasks results result (select_random w father task result)
    else judge_selected rounds w tasks results result (select_standard w count father task, task)

-- `compile` of one program.
unfoldable pub compile_program : Bool → Fetched → JudgeTaskResult → JudgeTaskResult
compile_program executable done r = record r { status = accepted }
compile_program executable (executable_error log report) r = record r {
  status = executable_compilation_error;
  error_log = log;
  report = report;
}
compile_program executable (compile_error log report) r = record r {
  status = if executable then executable_compilation_error else compilation_error;
  error_log = log;
  report = report;
}
compile_program executable (failed what) r = record r { status = system_error; error_log = what }

-- One of the programs that come with the problem, unless an earlier one failed.
unfoldable pub compile_extra :
    World → Option Program → Bool × JudgeTaskResult → Bool × JudgeTaskResult
unfolding compile_program
compile_extra w p (false, r) = (false, r)
compile_extra w none (true, r) = (true, r)
compile_extra w (some program) (true, r) =
    let c : JudgeTaskResult = compile_program true (w.fetch program) r in
    let s : Status =
      (if status_eq c.status compilation_error then executable_compilation_error else c.status) in
    (status_eq s accepted, record c { status = s })

unfoldable pub compile : World → Status → ℕ → ProgrammingSubmission → JudgeTask → JudgeTaskResult
unfolding compile_extra
compile w junk id sub task =
    let result : JudgeTaskResult = new_result junk task.tag id in
    let first : Bool × JudgeTaskResult = elim sub.submission [
      | none ↦ (true, result)
      | some program ↦
          let c : JudgeTaskResult =
            compile_program false (w.fetch program)
              (record result { run_dir = w.work_dir ++ "compile" ∷ [] }) in
          (
            status_eq c.status accepted,
            record c { run_time = w.compile_time; memory_used = w.compile_memory },
          )
    ] in
    (compile_extra w sub.compare
      (compile_extra w sub.standard (compile_extra w sub.random first))).1

-- The result that `programming_judger::judge` hands to `process`; an exception of `judge_impl` with the
-- text `what` becomes a system error. `none` is a call that does not return.
unfoldable pub judge :
    ℕ
    → World
    → Status
    → ℕ
    → String
    → ProgrammingSubmission
    → List JudgeTaskResult
    → JudgeTask
    → Option JudgeTaskResult
unfolding judge_impl compile
judge rounds w junk id what sub results task =
    if str_eq task.check_script "compile"
    then some (compile w junk id sub task)
    else elim (judge_impl rounds w junk id (length sub.test_data) sub.judge_tasks results task).0 [
      | thrown ↦
          some (record (new_result junk task.tag id) { status = system_error; error_log = what })
      | returned r uploads ↦ some r
      | not_returned ↦ none
    ]
