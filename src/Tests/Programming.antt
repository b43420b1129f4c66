-- ===== src/Tests/Programming.antt =====
-- A submission with a compilation, a standard test that needs it, and a memory test that needs the
-- standard test (the shape that src/server/mcourse/mcourse.cpp builds).
use judge_system.Base.{
  ℕ, ◌+◌, ◌≤◌, ◌<◌, ◌≡◌, refl, ◌↔◌, ◌⊎◌, true, false, none, some, [], ◌∷◌, pos, negsuc, length,
  arith, to_int,
}
use judge_system.Status.{Status, status_eq}
use judge_system.Status.Phase.{is_settled, settled}
use judge_system.Queue.{try_pop, push, empty}
use judge_system.Submission.{Submission, ClientTask}
use judge_system.Programming.{
  JudgeTask, JudgeTaskResult, ProgrammingSubmission, default_task, new_result, empty_program,
}
use judge_system.Programming.Verify.{verify}
use judge_system.Programming.Verify.Accepts.{IsComplete, verify_iff}
use judge_system.Programming.Process.{Progress, process}
use judge_system.Programming.Process.Phases.{phase_at, sent}
use judge_system.Programming.Schedule.{State, Step, take, answer, Reach, here, next, start}
use judge_system.Programming.Schedule.Steps.{tally, is_finish, is_final_report, is_alarm}
use judge_system.Programming.Schedule.Submitted.{
  reported_once, one_message, answer_processed, idle_complete, work_bounded,
}

abbrev pub base : Submission
base = record {
  judge_id = 7;
  category = "mcourse";
  kind = "programming";
  sub_id = "12";
  prob_id = "1001";
  updated_at = pos 1600000000;
  queue_id = "";
  user_id = "";
  contest_id = "";
  contest_prob_id = "";
  submit_time = pos 0;
  contest_start_time = pos 0;
  contest_end_time = pos 0;
  result = "SUCCESS";
}

abbrev pub compile_task : JudgeTask
compile_task = record default_task { tag = "0"; check_script = "compile" }

abbrev pub standard_task : JudgeTask
standard_task = record default_task {
  tag = "3";
  check_script = "standard";
  testcase_id = pos 0;
  depends_on = pos 0;
}

abbrev pub memory_task : JudgeTask
memory_task = record default_task { tag = "1"; check_script = "standard"; depends_on = pos 1 }

abbrev pub sample : ProgrammingSubmission
sample = record {
  base = base;
  judge_tasks = compile_task ∷ standard_task ∷ memory_task ∷ [];
  test_data = record { inputs = "testdata.in" ∷ []; outputs = [] } ∷ [];
  submission = some (record empty_program { source_files = "main.cpp" ∷ [] });
  standard = none;
  random = none;
  compare = none;
}

pub sample-verify : verify (some sample) ≡ true
unfolding verify to_int
sample-verify = refl

abbrev s0 : State
s0 = start 7 Status.pending sample.judge_tasks []

abbrev result_of : ℕ → Status → JudgeTaskResult
result_of i s = record (new_result s "" i) { status = s }

abbrev after : ℕ → Status → State → State
after i s st = elim (process 3 7 false sample.judge_tasks true (result_of i s) st.progress) [
  | none ↦ st
  | some q ↦ record { progress = q; busy = [] }
]

abbrev pub message : ℕ → JudgeTask → ClientTask
message i t = record { submit = 7; id = i; name = t.tag; cores = 1; expect_runtime = negsuc 4999 }

abbrev taken : ClientTask → State → State
taken m st = record { progress = record (st.progress) { queue = empty }; busy = m ∷ [] }

-- The compilation is with a worker; then it has passed and the standard test is with a worker; then
-- that has failed, and with it the memory test.
abbrev pub s1 : State
s1 = taken (message 0 compile_task) s0

abbrev s2 : State
s2 = after 0 Status.accepted s1

abbrev s3 : State
s3 = taken (message 1 standard_task) s2

abbrev s4 : State
s4 = after 1 Status.wrong_answer s3

abbrev pub Reached : State → Type 0
Reached = Reach 7 false sample.judge_tasks s0

pub r1 : Reached s1
unfolding start try_pop push
r1 = next here (take (message 9 default_task) (message 0 compile_task) empty refl)

r2 : Reached s2
unfolding start process to_int push status_eq
r2 =
    next r1
      (answer [] [] (message 0 compile_task) (result_of 0 Status.accepted) _ refl refl refl refl)

r3 : Reached s3
unfolding start process try_pop to_int push status_eq
r3 = next r2 (take (message 9 default_task) (message 1 standard_task) empty refl)

step4 : Step 7 false sample.judge_tasks s3 s4
unfolding start process to_int push status_eq
step4 =
    answer [] [] (message 1 standard_task) (result_of 1 Status.wrong_answer) _ refl refl refl refl

r4 : Reached s4
r4 = next r3 step4

-- The failed test takes its dependents with it, and the submission ends.
ends_early :
    (s4.progress.finished ≡ 3)
    × (phase_at s4.progress.results 2 ≡ settled)
    × (tally is_finish s4.progress.events ≡ 1)
unfolding start process phase_at tally to_int push status_eq
ends_early = (refl, refl, refl)

verify_iff_example : (verify (some sample) ≡ true) ↔ IsComplete sample
verify_iff_example = verify_iff sample (omega arith)

reported_once_example :
    (tally is_finish s4.progress.events ≡ 1)
    × (tally is_final_report s4.progress.events ≡ 1)
    × (tally is_alarm s4.progress.events ≡ 0)
    × (s4.progress.finished ≤ 3)
unfolding start process to_int push status_eq
reported_once_example =
    reported_once sample (omega arith) sample-verify false Status.pending [] refl s4 r4

one_message_example : sent 1 s3.progress.queue.q + sent 1 s3.busy ≡ 1
unfolding start process phase_at to_int push status_eq
one_message_example = one_message sample (omega arith) sample-verify false Status.pending [] s3 r3 1

answer_processed_example :
    (q : Progress) × (process 3 7 false sample.judge_tasks true
        (result_of 1 Status.wrong_answer)
        s3.progress
      ≡ some q)
    × (s3.progress.finished < q.finished)
answer_processed_example =
    answer_processed sample (omega arith) sample-verify false Status.pending [] s3 r3 [] []
      (message 1 standard_task) (result_of 1 Status.wrong_answer) refl refl refl

idle_complete_example :
    (s4.progress.finished ≡ 3)
    × ((i : ℕ) → is_settled (phase_at s4.progress.results i) ≡ true)
    × (tally is_finish s4.progress.events ≡ 1)
unfolding start process to_int push status_eq
idle_complete_example =
    idle_complete sample (omega arith) sample-verify false Status.pending [] s4 r4 refl refl

work_bounded_example :
    (s3.progress.finished < s4.progress.finished)
    ⊎ ((s3.progress.finished ≡ s4.progress.finished)
        × (length s4.progress.queue.q < length s3.progress.queue.q))
work_bounded_example =
    work_bounded sample (omega arith) sample-verify false Status.pending [] s3 s4 r3 step4
