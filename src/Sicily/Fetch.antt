-- ===== src/Sicily/Fetch.antt =====
-- `fetch_queue` of src/server/sicily/sicily.cpp.
pub mod Accepted
use judge_system.Base.{
  ℕ, suc, ◌+◌, ◌^◌, Bool, true, false, String, List, [], ◌∷◌, Option, none, some, ℤ, pos, negsuc,
  ◌+ℤ◌, scale_ℤ, if◌then◌else◌, str_eq, eq_ℤ, not,
}
use judge_system.Submission.{Submission}
use judge_system.Programming.{
  JudgeTask, JudgeTaskResult, ProgrammingSubmission, Program, TestCaseData, empty_program,
  default_task, DependencyCondition,
}

-- A row of the join of the tables queue and status.
pub record QueueRow : Type 0 where
  pub qid : String
  pub sid : String
  pub uid : String
  pub pid : String
  pub language : String
  pub time : String
  pub cid : String
  pub cpid : String
  pub sourcecode : String

-- Times in milliseconds.
pub record Problem : Type 0 where
  pub time_limit : ℤ
  pub memory_limit : ℤ
  pub special_judge : ℤ
  pub has_framework : ℤ

-- The answers of the database and of the file `.DIR`, the reading of a time stamp, and the limits of
-- src/config.cpp.
pub record Site : Type 0 where
  pub queue : List QueueRow
  pub contest : Option (String × ℤ)
  pub problem : Option Problem
  pub cases : List (String × String)
  pub time_stamp : String → ℤ
  pub script_time_limit : ℤ
  pub script_mem_limit : ℤ
  pub script_file_limit : ℤ

unfoldable pub compile_task : Site → JudgeTask
compile_task site = record default_task {
  limits = record {
    memory_limit = site.script_mem_limit;
    time_limit = site.script_time_limit;
    file_limit = site.script_file_limit;
    proc_limit = pos 233;
  };
  depends_on = negsuc 0;
  check_script = "compile";
  is_random = false;
  testcase_id = negsuc 0;
  tag = "Compile";
}

abbrev pub is_set : ℤ → Bool
is_set flag = not (eq_ℤ flag (pos 0))

-- The task of the `i`-th test; it depends on the task before its own.
abbrev pub case_task : Problem → ℕ → JudgeTask
case_task problem i = record default_task {
  limits = record {
    memory_limit = problem.memory_limit;
    time_limit = problem.time_limit;
    file_limit = pos 32768;
    proc_limit = negsuc 0;
  };
  check_script = "standard";
  run_script = "standard";
  compare_script = if is_set problem.special_judge then "" else "diff-all";
  is_random = false;
  testcase_id = pos i;
  depends_on = pos i;
  depends_cond = DependencyCondition.on_accepted;
}

-- The tasks of the tests from index `i` on.
unfoldable pub case_tasks : Problem → ℕ → List (String × String) → List JudgeTask
case_tasks problem i [] = []
case_tasks problem i (files ∷ rest) = case_task problem i ∷ case_tasks problem (suc i) rest

abbrev case_data : List (String × String) → List TestCaseData
case_data [] = []
case_data (files ∷ rest) =
    record { inputs = "testdata.in" ∷ []; outputs = "testdata.out" ∷ [] } ∷ case_data rest

abbrev special_judge_program : Program
special_judge_program = record empty_program {
  language = "bash";
  source_files = "run" ∷ [];
  assist_files = "spjudge" ∷ [];
}

-- The program of a submission, and with a framework.
abbrev plain_program : String → Program
plain_program language = record empty_program {
  language = language;
  source_files = "source.cpp" ∷ [];
}

abbrev framed_program : String → Program
framed_program language = record empty_program {
  language = language;
  source_files = "framework.cpp" ∷ [];
  assist_files = "source.cpp" ∷ [];
}

-- The time of the contest, if there is one and it is known.
abbrev contest_times : Site → Submission → Submission
contest_times site sub = if str_eq sub.contest_id "" then sub else elim site.contest [
  | none ↦ sub
  | some contest ↦ record sub {
    contest_start_time = site.time_stamp contest.0;
    contest_end_time = scale_ℤ 3600 contest.1 +ℤ site.time_stamp contest.0;
  }
]

abbrev fetched : Site → Submission → QueueRow → Submission
fetched site base row = contest_times site (record base {
  category = "sicily";
  kind = "programming";
  queue_id = row.qid;
  sub_id = row.sid;
  user_id = row.uid;
  prob_id = row.pid;
  contest_id = row.cid;
  contest_prob_id = row.cpid;
  submit_time = if str_eq row.time "" then pos 0 else site.time_stamp row.time;
})

abbrev pub with_problem : Site → Submission → QueueRow → Option Problem → ProgrammingSubmission
with_problem site sub row none = record {
  base = sub;
  judge_tasks = compile_task site ∷ [];
  test_data = [];
  submission = some (plain_program row.language);
  standard = none;
  random = none;
  compare = none;
}
with_problem site sub row (some problem) = record {
  base = sub;
  judge_tasks = compile_task site ∷ case_tasks problem 0 site.cases;
  test_data = case_data site.cases;
  submission = some (
      if is_set problem.has_framework
      then framed_program row.language
      else plain_program row.language);
  standard = none;
  random = none;
  compare = if is_set problem.special_judge then some special_judge_program else none;
}

abbrev pub from_rows :
    Site → Submission → List QueueRow → Option (ProgrammingSubmission × Option JudgeTaskResult)
from_rows site base [] = none
from_rows site base (row ∷ rest) =
    some (with_problem site (fetched site base row) row site.problem, none)

-- The submission, with its field `config`, which is an empty `std::any`; `none` if the queue is empty.
unfoldable pub fetch_queue :
    Site → Submission → Option (ProgrammingSubmission × Option JudgeTaskResult)
unfolding compile_task case_tasks
fetch_queue site base = from_rows site base site.queue
