-- ===== src/Programming.antt =====
-- include/judge/programming.hpp and `program_limit` of include/program.hpp: the data of a programming
-- submission. A `double` of seconds is a number of milliseconds, a path the list of its components,
-- and a program or asset the names of its files.
pub mod Verify
pub mod Process
pub mod Schedule
pub mod Actions
pub mod Data
pub mod Judge
use judge_system.Base.{ℕ, ℤ, negsuc, Bool, String, List, Option, none, [], pos, false}
use judge_system.Status.{Status}
use judge_system.Submission.{Submission}

abbrev pub FilePath : Type 0
FilePath = List String

-- `boost::rational<int>`
pub record Rational : Type 0 where
  pub numerator : ℤ
  pub denominator : ℤ

pub record ProgramLimit : Type 0 where
  pub memory_limit : ℤ
  pub time_limit : ℤ
  pub file_limit : ℤ
  pub proc_limit : ℤ

abbrev pub default_limit : ProgramLimit
default_limit = record {
  memory_limit = negsuc 0;
  time_limit = negsuc 999;
  file_limit = negsuc 0;
  proc_limit = negsuc 0;
}

pub record TestCaseData : Type 0 where
  pub inputs : List String
  pub outputs : List String

pub data Condition : Type 0 where
  always accepted_only non_accepted partial_correct_only non_partial_correct : Condition

-- `read_action` with the fields that it inherits from `action`; `kind` is its field `action`.
pub record ReadAction : Type 0 where
  pub tag : String
  pub cond : Condition
  pub kind : String
  pub url : String
  pub path : String
  pub file_limit : ℤ

pub record ActionResult : Type 0 where
  pub tag : String
  pub result : String
  pub success : Bool

pub data DependencyCondition : Type 0 where
  on_accepted on_partial_correct on_non_time_limit : DependencyCondition

pub record JudgeTask : Type 0 where
  pub limits : ProgramLimit
  pub open limits use *
  pub tag : String
  pub check_script : String
  pub run_script : String
  pub compare_script : String
  pub score : Rational
  pub is_random : Bool
  pub testcase_id : ℤ
  pub subcase_id : ℤ
  pub depends_on : ℤ
  pub depends_cond : DependencyCondition
  pub file_depends_on : ℤ
  pub run_args : List String
  pub cores : ℕ
  pub action_delay : ℤ
  pub actions : List ReadAction

-- A task with the values that its members are declared with.
abbrev pub default_task : JudgeTask
default_task = record {
  limits = default_limit;
  tag = "";
  check_script = "";
  run_script = "";
  compare_script = "";
  score = record { numerator = pos 0; denominator = pos 1 };
  is_random = false;
  testcase_id = negsuc 0;
  subcase_id = negsuc 0;
  depends_on = negsuc 0;
  depends_cond = DependencyCondition.on_accepted;
  file_depends_on = negsuc 0;
  run_args = [];
  cores = 1;
  action_delay = negsuc 0;
  actions = [];
}

pub record JudgeTaskResult : Type 0 where
  pub status : Status
  pub tag : String
  pub id : ℕ
  pub score : Rational
  pub run_time : ℤ
  pub memory_used : ℤ
  pub error_log : String
  pub report : String
  pub run_dir : FilePath
  pub data_dir : FilePath
  pub actions : List ActionResult

-- The constructor leaves `status` as it finds it in memory: `junk`.
abbrev pub new_result : Status → String → ℕ → JudgeTaskResult
new_result junk tag id = record {
  status = junk;
  tag = tag;
  id = id;
  score = record { numerator = pos 0; denominator = pos 1 };
  run_time = pos 0;
  memory_used = pos 0;
  error_log = "";
  report = "";
  run_dir = [];
  data_dir = [];
  actions = [];
}

-- What `git_repository` has besides the fields of `submission_program`.
pub record Repository : Type 0 where
  pub url : String
  pub commit : String
  pub username : String
  pub password : String
  pub overrides : List String

-- `submission_program` with the fields of `source_code`; `repository` is there for a `git_repository`.
pub record Program : Type 0 where
  pub source_files : List String
  pub assist_files : List String
  pub compile_command : List String
  pub language : String
  pub entry_point : String
  pub repository : Option Repository

abbrev pub empty_program : Program
empty_program = record {
  source_files = [];
  assist_files = [];
  compile_command = [];
  language = "";
  entry_point = "";
  repository = none;
}

-- Its `results` and `finished` change while it is judged: they are fields of `Process.Progress`.
pub record ProgrammingSubmission : Type 0 where
  pub base : Submission
  pub open base use *
  pub judge_tasks : List JudgeTask
  pub test_data : List TestCaseData
  pub submission : Option Program
  pub standard : Option Program
  pub random : Option Program
  pub compare : Option Program
