-- ===== src/Forth/Message.antt =====
-- The message that carries a submission: what a client of the Forth server writes.
use judge_system.Base.{String, map, Option, none, some}
use judge_system.Programming.{
  Condition, DependencyCondition, ReadAction, JudgeTask, Program, Repository, TestCaseData,
  ProgrammingSubmission,
}
use judge_system.Forth.{
  ActionEntry, TaskEntry, AssetEntry, Asset, text_asset, remote_asset, local_asset, ProgramEntry,
  CaseEntry, SubmissionEntry,
}

abbrev pub condition_name : Condition → String
condition_name Condition.always = "ALWAYS"
condition_name Condition.accepted_only = "ACCEPTED"
condition_name Condition.non_accepted = "NON_ACCEPTED"
condition_name Condition.partial_correct_only = "PARTIAL_CORRECT"
condition_name Condition.non_partial_correct = "NON_PARTIAL_CORRECT"

abbrev pub dependency_name : DependencyCondition → String
dependency_name DependencyCondition.on_accepted = "ACCEPTED"
dependency_name DependencyCondition.on_partial_correct = "PARTIAL_CORRECT"
dependency_name DependencyCondition.on_non_time_limit = "NOT_TIME_LIMIT"

abbrev pub action_entry : ReadAction → ActionEntry
action_entry a = record {
  action = some a.kind;
  path = some a.path;
  condition = some (condition_name a.cond);
  url = some a.url;
  tag = some a.tag;
  file_limit = some a.file_limit;
}

abbrev pub task_entry : JudgeTask → TaskEntry
task_entry t = record {
  tag = some t.tag;
  check_script = some t.check_script;
  run_script = some t.run_script;
  compare_script = some t.compare_script;
  is_random = some t.is_random;
  testcase_id = some t.testcase_id;
  depends_on = some t.depends_on;
  depends_cond = some (dependency_name t.depends_cond);
  memory_limit = some t.memory_limit;
  time_limit = some t.time_limit;
  file_limit = some t.file_limit;
  proc_limit = some t.proc_limit;
  run_args = some t.run_args;
  actions = some (map action_entry t.actions);
}

abbrev pub asset_entry : Asset → AssetEntry
asset_entry (text_asset n t) = record {
  kind = some "text";
  name = some n;
  text = some t;
  url = none;
  path = none;
}
asset_entry (remote_asset n u) = record {
  kind = some "remote";
  name = some n;
  text = none;
  url = some u;
  path = none;
}
asset_entry (local_asset n p) = record {
  kind = some "local";
  name = some n;
  text = none;
  url = none;
  path = some p;
}

abbrev pub file_entry : String → AssetEntry
file_entry name = asset_entry (text_asset name "")

abbrev pub case_entry : TestCaseData → CaseEntry
case_entry c = record {
  inputs = some (map file_entry c.inputs);
  outputs = some (map file_entry c.outputs);
}

abbrev git_entry : Program → Repository → ProgramEntry
git_entry p r = record {
  kind = some "git";
  language = none;
  entry_point = none;
  source_files = some (map file_entry p.source_files);
  assist_files = some (map file_entry p.assist_files);
  compile_command = none;
  url = some r.url;
  commit = some r.commit;
  username = some r.username;
  password = some r.password;
  overrides = some (map file_entry r.overrides);
}

abbrev code_entry : Program → ProgramEntry
code_entry p = record {
  kind = some "source_code";
  language = some p.language;
  entry_point = some p.entry_point;
  source_files = some (map file_entry p.source_files);
  assist_files = some (map file_entry p.assist_files);
  compile_command = some p.compile_command;
  url = none;
  commit = none;
  username = none;
  password = none;
  overrides = none;
}

abbrev pub program_entry : Program → ProgramEntry
program_entry p = elim p.repository [ none ↦ code_entry p | some r ↦ git_entry p r ]

abbrev pub optional_entry : Option Program → Option ProgramEntry
optional_entry none = none
optional_entry (some p) = some (program_entry p)

abbrev pub submission_entry : ProgrammingSubmission → SubmissionEntry
submission_entry s = record {
  judge_tasks = some (map task_entry s.judge_tasks);
  test_data = some (map case_entry s.test_data);
  submission = optional_entry s.submission;
  standard = optional_entry s.standard;
  compare = optional_entry s.compare;
  random = optional_entry s.random;
}
