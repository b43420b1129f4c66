-- ===== src/Forth.antt =====
-- The reading of a programming submission in src/server/forth/forth.cpp. The JSON library is outside: an entry of a
-- message is an `Option`, `none` if it is missing; a result `none` is an exception.
pub mod Message
pub mod Read
pub mod Server
use judge_system.Base.{
  ℕ, Bool, true, false, String, str_eq, List, [], ◌∷◌, ◌++◌, Option, none, some, ℤ, pos, negsuc,
  ◌||◌, if◌then◌else◌, ◌>>=◌,
}
use judge_system.Programming.{
  Condition, DependencyCondition, ReadAction, JudgeTask, default_task, Program, Repository,
  empty_program, TestCaseData, ProgrammingSubmission,
}

pub record ActionEntry : Type 0 where
  pub action : Option String
  pub path : Option String
  pub condition : Option String
  pub url : Option String
  pub tag : Option String
  pub file_limit : Option ℤ

-- Times in milliseconds, as the message has them.
pub record TaskEntry : Type 0 where
  pub tag : Option String
  pub check_script : Option String
  pub run_script : Option String
  pub compare_script : Option String
  pub is_random : Option Bool
  pub testcase_id : Option ℤ
  pub depends_on : Option ℤ
  pub depends_cond : Option String
  pub memory_limit : Option ℤ
  pub time_limit : Option ℤ
  pub file_limit : Option ℤ
  pub proc_limit : Option ℤ
  pub run_args : Option (List String)
  pub actions : Option (List ActionEntry)

pub record AssetEntry : Type 0 where
  pub kind : Option String  -- `type`
  pub name : Option String
  pub text : Option String
  pub url : Option String
  pub path : Option String

-- The assets of include/asset.hpp that a message can carry.
pub data Asset : Type 0 where
  text_asset remote_asset local_asset : String → String → Asset

abbrev asset_name : Asset → String
asset_name (text_asset name text) = name
asset_name (remote_asset name url) = name
asset_name (local_asset name path) = name

pub record ProgramEntry : Type 0 where
  pub kind : Option String  -- `type`
  pub language : Option String
  pub entry_point : Option String
  pub source_files : Option (List AssetEntry)
  pub assist_files : Option (List AssetEntry)
  pub compile_command : Option (List String)
  pub url : Option String
  pub commit : Option String
  pub username : Option String
  pub password : Option String
  pub overrides : Option (List AssetEntry)

pub record CaseEntry : Type 0 where
  pub inputs : Option (List AssetEntry)
  pub outputs : Option (List AssetEntry)

pub record SubmissionEntry : Type 0 where
  pub judge_tasks : Option (List TaskEntry)
  pub test_data : Option (List CaseEntry)
  pub submission : Option ProgramEntry
  pub standard : Option ProgramEntry
  pub compare : Option ProgramEntry
  pub random : Option ProgramEntry

-- `assign_optional`: an entry that is missing leaves the value as it is.
abbrev pub assigned {ℓ} : {A : Type ℓ} → A → Option A → A
assigned a none = a
assigned a (some b) = b

-- `assign_optional` of a value that must be read: one that cannot be read is ignored.
abbrev pub read_optional {ℓ κ} : {A : Type ℓ} {B : Type κ} → (A → Option B) → B → Option A → B
read_optional f b none = b
read_optional f b (some a) = elim (f a) [ none ↦ b | some new ↦ new ]

-- A list is read element by element.
unfoldable pub read_all {ℓ κ} :
    {A : Type ℓ} {B : Type κ} → (A → Option B) → List A → Option (List B)
read_all f [] = some []
read_all f (a ∷ rest) = do b ← f a; bs ← read_all f rest; some (b ∷ bs)

unfoldable pub dependency_condition_of : String → Option DependencyCondition
dependency_condition_of s =
    if str_eq s "ACCEPTED"
    then some DependencyCondition.on_accepted
    else if str_eq s "NOT_TIME_LIMIT"
    then some DependencyCondition.on_non_time_limit
    else if str_eq s "PARTIAL_CORRECT"
    then some DependencyCondition.on_partial_correct
    else none

unfoldable pub condition_of : String → Option Condition
condition_of s =
    if str_eq s "ACCEPTED"
    then some Condition.accepted_only
    else if str_eq s "NON_ACCEPTED"
    then some Condition.non_accepted
    else if str_eq s "PARTIAL_CORRECT"
    then some Condition.partial_correct_only
    else if str_eq s "NON_PARTIAL_CORRECT"
    then some Condition.non_partial_correct
    else if str_eq s "ALWAYS" || str_eq s ""
    then some Condition.always
    else none

-- The values that a `read_action` starts with; `cond` is what the memory has.
abbrev pub default_action : Condition → ReadAction
default_action junk = record {
  tag = "";
  cond = junk;
  kind = "";
  url = "";
  path = "";
  file_limit = negsuc 0;
}

unfoldable pub read_action_of : Condition → ActionEntry → Option ReadAction
unfolding condition_of
read_action_of junk j = do
  action ← j.action
  path ← j.path
  let cond = read_optional condition_of junk j.condition
  some (record {
    tag = assigned (default_action junk).tag j.tag;
    cond = cond;
    kind = action;
    url = assigned (default_action junk).url j.url;
    path = path;
    file_limit = assigned (default_action junk).file_limit j.file_limit;
  })

unfoldable pub judge_task_of : Condition → TaskEntry → Option JudgeTask
unfolding dependency_condition_of read_action_of read_all
judge_task_of junk j = do
  check_script ← j.check_script
  is_random ← j.is_random
  depends_on ← j.depends_on
  let depends_cond = read_optional dependency_condition_of default_task.depends_cond j.depends_cond
  time_limit ← j.time_limit
  let actions = read_optional (read_all (read_action_of junk)) [] j.actions
  some (record default_task {
    limits = record {
      memory_limit = assigned default_task.memory_limit j.memory_limit;
      time_limit = time_limit;
      file_limit = assigned default_task.file_limit j.file_limit;
      proc_limit = assigned default_task.proc_limit j.proc_limit;
    };
    tag = assigned "" j.tag;
    check_script = check_script;
    run_script = assigned "" j.run_script;
    compare_script = assigned "" j.compare_script;
    is_random = is_random;
    testcase_id = assigned default_task.testcase_id j.testcase_id;
    depends_on = depends_on;
    depends_cond = depends_cond;
    run_args = assigned [] j.run_args;
    actions = actions;
  })

unfoldable pub asset_of : AssetEntry → Option Asset
unfolding ◌>>=◌
asset_of j = do
  kind ← j.kind
  name ← j.name
  if str_eq kind "text"
      then j.text >>= (λ text. some (text_asset name text))
      else if str_eq kind "remote"
      then j.url >>= (λ url. some (remote_asset name url))
      else if str_eq kind "local"
      then j.path >>= (λ path. some (local_asset name path))
      else none

-- The submission keeps the name of the asset.
unfoldable pub asset_name_of : AssetEntry → Option String
unfolding asset_of
asset_name_of j = do a ← asset_of j; some (asset_name a)

unfoldable pub test_case_data_of : CaseEntry → Option TestCaseData
unfolding asset_name_of read_all
test_case_data_of j = do
  let inputs = read_optional (read_all asset_name_of) [] j.inputs
  let outputs = read_optional (read_all asset_name_of) [] j.outputs
  some (record { inputs = inputs; outputs = outputs })

unfoldable pub source_code_of : ProgramEntry → Option Program
unfolding asset_name_of read_all
source_code_of j = do
  language ← j.language
  let source_files = read_optional (read_all asset_name_of) [] j.source_files
  let assist_files = read_optional (read_all asset_name_of) [] j.assist_files
  some (record empty_program {
    source_files = source_files;
    assist_files = assist_files;
    compile_command = assigned [] j.compile_command;
    language = language;
    entry_point = assigned "" j.entry_point;
  })

unfoldable pub git_repository_of : ProgramEntry → Option Program
unfolding asset_name_of read_all
git_repository_of j = do
  url ← j.url
  let overrides = read_optional (read_all asset_name_of) [] j.overrides
  let source_files = read_optional (read_all asset_name_of) [] j.source_files
  let assist_files = read_optional (read_all asset_name_of) [] j.assist_files
  some (record empty_program {
    source_files = source_files;
    assist_files = assist_files;
    repository = some (record {
      url = url;
      commit = assigned "" j.commit;
      username = assigned "" j.username;
      password = assigned "" j.password;
      overrides = overrides;
    });
  })

unfoldable pub program_of : ProgramEntry → Option Program
unfolding source_code_of git_repository_of
program_of j = do
  kind ← j.kind
  if str_eq kind "source_code"
      then source_code_of j
      else if str_eq kind "git"
      then git_repository_of j
      else none

abbrev pub read_program : Option ProgramEntry → Option (Option Program)
read_program none = some none
read_program (some j) = elim (program_of j) [ none ↦ none | some p ↦ some (some p) ]

-- A program that the message lacks leaves what there was.
abbrev pub kept : Option Program → Option Program → Option Program
kept before none = before
kept before (some p) = some p

-- What the message brings into the submission `base`: data come behind those that it has.
unfoldable pub programming_submission_of :
    Condition → ProgrammingSubmission → SubmissionEntry → Option ProgrammingSubmission
unfolding judge_task_of test_case_data_of program_of read_all
programming_submission_of junk base j = do
  task_entries ← j.judge_tasks
  judge_tasks ← read_all (judge_task_of junk) task_entries
  data_entries ← j.test_data
  test_data ← read_all test_case_data_of data_entries
  submission ← read_program j.submission
  standard ← read_program j.standard
  compare ← read_program j.compare
  random ← read_program j.random
  some (record base {
    judge_tasks = judge_tasks;
    test_data = base.test_data ++ test_data;
    submission = kept base.submission submission;
    standard = kept base.standard standard;
    compare = kept base.compare compare;
    random = kept base.random random;
  })
