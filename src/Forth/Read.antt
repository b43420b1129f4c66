-- ===== src/Forth/Read.antt =====
-- A submission is read back from the message that carries it.
use judge_system.Base.{
  ◌≡◌, refl, sym, String, List, [], ◌∷◌, ◌++◌, map, All, Option, none, some, negsuc, ◌>>=◌,
}
use judge_system.Programming.{
  Condition, DependencyCondition, ReadAction, JudgeTask, default_task, Program, Repository,
  TestCaseData, ProgrammingSubmission,
}
use judge_system.Forth.{
  read_optional, dependency_condition_of, condition_of, read_all, read_action_of, judge_task_of,
  asset_of, asset_name_of, Asset, text_asset, remote_asset, local_asset, test_case_data_of,
  source_code_of, git_repository_of, program_of, read_program, programming_submission_of, kept,
}
use judge_system.Forth.Message.{
  condition_name, dependency_name, action_entry, task_entry, asset_entry, file_entry, case_entry,
  program_entry, optional_entry, submission_entry,
}

read_all-map {ℓ κ} :
    {A : Type ℓ} {B : Type κ} (f : A → Option B) (e : B → A) (P : B → Type 0) (bs : List B)
    → ((b : B) → P b → f (e b) ≡ some b)
    → All P bs
    → read_all f (map e bs) ≡ some bs
unfolding read_all ◌>>=◌
read_all-map f e P [] h a = refl
read_all-map f e P (b ∷ bs) h (p, ps) = rw (read_all, h b p, read_all-map f e P bs h ps) refl

condition_of-name : (c : Condition) → condition_of (condition_name c) ≡ some c
unfolding condition_of
condition_of-name Condition.always = refl
condition_of-name c = refl

dependency_condition_of-name :
    (c : DependencyCondition) → dependency_condition_of (dependency_name c) ≡ some c
unfolding dependency_condition_of
dependency_condition_of-name DependencyCondition.on_accepted = refl
dependency_condition_of-name c = refl

All-always {ℓ} : {A : Type ℓ} (xs : List A) → All (λ x. Unit {0}) xs
All-always [] = tt
All-always (x ∷ xs) = (tt, All-always xs)

asset_of-entry : (a : Asset) → asset_of (asset_entry a) ≡ some a
unfolding asset_of ◌>>=◌
asset_of-entry (text_asset n t) = refl
asset_of-entry (remote_asset n u) = refl
asset_of-entry (local_asset n p) = refl

assets_lem : (names : List String) → read_all asset_name_of (map file_entry names) ≡ some names
unfolding asset_name_of asset_of ◌>>=◌
assets_lem names =
    read_all-map asset_name_of file_entry (λ n. Unit) names (λ n u. refl) (All-always names)

actions_lem :
    (junk : Condition) (actions : List ReadAction)
    → read_all (read_action_of junk) (map action_entry actions) ≡ some actions
unfolding read_action_of ◌>>=◌
actions_lem junk actions =
    read_all-map (read_action_of junk) action_entry (λ a. Unit) actions
      (λ a u. rw (read_optional, condition_of-name a.cond) refl) (All-always actions)

-- The fields of a task that no message carries have their first values.
abbrev pub IsCarried : JudgeTask → Type 0
IsCarried t =
    (t.score ≡ default_task.score)
    × (t.subcase_id ≡ negsuc 0)
    × (t.file_depends_on ≡ negsuc 0)
    × (t.cores ≡ 1)
    × (t.action_delay ≡ negsuc 0)

task_lem :
    (junk : Condition) (t : JudgeTask) → IsCarried t → judge_task_of junk (task_entry t) ≡ some t
unfolding judge_task_of ◌>>=◌
task_lem junk t (score, subcase, files, cores, delay) =
    rw (read_optional, dependency_condition_of-name t.depends_cond, actions_lem junk t.actions)
      (λ i. some (record t {
        score = sym score i;
        subcase_id = sym subcase i;
        file_depends_on = sym files i;
        cores = sym cores i;
        action_delay = sym delay i;
      }))

case_lem : (c : TestCaseData) → test_case_data_of (case_entry c) ≡ some c
unfolding test_case_data_of ◌>>=◌
case_lem c = rw (read_optional, assets_lem c.inputs, assets_lem c.outputs) refl

-- A repository has no language, entry point and compile command.
abbrev pub Fits : Option Repository → Program → Type 0
Fits none p = Unit
Fits (some r) p = (p.compile_command ≡ []) × (p.language ≡ "") × (p.entry_point ≡ "")

program_lem :
    (p : Program) (r : Option Repository)
    → p.repository ≡ r
    → Fits r p
    → program_of (program_entry p) ≡ some p
unfolding program_of source_code_of git_repository_of ◌>>=◌
program_lem p none e h =
    rw (e, read_optional, assets_lem p.source_files, assets_lem p.assist_files) refl
program_lem p (some r) e (command, language, entry) =
    rw
      (
        e,
        read_optional,
        assets_lem r.overrides,
        assets_lem p.source_files,
        assets_lem p.assist_files,
      )
      (λ i. some (record p {
        compile_command = sym command i;
        language = sym language i;
        entry_point = sym entry i;
        repository = some r;
      }))

-- What a message can carry of an optional program.
abbrev pub IsOptional : Option Program → Type 0
IsOptional none = Unit
IsOptional (some p) = Fits p.repository p

optional_lem : (p : Option Program) → IsOptional p → read_program (optional_entry p) ≡ some p
optional_lem none h = refl
optional_lem (some p) h = rw (read_program, program_lem p p.repository refl h) refl

-- What a message can carry of a submission.
pub record IsSendable (s : ProgrammingSubmission) : Type 0 where
  pub tasks : All IsCarried s.judge_tasks
  pub submission : IsOptional s.submission
  pub standard : IsOptional s.standard
  pub compare : IsOptional s.compare
  pub random : IsOptional s.random

-- A new submission, which is read into.
abbrev pub IsFresh : ProgrammingSubmission → Type 0
IsFresh s =
    (s.test_data ≡ [])
    × (s.submission ≡ none)
    × (s.standard ≡ none)
    × (s.compare ≡ none)
    × (s.random ≡ none)

kept_lem : (before p : Option Program) → before ≡ none → kept before p ≡ p
kept_lem before none h = h
kept_lem before (some p) h = refl

submission_lem :
    (junk : Condition) (blank s : ProgrammingSubmission)
    → IsFresh blank
    → IsSendable s
    → programming_submission_of junk blank (submission_entry s)
      ≡ some (record s { base = blank.base })
unfolding programming_submission_of ◌>>=◌
submission_lem junk blank s (no_data, no_sub, no_std, no_cmp, no_rnd) h =
    rw
      (
        read_all-map (judge_task_of junk) task_entry IsCarried s.judge_tasks (task_lem junk)
            h.tasks,
        read_all-map test_case_data_of case_entry (λ c. Unit) s.test_data (λ c u. case_lem c)
            (All-always s.test_data),
        optional_lem s.submission h.submission,
        optional_lem s.standard h.standard,
        optional_lem s.compare h.compare,
        optional_lem s.random h.random,
      )
      (λ i. some (record s {
        base = blank.base;
        test_data = no_data i ++ s.test_data;
        submission = kept_lem blank.submission s.submission no_sub i;
        standard = kept_lem blank.standard s.standard no_std i;
        compare = kept_lem blank.compare s.compare no_cmp i;
        random = kept_lem blank.random s.random no_rnd i;
      }))

-- From the message that carries a submission, read into a new one, the same tasks, data and programs
-- come, in which an asset is its name alone, and from the entry of an asset the same asset. The message can carry a submission if the fields of its
-- tasks that no message has (the score, the subcase, the file dependency, the cores and the delay of
-- the actions) have their first values, and the language, the entry point and the compile command of a
-- repository are empty.
pub programming_submission_of-entry :
    (junk : Condition) (blank s : ProgrammingSubmission) (a : Asset)
    → IsFresh blank
    → IsSendable s
    → (programming_submission_of junk blank (submission_entry s)
        ≡ some (record s { base = blank.base }))
      × (asset_of (asset_entry a) ≡ some a)
programming_submission_of-entry junk blank s a fresh h =
    (submission_lem junk blank s fresh h, asset_of-entry a)
