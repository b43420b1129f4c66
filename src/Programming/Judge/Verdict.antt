-- ===== src/Programming/Judge/Verdict.antt =====
-- Every verdict that `programming_judger::judge` comes to is final, and is filed under its task's id.
use mathlib.Core.List.{reverse}
use judge_system.Base.{
  ◌==◌, ◌/◌, ◌<◌, not, ◌&&◌, negsuc, is_negative, str_eq, ap, ltb, eq_ℤ, ℕ, ◌+◌, ◌-◌, ◌^◌, ◌≤◌, ◌≡◌,
  refl, Option, none, some, List, [], ◌∷◌, ◌++◌, ℤ, pos, length, get_elem?, get_elem?→lt,
  Option-cases, inl, inr, Bool, ◌∙◌, Bool-cases, true, false, if◌then◌else◌, arith, String,
}
use judge_system.Status.{
  Status, status_eq, compilation_error, executable_compilation_error, system_error,
}
use judge_system.Status.Phase.{phase, is_settled}
use judge_system.Programming.{
  Rational, FilePath, JudgeTask, JudgeTaskResult, ProgrammingSubmission, new_result, Program,
  ActionResult,
}
use judge_system.Programming.Verify.{verify, is_null}
use judge_system.Programming.Verify.Accepts.{verify_iff}
use judge_system.Programming.Judge.{
  verdict, task_at, judge_selected, judge_data, file_parent, base_dirs, Outcome, returned, thrown,
  not_returned, with_actions, scored, filed, checked, judge_impl, compile_program, compile_extra,
  compile, judge,
}
use judge_system.Programming.Data.{
  CheckRun, Fetched, done, executable_error, compile_error, failed, World, generate_random_data,
  Selected, data_dir, gave_up, unavailable, or_dir, own_data, crashed, select_standard,
  cached_random, fresh_random, select_random, random,
}
use judge_system.Programming.Judge.BaseDirs.{FilesEarlier, below_parent, base_dirs_lem}

-- A final verdict, filed under `id`.
abbrev pub IsFinal : ℕ → JudgeTaskResult → Type 0
IsFinal id r = (r.id ≡ id) × (is_settled (phase r.status) ≡ true)

abbrev FinalOutcome : ℕ → Outcome → Type 0
FinalOutcome id (returned r uploads) = IsFinal id r
FinalOutcome id thrown = Unit
FinalOutcome id not_returned = ⊥

verdict_settled : (ret : ℤ) → is_settled (phase (verdict ret)) ≡ true
unfolding verdict
verdict_settled ret = ground arith

compiled :
    (executable : Bool) (f : Fetched) (r : JudgeTaskResult)
    → IsFinal r.id (compile_program executable f r)
unfolding compile_program
compiled executable done r = (refl, refl)
compiled executable (executable_error log report) r = (refl, refl)
compiled true (compile_error log report) r = (refl, refl)
compiled false (compile_error log report) r = (refl, refl)
compiled executable (failed what) r = (refl, refl)

extra-IsFinal :
    (w : World) (p : Option Program) (id : ℕ) (x : Bool × JudgeTaskResult)
    → IsFinal id x.1
    → IsFinal id (compile_extra w p x).1
unfolding compile_extra
extra-IsFinal w p id (false, r) h = h
extra-IsFinal w none id (true, r) h = h
extra-IsFinal w (some program) id (true, r) h =
    let (same, final) = compiled true (w.fetch program) r in
    (same ∙ h.0, kept (compile_program true (w.fetch program) r).status final)
  where
    kept :
        (s : Status)
        → is_settled (phase s) ≡ true
        → is_settled
            (phase (if status_eq s compilation_error then executable_compilation_error else s))
          ≡ true
    kept s h = ground arith

compile-IsFinal :
    (w : World) (junk : Status) (id : ℕ) (sub : ProgrammingSubmission) (task : JudgeTask)
    → is_null sub.submission ≡ false
    → IsFinal id (compile w junk id sub task)
unfolding compile
compile-IsFinal w junk id sub task h = elim (Option-cases sub.submission) [
  | inl e ↦ cc
  | inr (program, e) ↦
      rw (compile, e)
        (extra-IsFinal w sub.compare id _ (
          extra-IsFinal w sub.standard id _
            (extra-IsFinal w sub.random id _ (compiled false (w.fetch program) _))))
]

with_actions_final :
    (id : ℕ) (r : JudgeTaskResult) (o : Option (List ActionResult × List String))
    → IsFinal id r
    → FinalOutcome id (with_actions r o)
unfolding with_actions
with_actions_final id r none h = tt
with_actions_final id r (some (reports, uploads)) h = h

filed_final :
    (w : World) (task : JudgeTask) (result : JudgeTaskResult) (run : CheckRun)
    (score : Option Rational)
    → FinalOutcome result.id (filed w task result run score)
unfolding filed
filed_final w task result run none = tt
filed_final w task result run (some score) =
    with_actions_final result.id (scored result run score) _ (refl, verdict_settled run.ret)

FinalSelected : ℕ → Selected → Type 0
FinalSelected id (data_dir dir) = Unit
FinalSelected id (gave_up r) = IsFinal id r
FinalSelected id unavailable = Unit
FinalSelected id crashed = ⊥

generated_final :
    (w : World) (r : JudgeTaskResult) (dir : FilePath)
    → FinalSelected r.id (or_dir dir (generate_random_data w r))
unfolding FinalSelected generate_random_data
generated_final w r dir = elim (Bool-cases (eq_ℤ w.generated (pos 0))) [
  | inl e ↦ rw (FinalSelected, generate_random_data, e) tt
  | inr e ↦ elim (Bool-cases (eq_ℤ w.generated (pos 46))) [
    | inl e' ↦ rw (FinalSelected, generate_random_data, e, e') (refl, refl)
    | inr e' ↦ rw (FinalSelected, generate_random_data, e, e') (refl, refl)
  ]
]

either_final :
    (id : ℕ) (b : Bool) (x y : Selected × JudgeTask)
    → FinalSelected id x.0
    → FinalSelected id y.0
    → FinalSelected id (if b then x else y).0
either_final id true x y h k = h
either_final id false x y h k = k

one_final :
    (id : ℕ) (b : Bool) (x y : Selected)
    → FinalSelected id x
    → FinalSelected id y
    → FinalSelected id (if b then x else y)
one_final id true x y h k = h
one_final id false x y h k = k

random-some : (n drawn : ℕ) → 2 ≤ n → (k : ℕ) × (random 0 (n - 1) drawn ≡ some k)
unfolding random
random-some n drawn h =
    let e : ((n - 1 - 0) == 0) ≡ false = ground arith in
    (0 + drawn / (2 ^ 31 / (n - 1 - 0)), rw (random, e) refl)

fresh_final :
    (w : World) (task : JudgeTask) (result : JudgeTaskResult)
    → 2 ≤ w.max_random_data_num
    → FinalSelected result.id (fresh_random w task result).0
unfolding fresh_random cached_random FinalSelected
fresh_final w task result two =
    let (k, e) = random-some w.max_random_data_num w.drawn two in
    either_final result.id (ltb w.random_count w.max_random_data_num) _ _
      (generated_final w result _)
      (rw e (one_final result.id (w.failed_before k) _ _ (generated_final w result _) tt))

select_random_final :
    (w : World) (father : Option JudgeTask) (task : JudgeTask) (result : JudgeTaskResult)
    → 2 ≤ w.max_random_data_num
    → FinalSelected result.id (select_random w father task result).0
unfolding select_random FinalSelected
select_random_final w none task result two = fresh_final w task result two
select_random_final w (some f) task result two =
    either_final result.id f.is_random _ _ tt (fresh_final w task result two)

-- Where the submission has the data that a task names.
abbrev pub HasData : ℕ → JudgeTask → Type 0
HasData count task = task.is_random ≡ false → (n : ℕ) → task.testcase_id ≡ pos n → n < count

own_data_final :
    (id : ℕ) (w : World) (count : ℕ) (testcase_id : ℤ)
    → ((n : ℕ) → testcase_id ≡ pos n → n < count)
    → FinalSelected id (own_data w count testcase_id)
unfolding FinalSelected
own_data_final id w count (negsuc k) h = tt
own_data_final id w count (pos n) h =
    let there : not (ltb n count) ≡ false = ground (arith, h n refl) in
    rw there (one_final id (w.standard_data n) _ _ tt tt)

select_standard_final :
    (id : ℕ) (w : World) (count : ℕ) (father : Option JudgeTask) (task : JudgeTask)
    → ((n : ℕ) → task.testcase_id ≡ pos n → n < count)
    → FinalSelected id (select_standard w count father task)
unfolding select_standard FinalSelected
select_standard_final id w count none task h = own_data_final id w count task.testcase_id h
select_standard_final id w count (some f) task h =
    one_final id (not f.is_random && not (is_negative f.testcase_id)) _ _ tt
      (own_data_final id w count task.testcase_id h)

-- The choice of the data changes nothing that the run directories depend on.
fresh_parent :
    (w : World) (task : JudgeTask) (result : JudgeTaskResult)
    → file_parent (fresh_random w task result).1 ≡ file_parent task
unfolding fresh_random cached_random
fresh_parent w task result = elim (Bool-cases (ltb w.random_count w.max_random_data_num)) [
  | inl e ↦ rw (fresh_random, e) refl
  | inr e ↦ rw (fresh_random, e) (cached (random 0 (w.max_random_data_num - 1) w.drawn))
]
  where
    cached : (o : Option ℕ) → file_parent (cached_random w task result o).1 ≡ file_parent task
    cached none = refl
    cached (some k) = refl

same_parent :
    (w : World) (father : Option JudgeTask) (task : JudgeTask) (result : JudgeTaskResult)
    → file_parent (select_random w father task result).1 ≡ file_parent task
unfolding select_random
same_parent w none task result = fresh_parent w task result
same_parent w (some f) task result = elim (Bool-cases f.is_random) [
  | inl e ↦ rw (select_random, e) refl
  | inr e ↦ rw (select_random, e) (fresh_parent w task result)
]

checked_final :
    (w : World) (task : JudgeTask) (result : JudgeTaskResult) (run : CheckRun)
    → FinalOutcome result.id (checked w task result run)
unfolding checked
checked_final w task result run = filed_final w task result run _

judge_data_final :
    (rounds : ℕ) (w : World) (tasks : List JudgeTask) (results : List JudgeTaskResult)
    (task : JudgeTask) (result : JudgeTaskResult) (dir : FilePath) (dirs : List FilePath)
    → base_dirs rounds tasks results (file_parent task) ≡ some dirs
    → FinalOutcome result.id (judge_data rounds w tasks results task result dir)
unfolding judge_data
judge_data_final rounds w tasks results task result dir dirs e =
    rw (judge_data, e)
      (checked_final w task
        (record result { data_dir = elim w.copy_dir [ none ↦ dir | some copy ↦ copy ] })
        (w.check (elim w.copy_dir [ none ↦ dir | some copy ↦ copy ]) (reverse dirs)))

judge_selected_final :
    (rounds : ℕ) (w : World) (tasks : List JudgeTask) (results : List JudgeTaskResult)
    (result : JudgeTaskResult) (x : Selected × JudgeTask) (dirs : List FilePath)
    → FinalSelected result.id x.0
    → base_dirs rounds tasks results (file_parent x.1) ≡ some dirs
    → FinalOutcome result.id (judge_selected rounds w tasks results result x).0
unfolding FinalSelected
judge_selected_final rounds w tasks results result (data_dir dir, task) dirs h e =
    judge_data_final rounds w tasks results task result dir dirs e
judge_selected_final rounds w tasks results result (gave_up failure, task) dirs h e = h
judge_selected_final rounds w tasks results result (unavailable, task) dirs h e = tt
judge_selected_final rounds w tasks results result (crashed, task) dirs h e = h

judge_impl_final :
    (rounds : ℕ) (w : World) (junk : Status) (id count : ℕ) (tasks : List JudgeTask)
    (results : List JudgeTaskResult) (task : JudgeTask) (dirs : List FilePath)
    → base_dirs rounds tasks results (file_parent task) ≡ some dirs
    → 2 ≤ w.max_random_data_num
    → HasData count task
    → FinalOutcome id (judge_impl rounds w junk id count tasks results task).0
unfolding judge_impl
judge_impl_final rounds w junk id count tasks results task dirs e two has_data =
    by_kind _ _ task.is_random refl
      (judge_selected_final rounds w tasks results result (select_random w father task result) dirs
        (select_random_final w father task result two)
        (ap (base_dirs rounds tasks results) (same_parent w father task result) ∙ e))
      (λ standard.
        judge_selected_final rounds w tasks results result
          (select_standard w count father task, task) dirs
          (select_standard_final id w count father task (has_data standard)) e)
  where
    by_kind :
        (x y : Outcome × JudgeTask) (b : Bool)
        → task.is_random ≡ b
        → FinalOutcome id x.0
        → (task.is_random ≡ false → FinalOutcome id y.0)
        → FinalOutcome id (if b then x else y).0
    by_kind x y true e h k = h
    by_kind x y false e h k = k e

    father : Option JudgeTask
    father = task_at tasks task.depends_on

    result : JudgeTaskResult
    result = record (new_result junk task.tag id) { run_dir = w.work_dir ++ w.run_name ∷ [] }

abbrev pub DataNamed : ProgrammingSubmission → Type 0
DataNamed sub =
    (i : ℕ) (t : JudgeTask)
    → get_elem? sub.judge_tasks i ≡ some t
    → HasData (length sub.test_data) t

-- When `verify` has accepted a submission of at most 2^31 tasks, every task takes its files from an earlier one or from
-- none, the submission has the data that each task names, there is a result for each task and at least two sets of random data are cached, `judge` returns for
-- each task, whatever the scripts do, within as many rounds as there are tasks and one more; the
-- verdict is final and stands under the task's id.
pub judge_returns :
    (sub : ProgrammingSubmission)
    → length sub.judge_tasks ≤ 2 ^ 31
    → verify (some sub) ≡ true
    → FilesEarlier sub.judge_tasks
    → DataNamed sub
    → (results : List JudgeTaskResult) → length results ≡ length sub.judge_tasks
    → (id : ℕ) (task : JudgeTask) → get_elem? sub.judge_tasks id ≡ some task
    → (w : World) (junk : Status) (what : String) → 2 ≤ w.max_random_data_num
    → (r : JudgeTaskResult) × (judge (length sub.judge_tasks + 1) w junk id what sub results task
        ≡ some r)
      × IsFinal id r
unfolding judge
judge_returns sub few ok up named results len id task at_ w junk what two =
    elim (Bool-cases (str_eq task.check_script "compile")) [
      | inl e ↦ (
        compile w junk id sub task,
        rw (judge, e) refl,
        compile-IsFinal w junk id sub task has_program,
      )
      | inr e ↦
          let (dirs, ended, good) =
            base_dirs_lem sub.judge_tasks results up (omega arith) (length sub.judge_tasks + 1)
              (file_parent task)
              (below_parent (file_parent task) id (length sub.judge_tasks + 1) (up id task at_)
                (omega (arith, get_elem?→lt sub.judge_tasks id task at_))) in
          let (r, came, final) =
            of_outcome
              (judge_impl (length sub.judge_tasks + 1) w junk id (length sub.test_data)
                sub.judge_tasks results task).0
              (judge_impl_final (length sub.judge_tasks + 1) w junk id (length sub.test_data)
                sub.judge_tasks results task dirs ended two (named id task at_)) in
          (r, rw (judge, e) came, final)
    ]
  where
    has_program : is_null sub.submission ≡ false
    has_program = ((verify_iff sub few).0 ok).has_submission

    of_outcome :
        (o : Outcome)
        → FinalOutcome id o
        → (r : JudgeTaskResult) × (elim o [
          | thrown ↦
              some
                (record (new_result junk task.tag id) { status = system_error; error_log = what })
          | returned r uploads ↦ some r
          | not_returned ↦ none
        ]
            ≡ some r)
          × IsFinal id r
    of_outcome thrown h = (_, refl, (refl, refl))
    of_outcome (returned r uploads) h = (r, refl, h)
    of_outcome not_returned h = elim h [ ]
