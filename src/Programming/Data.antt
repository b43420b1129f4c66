-- ===== src/Programming/Data.antt =====
-- What `judge_impl` finds outside (`World`), and its choice of the test data: `random` of
-- src/common/stl_utils.cpp, `generate_random_data` and the first half of `judge_impl` of
-- src/judge/programming.cpp.
use judge_system.Base.{
  ◌==◌, ℕ, ◌+◌, ◌/◌, ◌-◌, ◌^◌, Bool, not, ◌&&◌, Option, none, some, List, [], ◌∷◌, ◌++◌, String, ℤ,
  pos, negsuc, eq_ℤ, is_negative, if◌then◌else◌, ltb,
}
use judge_system.Status.{random_gen_error, system_error}
use judge_system.Programming.{FilePath, Rational, JudgeTask, JudgeTaskResult, Program}
use judge_system.Programming.Actions.{Files}

-- What a run of the check script leaves: its exit code and the files that it writes.
pub record CheckRun : Type 0 where
  pub ret : ℤ
  pub report : String
  pub error_log : String
  pub numerator : ℤ
  pub denominator : ℤ
  pub wall_time : ℤ
  pub memory : ℤ

-- How the fetch of a program ends.
pub data Fetched : Type 0 where
  done : Fetched
  executable_error compile_error : (error_log report : String) → Fetched
  failed : (what : String) → Fetched

pub record World : Type 0 where
  pub files : Files
  pub ratio : ℤ → ℤ → Option Rational  -- `boost::rational`: `none` is `bad_rational`
  pub decimal : ℤ → String  -- `to_string`
  pub work_dir : FilePath
  pub cache_dir : FilePath
  pub run_name : String  -- the name of the task's run directory
  pub standard_data : ℕ → Bool  -- are the data of a test there, or fetched without an exception?
  pub copy_dir : Option FilePath  -- with USE_DATA_DIR: where the data are copied to
  pub max_random_data_num : ℕ
  pub random_count : ℕ  -- how many sets of random data are cached for the case
  pub failed_before : ℕ → Bool  -- did the generation of a cached set fail?
  pub drawn : ℕ  -- `rand()`
  pub generated : ℤ  -- exit code of random_generator.sh
  pub system_out : String
  pub check : FilePath → List FilePath → CheckRun
  pub fetch : Program → Fetched
  pub compile_time : ℤ
  pub compile_memory : ℤ

-- `random` of src/common/stl_utils.cpp, from the value of `rand()`; `none` is a division by zero, which
-- ends the process.
unfoldable pub random : ℕ → ℕ → ℕ → Option ℕ
random l r drawn = if r - l == 0 then none else some (l + drawn / (2 ^ 31 / (r - l)))

-- `generate_random_data`, from the exit code of the generator: `none` if it succeeds.
unfoldable pub generate_random_data : World → JudgeTaskResult → Option JudgeTaskResult
generate_random_data w r =
    if eq_ℤ w.generated (pos 0)
    then none
    else if eq_ℤ w.generated (pos 46)
    then some (record r { status = random_gen_error; error_log = w.system_out })
    else some (record r { status = system_error; error_log = w.system_out })

-- The directory with the task's data, or the result of a failed generation; and the task, which
-- remembers the random data that it uses. `unavailable` is an exception, `crashed` undefined behaviour.
pub data Selected : Type 0 where
  data_dir : FilePath → Selected
  gave_up : JudgeTaskResult → Selected
  unavailable : Selected
  crashed : Selected

abbrev pub or_dir : FilePath → Option JudgeTaskResult → Selected
or_dir dir none = data_dir dir
or_dir dir (some failure) = gave_up failure

-- One of the sets that are cached, which is generated again if that failed.
unfoldable pub cached_random : World → JudgeTask → JudgeTaskResult → Option ℕ → Selected × JudgeTask
unfolding generate_random_data
cached_random w task r none = (crashed, task)
cached_random w task r (some number) =
    let dir : FilePath =
      w.cache_dir ++ "random_data" ∷ w.decimal task.testcase_id ∷ w.decimal (pos number) ∷ [] in
    (
      (if w.failed_before number then or_dir dir (generate_random_data w r) else data_dir dir),
      record task { subcase_id = pos number },
    )

unfoldable pub fresh_random : World → JudgeTask → JudgeTaskResult → Selected × JudgeTask
unfolding cached_random generate_random_data random
fresh_random w task r =
    if ltb w.random_count w.max_random_data_num
    then (
      or_dir
          (w.cache_dir
            ++ "random_data" ∷ w.decimal task.testcase_id ∷ w.decimal (pos w.random_count) ∷ [])
          (generate_random_data w r),
      record task { subcase_id = pos w.random_count },
    )
    else cached_random w task r (random 0 (w.max_random_data_num - 1) w.drawn)

unfoldable pub select_random :
    World → Option JudgeTask → JudgeTask → JudgeTaskResult → Selected × JudgeTask
unfolding fresh_random
select_random w none task r = fresh_random w task r
select_random w (some father) task r =
    if father.is_random
    then (
      data_dir (
          w.cache_dir
          ++ "random_data" ∷ w.decimal father.testcase_id ∷ w.decimal father.subcase_id ∷ []),
      record task { testcase_id = father.testcase_id; subcase_id = father.subcase_id },
    )
    else fresh_random w task r

-- The data that a test names; the index into `test_data`, which has `count` entries, is not checked.
abbrev pub own_data : World → ℕ → ℤ → Selected
own_data w count (negsuc _) = data_dir (w.cache_dir ++ "standard_data" ∷ "-1" ∷ [])
own_data w count (pos n) =
    if not (ltb n count)
    then crashed
    else if w.standard_data n
    then data_dir (w.cache_dir ++ "standard_data" ∷ w.decimal (pos n) ∷ [])
    else unavailable

unfoldable pub select_standard : World → ℕ → Option JudgeTask → JudgeTask → Selected
select_standard w count father task =
    let own : Selected = own_data w count task.testcase_id in
    elim father [
      | none ↦ own
      | some f ↦
          if not f.is_random && not (is_negative f.testcase_id)
          then data_dir (w.cache_dir ++ "standard_data" ∷ w.decimal f.testcase_id ∷ [])
          else own
    ]
