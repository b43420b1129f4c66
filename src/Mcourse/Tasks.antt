-- ===== src/Mcourse/Tasks.antt =====
-- The judge tasks that `from_json_programming` of src/server/mcourse/mcourse.cpp makes of a problem's
-- grading. A score is a fraction that is not reduced.
pub mod Ordered
pub mod Memory
use judge_system.Base.{
  ℕ, zero, suc, ◌+◌, ◌/◌, ◌*◌, ◌-◌, ◌==◌, Bool, true, false, not, ◌&&◌, String, List, [], ◌∷◌, ◌++◌,
  Option, none, some, ℤ, pos, negsuc, leb_ℤ, scale_ℤ, if◌then◌else◌, length, get_elem?, tabulate,
  ◌+ℤ◌, ◌^◌, is_positive, to_count, map, is_nil,
}
use judge_system.Programming.{Rational, JudgeTask, ProgramLimit, default_task, DependencyCondition}
use judge_system.Mcourse.Config.{Grading, ServerConfig, or_zero}

abbrev pub compile_check : String
compile_check = "CompileCheck"

abbrev pub memory_check : String
memory_check = "MemoryCheck"

abbrev pub random_check : String
random_check = "RandomCheck"

abbrev pub standard_check : String
standard_check = "StandardCheck"

abbrev pub static_check : String
static_check = "StaticCheck"

abbrev pub gtest_check : String
gtest_check = "GTestCheck"

abbrev pub ratio : ℤ → ℕ → Rational
ratio n d = record { numerator = n; denominator = pos d }

-- The limits of the problem: memory in KB, time in milliseconds.
pub record Limits : Type 0 where
  pub memory_limit : ℤ
  pub time_limit : ℤ

abbrev file_limit : ℤ
file_limit = pos (2 ^ 18)

abbrev proc_limit : ℤ
proc_limit = negsuc 0

abbrev script_limits : ServerConfig → ℤ → ProgramLimit
script_limits server time = record {
  memory_limit = server.script_mem_limit;
  time_limit = time;
  file_limit = server.script_file_limit;
  proc_limit = proc_limit;
}

abbrev test_limits : Limits → ProgramLimit
test_limits l = record {
  memory_limit = l.memory_limit;
  time_limit = l.time_limit;
  file_limit = file_limit;
  proc_limit = proc_limit;
}

unfoldable pub compile_task : ServerConfig → Grading → JudgeTask
compile_task server g = record default_task {
  limits = script_limits server server.compile_time_limit;
  score = ratio (or_zero g.compile_check) 1;
  depends_on = negsuc 0;
  depends_cond = DependencyCondition.on_accepted;
  tag = compile_check;
  check_script = "compile";
  is_random = false;
  testcase_id = negsuc 0;
}

-- The `i`-th of `n` tests that run the program.
abbrev test_task : Limits → String → Bool → ℤ → ℕ → ℕ → JudgeTask
test_task l tag is_random full n i = record default_task {
  limits = test_limits l;
  score = ratio full n;
  depends_on = pos 0;
  depends_cond = DependencyCondition.on_accepted;
  tag = tag;
  check_script = "standard";
  run_script = "standard";
  compare_script = "diff-ign-trailing";
  is_random = is_random;
  testcase_id = pos i;
}

unfoldable pub random_tasks : Limits → Grading → ℤ → List JudgeTask
random_tasks l g times =
    if is_positive (or_zero g.random_tests) && is_positive times
    then tabulate (to_count times)
        (test_task l random_check true (or_zero g.random_tests) (to_count times))
    else []

unfoldable pub standard_tasks : Limits → Grading → ℕ → List JudgeTask
standard_tasks l g cases =
    if not (cases == 0) && is_positive (or_zero g.standard_tests)
    then tabulate cases (test_task l standard_check false (or_zero g.standard_tests) cases)
    else []

unfoldable pub static_tasks : ServerConfig → Grading → List JudgeTask
static_tasks server g =
    if is_positive (or_zero g.static_check)
    then record default_task {
      limits = script_limits server server.oclint;
      score = ratio (or_zero g.static_check) 1;
      depends_on = pos 0;
      depends_cond = DependencyCondition.on_accepted;
      tag = static_check;
      check_script = "static";
      run_script = "standard";
      compare_script = "diff-ign-trailing";
      is_random = false;
      testcase_id = negsuc 0;
    }
      ∷ []
    else []

unfoldable pub gtest_tasks : Limits → Grading → List JudgeTask
gtest_tasks l g =
    if is_positive (or_zero g.google_tests)
    then record default_task {
      limits = test_limits l;
      score = ratio (or_zero g.google_tests) 1;
      depends_on = pos 0;
      depends_cond = DependencyCondition.on_accepted;
      tag = gtest_check;
      check_script = "standard";
      run_script = "gtest";
      compare_script = "gtest";
      is_random = false;
      testcase_id = negsuc 0;
    }
      ∷ []
    else []

abbrev pub testcase_of : List JudgeTask → ℕ → ℤ
testcase_of tasks i = elim (get_elem? tasks i) [ none ↦ negsuc 0 | some t ↦ t.testcase_id ]

abbrev memory_task : ServerConfig → Limits → Grading → Bool → ℕ → ℤ → ℕ → JudgeTask
memory_task server l g is_random n testcase depends = record default_task {
  limits = record {
    memory_limit = l.memory_limit +ℤ pos (256 * 2 ^ 10);
    time_limit = server.valgrind;
    file_limit = server.script_file_limit;
    proc_limit = proc_limit;
  };
  score = ratio (or_zero g.memory_check) n;
  tag = memory_check;
  check_script = "standard";
  run_script = "valgrind";
  compare_script = "valgrind";
  is_random = is_random;
  file_depends_on = pos 0;
  testcase_id = testcase;
  depends_on = pos depends;
  depends_cond = DependencyCondition.on_accepted;
}

-- One memory test for each test of `checks`, with its data and after it.
unfoldable pub memory_after :
    ServerConfig → Limits → Grading → Bool → List JudgeTask → List ℕ → List JudgeTask
memory_after server l g is_random tasks checks =
    map (λ i. memory_task server l g is_random (length checks) (testcase_of tasks i) i) checks

-- The memory tests, from the tasks before them and the indices of the random and the standard tests.
unfoldable pub memory_tasks :
    ServerConfig → Limits → Grading → Bool → List ℕ → List ℕ → List JudgeTask → List JudgeTask
unfolding memory_after
memory_tasks server l g has_random random_checks standard_checks tasks =
    let is_random : Bool = is_nil tasks in
    if is_positive (or_zero g.memory_check)
    then (if is_random
        then (if not (is_nil random_checks)
            then memory_after server l g is_random tasks random_checks
            else if has_random
            then tabulate 10 (λ i. memory_task server l g is_random 10 (pos i) 0)
            else [])
        else if not (is_nil standard_checks)
        then memory_after server l g is_random tasks standard_checks
        else [])
    else []

-- The indices from `start` on.
abbrev pub indices : ℕ → List JudgeTask → List ℕ
indices start tasks = tabulate (length tasks) (λ i. start + i)

-- All tasks of a problem with `cases` sets of standard data, `times` random tests and, if `has_random`,
-- a random generator.
unfoldable pub build_tasks : ServerConfig → Limits → Grading → ℤ → ℕ → Bool → List JudgeTask
unfolding compile_task random_tasks standard_tasks static_tasks gtest_tasks memory_tasks
build_tasks server l g times cases has_random =
    let first : List JudgeTask = compile_task server g ∷ random_tasks l g times in
    let tests : List JudgeTask = first ++ standard_tasks l g cases in
    let others : List JudgeTask = tests ++ (static_tasks server g ++ gtest_tasks l g) in
    others
    ++ memory_tasks server l g has_random (indices 1 (random_tasks l g times))
        (indices (length first) (standard_tasks l g cases)) others
