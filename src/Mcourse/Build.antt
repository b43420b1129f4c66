-- ===== src/Mcourse/Build.antt =====
-- `from_json_programming` of src/server/mcourse/mcourse.cpp. `none` is an exception: a value that the
-- code needs is missing.
pub mod Accepted
use judge_system.Base.{
  ℕ, zero, suc, ◌^◌, ◌+◌, ◌/◌, ◌*◌, ◌-◌, ◌==◌, Bool, true, false, not, ◌&&◌, ◌||◌, String, List, [],
  ◌∷◌, ◌++◌, Option, none, some, ℤ, pos, negsuc, scale_ℤ, if◌then◌else◌, length, str_eq, ◌>>=◌,
  is_positive, min,
}
use Prim.Native.String.{◌++◌ as str_append}
use text.Mathlib.Text.{starts_with}
use judge_system.Submission.{Submission}
use judge_system.Programming.{
  Program, Repository, empty_program, TestCaseData, ProgrammingSubmission, JudgeTask,
}
use judge_system.Mcourse.Config.{
  RandomConfig, Grading, StandardConfig, ProblemConfig, SubmissionDetail, SubmissionType, student,
  teacher, ServerConfig, or_zero,
}
use judge_system.Mcourse.Tasks.{Limits, build_tasks}

abbrev pub or_empty : Option (List String) → List String
or_empty none = []
or_empty (some l) = l

abbrev pub is_some {ℓ} : {A : Type ℓ} → Option A → Bool
is_some none = false
is_some (some a) = true

abbrev cpp : String → String
cpp language = if str_eq language "c++" then "cpp" else language

-- (int) n / 1000 seconds, in milliseconds.
unfoldable pub whole_seconds : ℤ → ℤ
whole_seconds (pos n) = pos (n / 1000 * 1000)
whole_seconds (negsuc n) = elim ((n + 1) / 1000) [
  | zero ↦ pos 0
  | suc q ↦ negsuc ((q + 1) * 1000 - 1)
]

abbrev pub is_git : SubmissionType → SubmissionDetail → Bool
is_git student d = is_some d.git_path && is_some d.git_protocol
is_git teacher d = false

-- The language of the submission; of a git submission it stays empty.
unfoldable pub submission_language :
    SubmissionType → ProblemConfig → SubmissionDetail → String → Option String
submission_language teacher config detail standard = some standard
submission_language student config detail standard =
    if is_git student detail then some "" else elim detail.language [
      | some language ↦ some (cpp language)
      | none ↦ elim config.language [
        | none ↦ none
        | some languages ↦ elim languages [ [] ↦ none | first ∷ rest ↦ some (cpp first) ]
      ]
    ]

-- The test data: as many sets as there are pairs of an input and an output.
abbrev one_case : TestCaseData
one_case = record { inputs = "testdata.in" ∷ []; outputs = "testdata.out" ∷ [] }

abbrev pub pair_cases : List String → List String → List TestCaseData
pair_cases [] outputs = []
pair_cases (i ∷ inputs) [] = []
pair_cases (i ∷ inputs) (o ∷ outputs) = one_case ∷ pair_cases inputs outputs

unfoldable pub test_cases : StandardConfig → List TestCaseData
test_cases standard = elim standard.standard_input [
  | none ↦ []
  | some inputs ↦ elim standard.standard_output [
    | none ↦ []
    | some outputs ↦ pair_cases inputs outputs
  ]
]

-- The language of a random generator with this compile command.
abbrev random_language : String → String
random_language command =
    if starts_with command "gcc" || starts_with command "g++" || starts_with command "clang"
    then "cpp"
    else command

abbrev random_command : RandomConfig → String
random_command r = elim r.complie_command [
  | some c ↦ c
  | none ↦ elim r.compile_command [ some c ↦ c | none ↦ "cpp" ]
]

abbrev or_text : Option String → String
or_text none = ""
or_text (some s) = s

-- How many random tests there are, and the random generator.
unfoldable pub random_program :
    Option RandomConfig → Grading → StandardConfig → Option (ℤ × Option Program)
random_program none grading standard = some (pos 0, none)
random_program (some r) grading standard =
    if is_positive (or_zero grading.random_tests)
    then elim r.run_times [
      | none ↦ none
      | some times ↦ some (
        times,
        elim standard.random_source [
          | none ↦ none
          | some sources ↦ some (record empty_program {
            source_files = sources;
            language = random_language (random_command r);
            entry_point = or_text r.entry_point;
          })
        ],
      )
    ]
    else some (pos 0, none)

abbrev url_of : Option String → Option String → String
url_of (some protocol) (some path) = str_append protocol (str_append "://" path)
url_of _ _ = ""

-- The program of a submission with these source files besides the problem's own.
unfoldable pub submitted :
    ServerConfig
    → SubmissionType
    → SubmissionDetail
    → StandardConfig
    → List String
    → String
    → String
    → List String
    → Program
submitted server sub_type detail standard sources language entry_point compile_command =
    let support : List String = or_empty standard.support ++ or_empty standard.hidden_support in
    record empty_program {
      source_files = support ++ sources;
      compile_command = compile_command;
      language = if is_git sub_type detail then "" else language;
      entry_point = if is_git sub_type detail then "" else entry_point;
      repository =
          if is_git sub_type detail
          then some (record {
            url = url_of detail.git_protocol detail.git_path;
            commit = or_text detail.git_commit;
            username = server.git_username;
            password = server.git_password;
            overrides = support;
          })
          else none;
    }

-- What the tests add to the compiler's arguments.
abbrev extra_arguments : Grading → List String
extra_arguments g =
    (if is_positive (or_zero g.google_tests) then "-lgtest_main" ∷ "-lgtest" ∷ [] else [])
    ++ (if is_positive (or_zero g.memory_check) then "-g" ∷ [] else [])

unfoldable pub from_json_programming :
    ServerConfig
    → Submission
    → SubmissionType
    → ProblemConfig
    → SubmissionDetail
    → Option ProgrammingSubmission
unfolding submission_language test_cases random_program submitted whole_seconds
from_json_programming server base sub_type config detail = do
  standard_language ← config.standard_language
  language ← submission_language sub_type config detail (cpp standard_language)
  standard ← config.standard
  sources ← config.submission
  memory ← config.memory_limit
  time ← config.time_limit
  grading ← config.grading
  (times, random) ← random_program config.random grading standard
  let entry_point = or_text config.entry_point
  let cases = test_cases standard
  let limits : Limits = record {
    memory_limit = scale_ℤ (2 ^ 10) memory;
    time_limit = whole_seconds time;
  }
  some (record {
    base = record base { kind = "programming" };
    judge_tasks = build_tasks server limits grading times (length cases) (is_some random);
    test_data = cases;
    submission = some (
        submitted server sub_type detail standard sources language entry_point
          (extra_arguments grading));
    standard = some (record empty_program {
      source_files = or_empty standard.support ++ or_empty standard.hidden_support ++ sources;
      language = cpp standard_language;
      entry_point = entry_point;
    });
    random = random;
    compare = none;
  })
