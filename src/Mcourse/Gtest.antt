-- ===== src/Mcourse/Gtest.antt =====
-- `summarize_gtest_check` of src/server/mcourse/mcourse.cpp. `none` is an exception.
use judge_system.Base.{
  Bool, true, false, not, ◌||◌, String, List, [], ◌∷◌, ◌++◌, Option, none, some, ℤ, pos, neg_ℤ,
  if◌then◌else◌, str_eq,
}
use Prim.Native.String.{◌++◌ as str_append}
use judge_system.Status.{
  accepted, partial_correct, wrong_answer, time_limit_exceeded, memory_limit_exceeded,
  runtime_error, segmentation_fault, floating_point_error, status_eq, at,
}
use judge_system.Programming.{Rational, JudgeTaskResult}
use judge_system.Mcourse.Tasks.{gtest_check}
use judge_system.Mcourse.Report.{
  CheckReport, case_reports, gtest_report, Outside, of_int, ◌+ℚ◌, rounded, counted, is_judge_error,
  status_string,
}
use judge_system.Mcourse.Checks.{Judged}

-- Of the problem's `config`: "google tests info", and the points of "google tests detail".
pub record GtestConfig : Type 0 where
  pub info : Option String
  pub grade_of : String → Option ℤ

-- The score, the message, the failed cases and the entry for the standard tests.
pub record GtestState : Type 0 where
  pub score : Rational
  pub error_message : String
  pub failed_cases : List (String × ℤ)
  pub standard : Option CheckReport

-- The output of the program as a case of the standard tests; the source never sets its two numbers, which
-- are 0 here.
abbrev pub output_case : String → CheckReport
output_case stdout = case_reports (pos 0) (
    record {
      stdin = "";
      result = "";
      stdout = stdout;
      message = "";
      timeused = pos 0;
      memoryused = pos 0;
      standard_stdout = "";
    }
    ∷ [])

-- The message for a verdict that ends the loop.
abbrev pub fatal_message : JudgeTaskResult → Option String
fatal_message r =
    if status_eq r.status memory_limit_exceeded
    then some "Memery out of limit"
    else if status_eq r.status runtime_error
        || status_eq r.status segmentation_fault
        || status_eq r.status floating_point_error
    then some "Run time error"
    else if status_eq r.status time_limit_exceeded
    then some "Time out of limit"
    else if is_judge_error r.status
    then some r.error_log
    else none

-- failed_cases[name] = grade
abbrev assign : String → ℤ → List (String × ℤ) → List (String × ℤ)
assign name grade [] = (name, grade) ∷ []
assign name grade ((n, g) ∷ rest) =
    if str_eq n name then (name, grade) ∷ rest else (n, g) ∷ assign name grade rest

-- Every failed case that has points takes them from the score.
unfoldable pub deduct :
    GtestConfig → List String → Rational → List (String × ℤ) → Rational × List (String × ℤ)
unfolding ◌+ℚ◌
deduct config [] score failed = (score, failed)
deduct config (name ∷ names) score failed =
    let next : Rational → List (String × ℤ) → Rational × List (String × ℤ) = deduct config names in
    elim (config.grade_of name) [
      | none ↦ next score failed
      | some grade ↦ next (score +ℚ of_int (neg_ℤ grade)) (assign name grade failed)
    ]

-- "Google Test did not run" in the source's words, with the output if there is one.
abbrev not_run : String → String
not_run stdout =
    if str_eq stdout ""
    then "Google Test 未运行，请你检查你的程序"
    else str_append "Google Test 未运行，下面是你的程序的标准输出内容: \n" stdout

abbrev pub bad_report : Outside → String → JudgeTaskResult → String
bad_report w stdout r =
    if str_eq r.report ""
    then not_run stdout
    else str_append (elim (w.json_error r.report) [ none ↦ "" | some what ↦ what ])
        (str_append "\n" r.report)

unfoldable pub gtest_loop :
    Outside → GtestConfig → Judged → Bool → GtestState → Option (Bool × GtestState)
unfolding counted status_eq is_judge_error at deduct
gtest_loop w config [] any s = some (any, s)
gtest_loop w config ((task, r) ∷ rest) any s =
    let next : Bool → GtestState → Option (Bool × GtestState) = gtest_loop w config rest in
    if not (str_eq task.tag gtest_check) || not (counted r.status)
    then next any s
    else elim (w.read_file (r.run_dir ++ "run" ∷ "testdata.out" ∷ [])) [
      | none ↦ none
      | some stdout ↦ elim (fatal_message r) [
        | some message ↦ some (
          true,
          record s {
            score = of_int (pos 0);
            error_message = message;
            standard = some (output_case stdout);
          },
        )
        | none ↦ elim (w.failed_names r.report) [
          | none ↦
              some
                (true, record s { score = of_int (pos 0); error_message = bad_report w stdout r })
          | some names ↦
              let (score, failed) = deduct config names task.score s.failed_cases in
              if status_eq r.status accepted
              then next true (record s { score = score; failed_cases = failed })
              else if status_eq r.status partial_correct || status_eq r.status wrong_answer
              then next true (record s {
                score = score;
                failed_cases = failed;
                standard = some (output_case stdout);
              })
              else elim (at r.status status_string) [
                | none ↦ none
                | some text ↦ next true (record s {
                  score = of_int (pos 0);
                  error_message = text;
                  failed_cases = failed;
                })
              ]
        ]
      ]
    ]

-- The total score, and the entries for the GTest check and for the standard tests.
pub record GtestChecked : Type 0 where
  pub total_score : Rational
  pub report : Option CheckReport
  pub standard : Option CheckReport

abbrev gtest_entry : String → Bool → GtestState → Option CheckReport
gtest_entry info any s =
    if any
    then some (
        gtest_report (record {
          cont = none;
          grade = rounded s.score;
          info = info;
          error_message = s.error_message;
          failed_cases = s.failed_cases;
        }))
    else none

unfoldable pub summarize_gtest_check :
    Outside → GtestConfig → Rational → Judged → Option GtestChecked
unfolding gtest_loop rounded ◌+ℚ◌
summarize_gtest_check w config total judged = elim config.info [
  | none ↦ some (record { total_score = total; report = none; standard = none })
  | some info ↦
      elim (gtest_loop w config judged false (record {
        score = of_int (pos 0);
        error_message = "";
        failed_cases = [];
        standard = none;
      })) [
        | none ↦ none
        | some (any, s) ↦ some (record {
          total_score = total +ℚ s.score;
          report = gtest_entry info any s;
          standard = if any then s.standard else none;
        })
      ]
]
