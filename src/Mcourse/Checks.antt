-- ===== src/Mcourse/Checks.antt =====
-- `summarize_compile_check`, `summarize_random_check`, `summarize_standard_check`,
-- `summarize_static_check` and `summarize_memory_check` of src/server/mcourse/mcourse.cpp. `none` is an
-- exception; the results stand beside their tasks.
pub mod Cases
use judge_system.Base.{
  ℕ, Bool, true, false, not, ◌&&◌, ◌||◌, String, List, [], ◌∷◌, ◌++◌, Option, none, some, ℤ, pos,
  shift_right, if◌then◌else◌, ◌>>=◌, str_eq,
}
use Prim.Native.String.{◌++◌ as str_append}
use judge_system.Status.{
  Status, accepted, partial_correct, wrong_answer, time_limit_exceeded, system_error, status_eq, at,
  get_display_message,
}
use judge_system.Programming.{Rational, JudgeTask, JudgeTaskResult}
use judge_system.Mcourse.Tasks.{random_check, standard_check, static_check, memory_check}
use judge_system.Mcourse.Report.{
  CompileCheckReport, ErrorReport, CheckCaseReport, MemoryCheckErrorReport, CheckReport,
  compile_report, failure, case_reports, static_report, memory_report, Outside, of_int, ◌+ℚ◌, ◌*ℚ◌,
  rounded, counted, is_judge_error, status_string,
}

abbrev pub Judged : Type 0
Judged = List (JudgeTask × JudgeTaskResult)

-- The total score after a check, and its entry in the report if it has one.
pub record Checked : Type 0 where
  pub total_score : Rational
  pub report : Option CheckReport

unfoldable pub get_error_report : Status → JudgeTaskResult → Option CheckReport
unfolding at
get_error_report stat result = elim (at stat status_string) [
  | none ↦ none
  | some text ↦ some (failure (record { result = text; message = result.error_log }))
]

-- Without a task, `judge_tasks[0]` is out of range: `none`.
unfoldable pub summarize_compile_check : Rational → Judged → Option Checked
unfolding status_eq get_error_report rounded ◌+ℚ◌
summarize_compile_check total [] = none
summarize_compile_check total ((task, result) ∷ rest) =
    if status_eq result.status accepted
    then some (record {
      total_score = total +ℚ task.score;
      report = some (
          compile_report (record {
            cont = true;
            grade = rounded task.score;
            message = "pass";
            error_log = result.error_log;
          }));
    })
    else if status_eq result.status system_error
    then elim (get_error_report system_error result) [
      | none ↦ none
      | some report ↦ some (record { total_score = total; report = some report })
    ]
    else some (record {
      total_score = total;
      report = some (
          compile_report (record {
            cont = false;
            grade = pos 0;
            message = result.report;
            error_log = result.error_log;
          }));
    })

unfoldable pub check_case : Outside → JudgeTaskResult → String → Option CheckCaseReport
check_case w r text = do
  stdin ← w.read_file (r.data_dir ++ "input" ∷ "testdata.in" ∷ [])
  standard_stdout ← w.read_file (r.data_dir ++ "output" ∷ "testdata.out" ∷ [])
  stdout ← w.read_file (r.run_dir ++ "run" ∷ "testdata.out" ∷ [])
  message ← w.read_file (r.run_dir ++ "program.err" ∷ [])
  some (record {
    result = text;
    timeused = r.run_time;
    memoryused = shift_right r.memory_used 20;
    stdin = stdin;
    standard_stdout = standard_stdout;
    stdout = stdout;
    message = message;
  })

-- What the loop over the tests has so far: `exists`, the score and the cases. Or an early return.
pub data Progress : Type 0 where
  so_far : (any : Bool) (score : Rational) (cases : List CheckCaseReport) → Progress
  returned : CheckReport → Progress

-- The loop of the random and of the standard tests, which have the same body but for the tag.
unfoldable pub check_loop :
    Outside → String → Judged → Bool → Rational → List CheckCaseReport → Option Progress
unfolding counted status_eq is_judge_error get_error_report at check_case ◌+ℚ◌ ◌*ℚ◌
check_loop w tag [] any score cases = some (so_far any score cases)
check_loop w tag ((task, r) ∷ rest) any score cases =
    let next : Bool → Rational → List CheckCaseReport → Option Progress = check_loop w tag rest in
    if not (str_eq task.tag tag) || not (counted r.status)
    then next any score cases
    else if status_eq r.status accepted
    then next true (score +ℚ task.score) cases
    else if is_judge_error r.status
    then elim (get_error_report r.status r) [ none ↦ none | some report ↦ some (returned report) ]
    else elim (at r.status status_string) [
      | none ↦ none
      | some text ↦ elim (check_case w r text) [
        | none ↦ none
        | some kase ↦
            next true
              (if status_eq r.status partial_correct then score +ℚ r.score *ℚ task.score else score)
              (cases ++ kase ∷ [])
      ]
    ]

-- The check of the tests with a tag.
unfoldable pub summarize_case_check : Outside → String → Rational → Judged → Option Checked
unfolding check_loop rounded
summarize_case_check w tag total judged = elim (check_loop w tag judged false (of_int (pos 0)) []) [
  | none ↦ none
  | some (returned report) ↦ some (record { total_score = total; report = some report })
  | some (so_far any score cases) ↦ some (record {
    total_score = total +ℚ score;
    report = if any then some (case_reports (rounded score) cases) else none;
  })
]

abbrev pub summarize_random_check : Outside → Rational → Judged → Option Checked
summarize_random_check w = summarize_case_check w random_check

abbrev pub summarize_standard_check : Outside → Rational → Judged → Option Checked
summarize_standard_check w = summarize_case_check w standard_check

abbrev pub lines : String → String → String
lines a b = str_append a (str_append "\n" b)

-- A report of a static check that is no JSON makes the result a system error.
abbrev pub parsed : Outside → JudgeTaskResult → JudgeTaskResult
parsed w r = elim (w.json_error r.report) [
  | none ↦ r
  | some what ↦ record r {
    status = system_error;
    error_log = lines (lines r.error_log what) r.report;
  }
]

abbrev static_text : Outside → JudgeTaskResult → String
static_text w r = elim (w.json_error r.report) [
  | none ↦ r.report
  | some what ↦ lines (lines r.error_log what) r.report
]

-- The loop of the static checks, with the results as it leaves them: `cont` and `report` are those of
-- the last check.
unfoldable pub static_loop :
    Outside → Judged → Judged → Rational → Rational → Bool → String → Bool → Checked × Judged
unfolding counted status_eq is_judge_error rounded ◌+ℚ◌ ◌*ℚ◌
static_loop w done [] total score any report cont = (
  record {
    total_score = total +ℚ score;
    report = if any then some (static_report (rounded score) cont report) else none;
  },
  done,
)
static_loop w done ((task, r) ∷ rest) total score any report cont =
    let next : Judged → Rational → Rational → Bool → String → Bool → Checked × Judged =
      λ d. static_loop w d rest in
    if not (str_eq task.tag static_check) || not (counted r.status)
    then next (done ++ (task, r) ∷ []) total score any report cont
    else if status_eq (parsed w r).status accepted
    then next (done ++ (task, parsed w r) ∷ []) total (score +ℚ task.score) true (static_text w r)
        true
    else if status_eq (parsed w r).status partial_correct
    then next (done ++ (task, parsed w r) ∷ []) total (score +ℚ r.score *ℚ task.score) true
        (static_text w r) true
    else if is_judge_error (parsed w r).status
    then (
      record {
        total_score = total;
        report = some (static_report (pos 0) false (parsed w r).error_log);
      },
      done ++ (task, parsed w r) ∷ rest,
    )
    else next (done ++ (task, parsed w r) ∷ []) total score true (static_text w r) true

unfoldable pub summarize_static_check : Outside → Rational → Judged → Checked × Judged
unfolding static_loop
summarize_static_check w total judged =
    static_loop w [] judged total (of_int (pos 0)) false "null" false

abbrev pub input_of : Outside → JudgeTaskResult → Option String
input_of w r = w.read_file (r.data_dir ++ "input" ∷ "testdata.in" ∷ [])

abbrev or_empty : Option String → String
or_empty none = ""
or_empty (some s) = s

-- The entry for a memory test that did not pass.
unfoldable pub memory_error : Outside → JudgeTaskResult → Option MemoryCheckErrorReport
unfolding status_eq get_display_message
memory_error w r =
    if status_eq r.status wrong_answer
    then elim (input_of w r) [
      | none ↦ none
      | some stdin ↦ some (elim (w.json_error r.report) [
        | none ↦ record { valgrindoutput = r.report; message = ""; stdin = stdin }
        | some what ↦ record {
          valgrindoutput = "null";
          message = lines (lines r.error_log what) r.report;
          stdin = stdin;
        }
      ])
    ]
    else if status_eq r.status time_limit_exceeded
    then elim (input_of w r) [
      | none ↦ none
      | some stdin ↦
          some (record { valgrindoutput = "null"; message = "Time limit exceeded"; stdin = stdin })
    ]
    else some (record {
      valgrindoutput = "null";
      message =
          str_append "Internal Error, status: "
            (str_append (or_empty (get_display_message r.status)) (str_append ":\n" r.error_log));
      stdin = "";
    })

unfoldable pub memory_loop :
    Outside → Judged → Rational → Rational → Bool → List MemoryCheckErrorReport → Option Checked
unfolding counted status_eq rounded ◌+ℚ◌ memory_error
memory_loop w [] total score any report = some (record {
  total_score = total +ℚ score;
  report = if any then some (memory_report (rounded score) report) else none;
})
memory_loop w ((task, r) ∷ rest) total score any report =
    let next : Rational → Bool → List MemoryCheckErrorReport → Option Checked =
      memory_loop w rest total in
    if not (str_eq task.tag memory_check) || not (counted r.status)
    then next score any report
    else if status_eq r.status accepted
    then next (score +ℚ task.score) true report
    else elim (memory_error w r) [ none ↦ none | some e ↦ next score true (report ++ e ∷ []) ]

unfoldable pub summarize_memory_check : Outside → Rational → Judged → Option Checked
unfolding memory_loop
summarize_memory_check w total judged = memory_loop w judged total (of_int (pos 0)) false []
