-- ===== src/Mcourse/Report.antt =====
-- The reports of include/server/mcourse/feedback.hpp, and the table of texts and the fractions that
-- src/server/mcourse/mcourse.cpp computes them with. A JSON value is its text.
use judge_system.Base.{
  ℕ, zero, suc, ◌+◌, ◌*◌, ◌/◌, Bool, not, ◌||◌, String, List, [], ◌∷◌, Option, ℤ, pos, negsuc, ◌+ℤ◌,
  neg_ℤ,
}
use judge_system.Status.{
  Status, pending, running, accepted, compilation_error, executable_compilation_error,
  dependency_not_satisfied, wrong_answer, runtime_error, time_limit_exceeded, memory_limit_exceeded,
  output_limit_exceeded, presentation_error, restrict_function, out_of_contest_time, compiling,
  segmentation_fault, floating_point_error, random_gen_error, compare_error, system_error,
  status_eq,
}
use judge_system.Programming.{Rational, FilePath}

abbrev pub status_string : List (Status × String)
status_string =
    (pending, "")
    ∷ (running, "")
    ∷ (accepted, "OK")
    ∷ (compilation_error, "CE")
    ∷ (executable_compilation_error, "CE")
    ∷ (wrong_answer, "WA")
    ∷ (runtime_error, "RE")
    ∷ (time_limit_exceeded, "TL")
    ∷ (memory_limit_exceeded, "ML")
    ∷ (output_limit_exceeded, "OL")
    ∷ (presentation_error, "PE")
    ∷ (restrict_function, "RF")
    ∷ (out_of_contest_time, "")
    ∷ (compiling, "")
    ∷ (segmentation_fault, "SF")
    ∷ (floating_point_error, "FPE")
    ∷ (random_gen_error, "RG")
    ∷ (compare_error, "CP")
    ∷ (system_error, "IE")
    ∷ []

pub record CompileCheckReport : Type 0 where
  pub cont : Bool
  pub grade : ℤ
  pub message : String
  pub error_log : String

pub record ErrorReport : Type 0 where
  pub result : String
  pub message : String

pub record CheckCaseReport : Type 0 where
  pub stdin : String
  pub result : String
  pub stdout : String
  pub message : String
  pub timeused : ℤ
  pub memoryused : ℤ
  pub standard_stdout : String

pub record MemoryCheckErrorReport : Type 0 where
  pub valgrindoutput : String
  pub message : String
  pub stdin : String

-- `cont` is the value that the code leaves it with: `none` is one that was never set.
pub record GtestCheckReport : Type 0 where
  pub cont : Option Bool
  pub grade : ℤ
  pub info : String
  pub error_message : String
  pub failed_cases : List (String × ℤ)

-- One entry of the final report.
pub data CheckReport : Type 0 where
  compile_report : CompileCheckReport → CheckReport
  failure : ErrorReport → CheckReport
  case_reports : (grade : ℤ) (cases : List CheckCaseReport) → CheckReport
  static_report : (grade : ℤ) (cont : Bool) (report : String) → CheckReport
  memory_report : (grade : ℤ) (report : List MemoryCheckErrorReport) → CheckReport
  gtest_report : GtestCheckReport → CheckReport

-- What is outside: the contents of a file up to the size limit (`none` if it is missing:
-- `read_file_content` throws then), whether a text is JSON (the message of the exception if not), and
-- the names of the failed cases in the JSON of a GTest report.
pub record Outside : Type 0 where
  pub read_file : FilePath → Option String
  pub json_error : String → Option String
  pub failed_names : String → Option (List String)

abbrev mul_ℤ : ℤ → ℤ → ℤ
mul_ℤ (pos a) (pos b) = pos (a * b)
mul_ℤ (pos a) (negsuc b) = neg_ℤ (pos (a * (b + 1)))
mul_ℤ (negsuc a) (pos b) = neg_ℤ (pos ((a + 1) * b))
mul_ℤ (negsuc a) (negsuc b) = pos ((a + 1) * (b + 1))

abbrev pub of_int : ℤ → Rational
of_int n = record { numerator = n; denominator = pos 1 }

infixl 65 ◌+ℚ◌
unfoldable pub ◌+ℚ◌ : Rational → Rational → Rational
p +ℚ q = record {
  numerator = mul_ℤ p.numerator q.denominator +ℤ mul_ℤ q.numerator p.denominator;
  denominator = mul_ℤ p.denominator q.denominator;
}

infixl 70 ◌*ℚ◌
unfoldable pub ◌*ℚ◌ : Rational → Rational → Rational
p *ℚ q = record {
  numerator = mul_ℤ p.numerator q.numerator;
  denominator = mul_ℤ p.denominator q.denominator;
}

-- round(n / d), half away from 0, for d > 0.
abbrev round_ℕ : ℕ → ℤ → ℕ
round_ℕ n (pos zero) = 0
round_ℕ n (pos (suc d)) = (2 * n + suc d) / (2 * suc d)
round_ℕ n (negsuc d) = 0

unfoldable pub rounded : Rational → ℤ
rounded q = elim q.numerator [
  | pos n ↦ pos (round_ℕ n q.denominator)
  | negsuc n ↦ neg_ℤ (pos (round_ℕ (n + 1) q.denominator))
]

-- Has the task been judged?
unfoldable pub counted : Status → Bool
unfolding status_eq
counted s = not (status_eq s pending || status_eq s running || status_eq s dependency_not_satisfied)

-- The verdicts that are the judge system's own failures.
unfoldable pub is_judge_error : Status → Bool
unfolding status_eq
is_judge_error s =
    status_eq s system_error
    || status_eq s random_gen_error
    || status_eq s executable_compilation_error
    || status_eq s compare_error
