-- ===== src/Mcourse/Summary.antt =====
-- `post_report_to_fs`, `report_to_server` and `summarize_programming` of
-- src/server/mcourse/mcourse.cpp.
pub mod Given
pub mod Retry
pub mod Returns
use judge_system.Base.{
  ℕ, zero, suc, ◌+◌, ◌-◌, ◌==◌, Bool, true, false, not, ◌&&◌, ◌||◌, String, List, [], ◌∷◌, ◌++◌,
  Option, none, some, ℤ, pos, negsuc, if◌then◌else◌, length, to_count, ◌>>=◌,
}
use judge_system.Programming.{Rational, JudgeTask, JudgeTaskResult}
use judge_system.Mcourse.Report.{CheckReport, Outside, of_int, rounded}
use judge_system.Mcourse.Checks.{
  Judged, Checked, summarize_compile_check, summarize_memory_check, summarize_random_check,
  summarize_standard_check, summarize_static_check,
}
use judge_system.Mcourse.Gtest.{GtestConfig, GtestChecked, summarize_gtest_check}

-- What the server does to the world: an upload with its outcome, the grade in the database, and the
-- acknowledgement of the message.
pub data Effect : Type 0 where
  uploaded : (ok : Bool) → Effect
  grade_set : (grade : ℤ) → Effect
  acked : Effect

-- How the network and the database answer: does the upload of attempt `i` succeed, does the report have
-- a dump, and does the database take the grade?
pub record Replies : Type 0 where
  pub upload : ℕ → Bool
  pub dumps : Bool
  pub database : Bool

-- `left` attempts from attempt `i` on.
unfoldable pub post_attempts : (ℕ → Bool) → ℕ → ℕ → List Effect
post_attempts upload i zero = []
post_attempts upload i (suc left) =
    let later = post_attempts upload (suc i) left in
    if upload i then uploaded true ∷ [] else uploaded false ∷ later

-- `post_report_to_fs`, with `system.post_retry_time`.
unfoldable pub post_report_to_fs : (ℕ → Bool) → ℤ → List Effect
unfolding post_attempts
post_report_to_fs upload post_retry_time = post_attempts upload 0 (to_count post_retry_time)

unfoldable pub report_to_server : Replies → ℤ → Bool → ℤ → List Effect
unfolding post_report_to_fs
report_to_server replies retry is_complete grade =
    post_report_to_fs replies.upload retry
    ++ (if is_complete && replies.database
        then grade_set (if replies.dumps then grade else negsuc 1) ∷ []
        else [])

-- The entries of the report, under their names.
abbrev Entries : Type 0
Entries = List (String × CheckReport)

abbrev pub entry : String → Option CheckReport → Entries
entry name none = []
entry name (some report) = (name, report) ∷ []

-- The entry for the standard tests, unless the GTest check has one.
abbrev standard_entry : Option CheckReport → Option CheckReport → Option CheckReport
standard_entry standard none = standard
standard_entry standard (some report) = some report

pub record Report : Type 0 where
  pub grade : ℤ
  pub report : Entries

-- The checks one after the other; with the results as the static check leaves them.
unfoldable pub checks : Outside → GtestConfig → Judged → Option (Report × Judged)
unfolding summarize_compile_check summarize_memory_check summarize_static_check
    summarize_gtest_check rounded
checks w config judged = do
  compiled ← summarize_compile_check (of_int (pos 0)) judged
  memory ← summarize_memory_check w compiled.total_score judged
  random ← summarize_random_check w memory.total_score judged
  standard ← summarize_standard_check w random.total_score judged
  let static : Checked × Judged = summarize_static_check w standard.total_score judged
  gtest ← summarize_gtest_check w config static.0.total_score static.1
  some (
    record {
      grade = rounded gtest.total_score;
      report =
          entry "compile check" compiled.report
          ++ entry "memory check" memory.report
          ++ entry "random tests" random.report
          ++ entry "standard tests" (standard_entry standard.report gtest.standard)
          ++ entry "static check" static.0.report
          ++ entry "google tests" gtest.report;
    },
    static.1,
  )

-- The effects of `summarize_programming`; `none` is an exception, before all of them.
unfoldable pub summarize_programming :
    Outside → Replies → ℤ → GtestConfig → ℕ → Judged → Option (List Effect)
unfolding checks report_to_server
summarize_programming w replies retry config finished judged = do
  (report, results) ← checks w config judged
  let is_complete : Bool = finished == length judged
  some (
      report_to_server replies retry is_complete report.grade
      ++ (if is_complete then acked ∷ [] else []))
