-- ===== src/Mcourse/Dispatch.antt =====
-- `summarize_program_output` and `configuration::summarize` of src/server/mcourse/mcourse.cpp.
pub mod Outputs
use judge_system.Base.{
  ℕ, ◌+◌, ◌*◌, ◌/◌, ◌==◌, String, str_eq, List, [], ◌∷◌, ◌++◌, Option, none, some, ℤ, pos, true,
  if◌then◌else◌,
}
use judge_system.Choice.{ChoiceQuestion}
use judge_system.ProgramOutput.{OutputQuestion}
use judge_system.Mcourse.Report.{Outside}
use judge_system.Mcourse.Checks.{Judged}
use judge_system.Mcourse.Gtest.{GtestConfig}
use judge_system.Mcourse.Questions.{summarize_choice}
use judge_system.Mcourse.Summary.{Effect, acked, Replies, report_to_server, summarize_programming}

-- `report.grade`, an `int` to which `double` grades are added: after each addition the part of a point is
-- dropped. It is undefined if a grade is not a number.
unfoldable pub add_outputs : ℕ → List OutputQuestion → Option ℕ
add_outputs grade [] = some grade
add_outputs grade (q ∷ rest) =
    let (part, whole) = q.grade in
    let later = add_outputs ((grade * whole + part) / whole) rest in
    if whole == 0 then none else later

-- An undefined grade is `junk`.
abbrev pub grade_or : ℤ → Option ℕ → ℤ
grade_or junk none = junk
grade_or junk (some grade) = pos grade

unfoldable pub summarize_program_output : Replies → ℤ → ℤ → List OutputQuestion → List Effect
unfolding add_outputs report_to_server
summarize_program_output replies retry junk questions =
    report_to_server replies retry true (grade_or junk (add_outputs 0 questions)) ++ acked ∷ []

-- A choice submission is always complete.
abbrev pub summarize_choices : Replies → ℤ → ℕ → List ChoiceQuestion → List Effect
summarize_choices replies retry unit questions =
    report_to_server replies retry true (pos (summarize_choice unit questions)) ++ acked ∷ []

-- A submission of each kind with its results.
pub data Submitted : Type 0 where
  programming_submitted : (finished : ℕ) → Judged → Submitted
  choice_submitted : (unit : ℕ) → List ChoiceQuestion → Submitted
  output_submitted : List OutputQuestion → Submitted

-- The casts; `none` is bad_cast.
abbrev as_programming : Outside → Replies → ℤ → GtestConfig → Submitted → Option (List Effect)
as_programming w replies retry config (programming_submitted finished judged) =
    summarize_programming w replies retry config finished judged
as_programming w replies retry config _ = none

abbrev as_choice : Replies → ℤ → Submitted → Option (List Effect)
as_choice replies retry (choice_submitted unit questions) =
    some (summarize_choices replies retry unit questions)
as_choice replies retry _ = none

abbrev as_output : Replies → ℤ → ℤ → Submitted → Option (List Effect)
as_output replies retry junk (output_submitted questions) =
    some (summarize_program_output replies retry junk questions)
as_output replies retry junk _ = none

-- By the `type` of the submission; `none` is an exception.
unfoldable pub summarize :
    Outside → Replies → ℤ → GtestConfig → ℤ → String → Submitted → Option (List Effect)
unfolding summarize_programming summarize_choice summarize_program_output
summarize w replies retry config junk type submit =
    if str_eq type "programming"
    then as_programming w replies retry config submit
    else if str_eq type "choice"
    then as_choice replies retry submit
    else if str_eq type "program_blank_filling"
    then some []
    else if str_eq type "output"
    then as_output replies retry junk submit
    else none
