-- ===== src/Tests/Output.antt =====
-- Program output questions.
use judge_system.Base.{
  ◌≡◌, ◌≤◌, ◌↔◌, ◌==◌, refl, ℕ, List, [], ◌∷◌, ◌++◌, none, some, pos, true, All, arith,
}
use judge_system.ProgramOutput.{
  Bytes, OutputQuestion, calc_edit_distance, string_preprocess, calc_similarity, judge_question,
  judge_output, next_entries, last_row, first_row,
}
use judge_system.ProgramOutput.Edits.{Edits}
use judge_system.ProgramOutput.Distance.{calc_edit_distance_lem}
use judge_system.Mcourse.Report.{Outside}
use judge_system.Mcourse.Gtest.{GtestConfig}
use judge_system.Mcourse.Summary.{Replies, acked, report_to_server}
use judge_system.Mcourse.Dispatch.{add_outputs, output_submitted, summarize}
use judge_system.Mcourse.Dispatch.Outputs.{Agrees, summarize_output_lem}

abbrev kitten : Bytes
kitten = 107 ∷ 105 ∷ 116 ∷ 116 ∷ 101 ∷ 110 ∷ []

abbrev sitting : Bytes
sitting = 115 ∷ 105 ∷ 116 ∷ 116 ∷ 105 ∷ 110 ∷ 103 ∷ []

three_edits : calc_edit_distance kitten sitting ≡ 3
unfolding calc_edit_distance next_entries last_row first_row
three_edits = refl

calc_edit_distance_lem_example :
    Edits kitten sitting (calc_edit_distance kitten sitting)
    × ((n : ℕ) → Edits kitten sitting n → calc_edit_distance kitten sitting ≤ n)
calc_edit_distance_lem_example = calc_edit_distance_lem kitten sitting (omega arith) (omega arith)

abbrev question : OutputQuestion
question = record {
  grade = (0, 1);
  full_grade = 10;
  standard_answer = 52 ∷ 50 ∷ 10 ∷ [];
  student_answer = 52 ∷ 32 ∷ 50 ∷ [];
}

-- The second answer is wrong.
abbrev questions : List OutputQuestion
questions = question ∷ record question { standard_answer = kitten; student_answer = sitting } ∷ []

abbrev outside : Outside
outside = record {
  read_file = λ path. some "";
  json_error = λ report. none;
  failed_names = λ report. none;
}

abbrev replies : Replies
replies = record { upload = λ i. i == 0; dumps = true; database = true }

abbrev gtest : GtestConfig
gtest = record { info = none; grade_of = λ name. none }

summarize_output_lem_example :
    (grade : ℕ) × (add_outputs 0 (judge_output questions) ≡ some grade)
    × (summarize outside replies
          (pos 3)
          gtest
          (pos 0)
          "output"
          (output_submitted (judge_output questions))
        ≡ some (report_to_server replies (pos 3) true (pos grade) ++ acked ∷ []))
    × (grade ≤ 20)
    × ((grade ≡ 20) ↔ All Agrees questions)
unfolding string_preprocess
summarize_output_lem_example =
    summarize_output_lem outside replies (pos 3) gtest (pos 0) questions (
      (omega arith, omega arith, omega arith, omega arith),
      ((omega arith, omega arith, omega arith, omega arith), tt),
    )

-- Ten points, and 10 * 4 / 7.
reported : add_outputs 0 (judge_output questions) ≡ some 15
unfolding add_outputs judge_output judge_question calc_similarity string_preprocess
    calc_edit_distance next_entries last_row first_row
reported = refl
