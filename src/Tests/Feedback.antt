-- ===== src/Tests/Feedback.antt =====
-- Reports of the Matrix course system.
use judge_system.Base.{
  pos, some, none, ℕ, ◌*◌, ◌+◌, ◌≤◌, ◌≡◌, true, false, ◌==◌, List, [], ◌∷◌, length, arith, ◌<◌,
}
use judge_system.Status.{accepted, wrong_answer, partial_correct, status_eq, code}
use judge_system.Choice.{ChoiceQuestion}
use judge_system.Programming.{default_task, new_result}
use judge_system.Programming.Verify.{is_null}
use judge_system.Mcourse.Tasks.{random_check}
use judge_system.Mcourse.Report.{Outside, of_int, counted, is_judge_error}
use judge_system.Mcourse.Checks.{Judged, summarize_case_check}
use judge_system.Mcourse.Checks.Cases.{summarize_case_check_lem}
use judge_system.Mcourse.Gtest.{GtestConfig}
use judge_system.Mcourse.Summary.{Replies}
use judge_system.Mcourse.Questions.{QuestionEntry, AnswerEntry, from_json_choice, summarize_choice}
use judge_system.Mcourse.Questions.Total.{summarize_choice_lem}
use judge_system.Mcourse.Questions.Answers.{answer_at, last_answer, from_json_choice_lem}
use judge_system.Mcourse.Request.{Message, Value, Contents}
use judge_system.Tests.Mcourse.{problem, detail}

abbrev outside : Outside
outside = record {
  read_file = λ path. some "";
  json_error = λ report. none;
  failed_names = λ report. none;
}

-- The second upload succeeds.
abbrev replies : Replies
replies = record { upload = λ i. i == 1; dumps = true; database = true }

abbrev partial_test : Judged
partial_test =
    (record default_task { tag = "CompileCheck" }, new_result accepted "CompileCheck" 0)
    ∷ (record default_task { tag = "RandomCheck" }, new_result accepted "RandomCheck" 1)
    ∷ (record default_task { tag = "RandomCheck" }, new_result partial_correct "RandomCheck" 2)
    ∷ []

-- A partially correct random test ends the check in an exception.
summarize_case_check_lem_example :
    summarize_case_check outside random_check (of_int (pos 10)) partial_test ≡ none
unfolding counted status_eq code is_judge_error
summarize_case_check_lem_example =
    summarize_case_check_lem outside random_check (of_int (pos 10)) partial_test

abbrev gtest : GtestConfig
gtest = record { info = none; grade_of = λ name. none }

abbrev wrong_test : Judged
wrong_test =
    (record default_task { tag = "CompileCheck" }, new_result accepted "CompileCheck" 0)
    ∷ (record default_task { tag = "StandardCheck" }, new_result wrong_answer "StandardCheck" 1)
    ∷ []

abbrev entries : List QuestionEntry
entries =
    record {
      id = pos 0;
      max_grade = 10;
      half_grade = some 5;
      choice_type = "multi";
      standard_answer = pos 0 ∷ [];
    }
    ∷ record {
      id = pos 1;
      max_grade = 10;
      half_grade = none;
      choice_type = "single";
      standard_answer = pos 2 ∷ [];
    }
    ∷ []

abbrev answers : List AnswerEntry
answers =
    record { question_id = pos 1; choice_id = pos 3 ∷ [] }
    ∷ record { question_id = pos 1; choice_id = pos 2 ∷ [] }
    ∷ []

from_json_choice_lem_example :
    (is_null (from_json_choice entries answers) ≡ false)
    × ((out : List ChoiceQuestion)
        → from_json_choice entries answers ≡ some out
        → (length out ≡ 2) × ((i : ℕ) → i < 2 → answer_at out i ≡ last_answer i answers []))
from_json_choice_lem_example = from_json_choice_lem entries answers (omega arith)

-- Two half points, graded in tenths.
abbrev halves : List ChoiceQuestion
halves =
    record {
      kind = "";
      grade = 5;
      full_grade = 10;
      half_grade = 5;
      student_answer = [];
      standard_answer = [];
    }
    ∷ record {
      kind = "";
      grade = 5;
      full_grade = 10;
      half_grade = 5;
      student_answer = [];
      standard_answer = [];
    }
    ∷ []

summarize_choice_lem_example :
    (summarize_choice 10 halves * 10 ≤ 10) × (10 ≤ summarize_choice 10 halves * 10 + 2 * 9)
summarize_choice_lem_example = summarize_choice_lem 10 halves (omega arith)

abbrev contents : Contents
contents = record {
  problem = problem;
  detail = detail;
  questions = some entries;
  answers = some answers;
  standard_answers = none;
  answer_scores = none;
  student_answers = none;
}

abbrev message : Message
message = record {
  submission_id = some (Value.number (pos 12));
  standard_id = some (Value.number (pos 1001));
  problem_type = some (Value.text "choice");
  submission_type = some (Value.number (pos 0));
}
