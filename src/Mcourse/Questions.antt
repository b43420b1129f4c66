-- ===== src/Mcourse/Questions.antt =====
-- `from_json_choice`, `from_json_program_output` and `summarize_choice` of
-- src/server/mcourse/mcourse.cpp. `none` is an exception; an entry that the code requires is there.
pub mod Answers
pub mod Total
use judge_system.Base.{
  ℕ, zero, suc, ◌+◌, ◌*◌, ◌/◌, Bool, true, false, not, ◌&&◌, ◌||◌, String, List, [], ◌∷◌, ◌++◌,
  Option, none, some, ℤ, pos, is_negative, eq_ℤ, leb_ℤ, to_int, to_count, if◌then◌else◌, length,
  ◌>>=◌,
}
use judge_system.Choice.{ChoiceQuestion}
use judge_system.ProgramOutput.{Bytes, OutputQuestion}

-- An entry of `questions`; grades are in the units of `ChoiceQuestion`.
pub record QuestionEntry : Type 0 where
  pub id : ℤ
  pub max_grade : ℕ
  pub half_grade : Option ℕ
  pub choice_type : String
  pub standard_answer : List ℤ

-- An entry of `answers`.
pub record AnswerEntry : Type 0 where
  pub question_id : ℤ
  pub choice_id : List ℤ

abbrev pub or_0 : Option ℕ → ℕ
or_0 none = 0
or_0 (some n) = n

-- The grade is set when the question is judged.
abbrev pub question_of : QuestionEntry → ChoiceQuestion
question_of q = record {
  kind = q.choice_type;
  grade = 0;
  full_grade = q.max_grade;
  half_grade = or_0 q.half_grade;
  student_answer = [];
  standard_answer = q.standard_answer;
}

-- The loop over the questions, from number `id` on.
unfoldable pub questions_of : ℕ → List QuestionEntry → Option (List ChoiceQuestion)
questions_of id [] = some []
questions_of id (q ∷ rest) =
    let later = questions_of (suc id) rest in
    if eq_ℤ q.id (pos id)
    then elim later [ none ↦ none | some questions ↦ some (question_of q ∷ questions) ]
    else none

-- questions[i].student_answer = choices
abbrev pub set_answer : List ChoiceQuestion → ℕ → List ℤ → List ChoiceQuestion
set_answer [] i choices = []
set_answer (q ∷ rest) zero choices = record q { student_answer = choices } ∷ rest
set_answer (q ∷ rest) (suc i) choices = q ∷ set_answer rest i choices

-- qid < 0 || qid >= (int)questions.size()
abbrev pub out_of_range : ℤ → ℕ → Bool
out_of_range qid size = is_negative qid || leb_ℤ (to_int size) qid

unfoldable pub place_answers : List ChoiceQuestion → List AnswerEntry → Option (List ChoiceQuestion)
place_answers questions [] = some questions
place_answers questions (a ∷ rest) =
    let next : List ChoiceQuestion → Option (List ChoiceQuestion) = λ qs. place_answers qs rest in
    if out_of_range a.question_id (length questions)
    then none
    else next (set_answer questions (to_count a.question_id) a.choice_id)

unfoldable pub from_json_choice :
    List QuestionEntry → List AnswerEntry → Option (List ChoiceQuestion)
unfolding questions_of place_answers
from_json_choice entries answers = do
  questions ← questions_of 0 entries
  place_answers questions answers

-- As many questions as the shortest of the three lists has entries.
unfoldable pub from_json_program_output : List Bytes → List ℕ → List Bytes → List OutputQuestion
from_json_program_output [] scores students = []
from_json_program_output (a ∷ standards) [] students = []
from_json_program_output (a ∷ standards) (n ∷ scores) [] = []
from_json_program_output (a ∷ standards) (n ∷ scores) (s ∷ students) =
    record { grade = (0, 1); full_grade = n; standard_answer = a; student_answer = s }
    ∷ from_json_program_output standards scores students

-- `report.grade` of `summarize_choice`, an `int` to which `float` grades are added: after each addition
-- the part of a point is dropped. A point has `unit` units.
unfoldable pub add_grades : ℕ → ℕ → List ChoiceQuestion → ℕ
add_grades unit grade [] = grade
add_grades unit grade (q ∷ rest) = add_grades unit ((grade * unit + q.grade) / unit) rest

unfoldable pub summarize_choice : ℕ → List ChoiceQuestion → ℕ
unfolding add_grades
summarize_choice unit questions = add_grades unit 0 questions
