-- ===== src/Mcourse/Request.antt =====
-- `from_json` of src/server/mcourse/feedback.cpp, and `from_json_mcourse` and `fetch_submission` of
-- src/server/mcourse/mcourse.cpp. `none` is an exception.
pub mod Acknowledged
use judge_system.Base.{
  ℕ, Bool, true, false, not, ◌&&◌, ◌||◌, String, str_eq, List, [], ◌∷◌, ◌++◌, Option, none, some, ℤ,
  pos, negsuc, eq_ℤ, if◌then◌else◌, ◌>>=◌,
}
use judge_system.Submission.{Submission}
use judge_system.Programming.{ProgrammingSubmission}
use judge_system.Choice.{ChoiceQuestion}
use judge_system.ProgramOutput.{Bytes, OutputQuestion}
use judge_system.Mcourse.Config.{
  ProblemConfig, SubmissionDetail, SubmissionType, student, teacher, ServerConfig,
}
use judge_system.Mcourse.Build.{from_json_programming}
use judge_system.Mcourse.Questions.{
  QuestionEntry, AnswerEntry, from_json_choice, from_json_program_output,
}
use judge_system.Mcourse.Summary.{Effect, acked, grade_set, Replies, report_to_server}

-- A JSON value that the code reads as a number if it is one, and as a string if not.
pub data Value : Type 0 where
  number : ℤ → Value
  text : String → Value

pub data ProblemType : Type 0 where
  programming choice output program_blank_filling : ProblemType

-- The message; `none` is an entry that is missing.
pub record Message : Type 0 where
  pub submission_id : Option Value
  pub standard_id : Option Value
  pub problem_type : Option Value
  pub submission_type : Option Value

pub record JudgeRequest : Type 0 where
  pub sub_id : ℤ
  pub prob_id : ℤ
  pub prob_type : ProblemType
  pub sub_type : SubmissionType

-- `lexical_cast<int>` is outside.
abbrev id_of : (String → Option ℤ) → Value → Option ℤ
id_of lexical_cast (number n) = some n
id_of lexical_cast (text s) = lexical_cast s

unfoldable pub prob_type_of : Value → Option ProblemType
prob_type_of (number n) =
    if eq_ℤ n (pos 0)
    then some programming
    else if eq_ℤ n (pos 1)
    then some choice
    else if eq_ℤ n (pos 4)
    then some output
    else if eq_ℤ n (pos 5)
    then some program_blank_filling
    else none
prob_type_of (text s) =
    if str_eq s "programming"
    then some programming
    else if str_eq s "choice"
    then some choice
    else if str_eq s "output"
    then some output
    else if str_eq s "programBlankFilling"
    then some program_blank_filling
    else none

unfoldable pub sub_type_of : Value → Option SubmissionType
sub_type_of (number n) =
    if eq_ℤ n (pos 0) then some student else if eq_ℤ n (pos 1) then some teacher else none
sub_type_of (text s) =
    if str_eq s "0" || str_eq s "student"
    then some student
    else if str_eq s "1" || str_eq s "teacher"
    then some teacher
    else none

unfoldable pub from_json : (String → Option ℤ) → Message → Option JudgeRequest
unfolding prob_type_of sub_type_of
from_json lexical_cast j = do
  submission_id ← j.submission_id
  sub_id ← id_of lexical_cast submission_id
  standard_id ← j.standard_id
  prob_id ← id_of lexical_cast standard_id
  problem_type ← j.problem_type
  prob_type ← prob_type_of problem_type
  submission_type ← j.submission_type
  sub_type ← sub_type_of submission_type
  some (record { sub_id = sub_id; prob_id = prob_id; prob_type = prob_type; sub_type = sub_type })

-- `config` and `detail` of a request, as each type of problem reads them; `none` is a list that is
-- missing.
pub record Contents : Type 0 where
  pub problem : ProblemConfig
  pub detail : SubmissionDetail
  pub questions : Option (List QuestionEntry)
  pub answers : Option (List AnswerEntry)
  pub standard_answers : Option (List Bytes)
  pub answer_scores : Option (List ℕ)
  pub student_answers : Option (List Bytes)

-- A submission that was read.
pub data Received : Type 0 where
  programming_received : ProgrammingSubmission → Received
  choice_received : List ChoiceQuestion → Received
  output_received : List OutputQuestion → Received

-- The switch over the problem's type; `base` has the values that are the same for each. The result is
-- the pointer, which is empty (`some none`) for a type whose case stores nothing.
unfoldable pub read_submission :
    ServerConfig → Submission → Contents → JudgeRequest → Option (Option Received)
unfolding from_json_programming from_json_choice from_json_program_output
read_submission server base c request = elim request.prob_type [
  | programming ↦ elim (from_json_programming server base request.sub_type c.problem c.detail) [
    | none ↦ none
    | some sub ↦ some (some (programming_received sub))
  ]
  | choice ↦ do
    entries ← c.questions
    answers ← c.answers
    questions ← from_json_choice entries answers
    some (some (choice_received questions))
  | output ↦ do
    standards ← c.standard_answers
    scores ← c.answer_scores
    students ← c.student_answers
    some (some (output_received (from_json_program_output standards scores students)))
  | program_blank_filling ↦ some none
]

-- The effects and the pointer; `none` is an exception, after the effects.
abbrev pub Result : Type 0
Result = List Effect × Option (Option Received)

-- The handler: grade 0 is reported and the exception goes on.
abbrev pub invalid : Replies → ℤ → Result
invalid replies retry = (report_to_server replies retry true (pos 0), none)

-- `request` is what `from_json` gives; the last update of the `try` block marks the submission with -1.
unfoldable pub from_json_mcourse :
    ServerConfig → Submission → Replies → ℤ → Contents → Option JudgeRequest → Result
unfolding read_submission report_to_server
from_json_mcourse server base replies retry c none = ([], none)
from_json_mcourse server base replies retry c (some request) =
    elim (read_submission server base c request) [
      | none ↦ invalid replies retry
      | some received ↦
          if replies.database
          then (grade_set (negsuc 0) ∷ [], some received)
          else invalid replies retry
    ]

-- `body` is the parsed body of the message that was fetched, or `none` if it is no JSON.
unfoldable pub fetch_body :
    ServerConfig
    → Submission
    → Replies
    → ℤ
    → (String → Option ℤ)
    → Contents
    → Option Message
    → Result
unfolding from_json from_json_mcourse
fetch_body server base replies retry lexical_cast c none = ([], none)
fetch_body server base replies retry lexical_cast c (some j) =
    from_json_mcourse server base replies retry c (from_json lexical_cast j)

-- The pointer, and the return value, which is `some false` if there is no message and `none` at an
-- exception.
pub record Fetched : Type 0 where
  pub effects : List Effect
  pub submit : Option Received
  pub returned : Option Bool

abbrev pub handled : Result → Fetched
handled (effects, some received) = record {
  effects = effects;
  submit = received;
  returned = some true;
}
handled (effects, none) = record { effects = effects ++ acked ∷ []; submit = none; returned = none }

unfoldable pub fetch_submission :
    ServerConfig
    → Submission
    → Replies
    → ℤ
    → (String → Option ℤ)
    → Contents
    → Option (Option Message)
    → Fetched
unfolding fetch_body
fetch_submission server base replies retry lexical_cast c none = record {
  effects = [];
  submit = none;
  returned = some false;
}
fetch_submission server base replies retry lexical_cast c (some body) =
    handled (fetch_body server base replies retry lexical_cast c body)
