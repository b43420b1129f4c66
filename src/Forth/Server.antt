-- ===== src/Forth/Server.antt =====
-- Messages and reports of the Forth server in src/server/forth/forth.cpp. The JSON library is outside: a
-- message is given by its entries, and `dump` makes a text of a report or throws.
pub mod Answered
pub mod Totals
use judge_system.Base.{
  ℕ, ◌+◌, Bool, true, false, String, str_eq, List, [], ◌∷◌, ◌++◌, Option, none, some, ℤ,
  if◌then◌else◌, ◌>>=◌,
}
use judge_system.Submission.{Submission}
use judge_system.Programming.{Condition, JudgeTaskResult, ProgrammingSubmission}
use judge_system.Choice.{ChoiceQuestion}
use judge_system.Rabbitmq.{RabbitmqChannel, report_to}
use judge_system.Forth.{SubmissionEntry, assigned, read_all, programming_submission_of}

pub record ChoiceEntry : Type 0 where
  pub kind : Option String  -- `type`
  pub grade : Option ℕ
  pub full_grade : Option ℕ
  pub half_grade : Option ℕ
  pub student_answer : Option (List ℤ)
  pub standard_answer : Option (List ℤ)

pub record MessageEntry : Type 0 where
  pub kind : Option String  -- `type`
  pub category : Option String
  pub prob_id : Option String
  pub sub_id : Option String
  pub updated_at : Option ℤ
  pub programming : SubmissionEntry
  pub questions : Option (List ChoiceEntry)

pub data ForthSubmission : Type 0 where
  programming : ProgrammingSubmission → ForthSubmission
  choice : Submission → List ChoiceQuestion → ForthSubmission

unfoldable pub choice_question_of : ChoiceEntry → Option ChoiceQuestion
choice_question_of j = do
  kind ← j.kind
  grade ← j.grade
  full_grade ← j.full_grade
  student_answer ← j.student_answer
  standard_answer ← j.standard_answer
  some (record {
    kind = kind;
    grade = grade;
    full_grade = full_grade;
    half_grade = assigned 0 j.half_grade;
    student_answer = student_answer;
    standard_answer = standard_answer;
  })

-- The fields of `submission`; `fresh` is what a new one has.
unfoldable pub base_of : Submission → String → MessageEntry → Option Submission
base_of fresh kind j = do
  category ← j.category
  sub_id ← j.sub_id
  some (record fresh {
    kind = kind;
    category = category;
    prob_id = assigned fresh.prob_id j.prob_id;
    sub_id = sub_id;
    updated_at = assigned fresh.updated_at j.updated_at;
  })

unfoldable pub submission_of :
    Condition → ProgrammingSubmission → MessageEntry → Option ForthSubmission
unfolding programming_submission_of choice_question_of base_of read_all
submission_of junk fresh j = do
  kind ← j.kind
  if str_eq kind "programming"
      then (do
        sub ← programming_submission_of junk fresh j.programming
        base ← base_of fresh.base kind j
        some (programming (record sub { base = base })))
      else if str_eq kind "choice"
      then (do
        entries ← j.questions
        questions ← read_all choice_question_of entries
        base ← base_of fresh.base kind j
        some (choice base questions))
      else none

-- What `fetch` of the channel answers; the message may be no JSON.
pub data Delivery : Type 0 where
  fetch_threw : Delivery
  no_message : Delivery
  delivered : Option MessageEntry → Delivery

-- The server: what goes out, and how many messages were acknowledged.
pub record ForthServer : Type 0 where
  pub judge_reporter : RabbitmqChannel
  pub acked : ℕ

abbrev pub ack : ForthServer → ForthServer
ack s = record s { acked = s.acked + 1 }

-- The result is `none` if `fetch_submission` throws, and else the submission if it returns true.
unfoldable pub fetch_submission :
    Condition
    → ProgrammingSubmission
    → Delivery
    → ForthServer
    → Option (Option ForthSubmission) × ForthServer
unfolding submission_of
fetch_submission junk fresh fetch_threw s = (none, s)
fetch_submission junk fresh no_message s = (some none, s)
fetch_submission junk fresh (delivered none) s = (none, ack s)
fetch_submission junk fresh (delivered (some j)) s = elim (submission_of junk fresh j) [
  | none ↦ (none, ack s)
  | some sub ↦ (some (some sub), s)
]

pub record ProgrammingJudgeReport : Type 0 where
  pub kind : String  -- `type`
  pub category : String
  pub prob_id : String
  pub sub_id : String
  pub results : List JudgeTaskResult

pub record ChoiceJudgeReport : Type 0 where
  pub kind : String  -- `type`
  pub category : String
  pub prob_id : String
  pub sub_id : String
  pub grade : ℕ
  pub full_grade : ℕ
  pub results : List ℕ

pub record Dumps : Type 0 where
  pub programming_report : ProgrammingJudgeReport → Option String
  pub choice_report : ChoiceJudgeReport → Option String

-- `report_to_server` always returns true; the routing key is the category.
unfoldable pub report_to_server : Submission → String → ForthServer → ForthServer
unfolding report_to
report_to_server submit text s = record s {
  judge_reporter = report_to text submit.category s.judge_reporter;
}

unfoldable pub summarize_invalid : ForthServer → ForthServer
summarize_invalid s = ack s

unfoldable pub summarize_programming :
    Dumps → ProgrammingSubmission → List JudgeTaskResult → Bool → ForthServer → Option ForthServer
unfolding report_to_server
summarize_programming dumps submit results final s = do
  text ← dumps.programming_report (record {
    kind = submit.base.kind;
    category = submit.base.category;
    prob_id = submit.base.prob_id;
    sub_id = submit.base.sub_id;
    results = results;
  })
  let sent = report_to_server submit.base text s
  some (if final then ack sent else sent)

-- The loop over the questions.
unfoldable pub add_question : ChoiceJudgeReport → List ChoiceQuestion → ChoiceJudgeReport
add_question report [] = report
add_question report (q ∷ rest) =
    add_question
      (record report {
        grade = report.grade + q.grade;
        full_grade = report.full_grade + q.full_grade;
        results = report.results ++ q.grade ∷ [];
      })
      rest

unfoldable pub choice_report_of : Submission → List ChoiceQuestion → ChoiceJudgeReport
unfolding add_question
choice_report_of submit questions =
    add_question
      (record {
        kind = submit.kind;
        category = submit.category;
        prob_id = submit.prob_id;
        sub_id = submit.sub_id;
        grade = 0;
        full_grade = 0;
        results = [];
      })
      questions

unfoldable pub summarize_choice :
    Dumps → Submission → List ChoiceQuestion → ForthServer → Option ForthServer
unfolding report_to_server choice_report_of
summarize_choice dumps submit questions s = do
  text ← dumps.choice_report (choice_report_of submit questions)
  some (ack (report_to_server submit text s))

-- `summarize`, for the types of submissions that `fetch_submission` makes; `results` are those of the
-- tasks now, and `final` is its argument `ack`.
unfoldable pub summarize :
    Dumps → ForthSubmission → List JudgeTaskResult → Bool → ForthServer → Option ForthServer
unfolding summarize_programming summarize_choice
summarize dumps (programming submit) results final s =
    summarize_programming dumps submit results final s
summarize dumps (choice submit questions) results final s =
    summarize_choice dumps submit questions s
