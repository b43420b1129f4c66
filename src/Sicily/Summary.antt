-- ===== src/Sicily/Summary.antt =====
-- `summarize`, `set_status` and `update_user` of src/server/sicily/sicily.cpp. The rows that the queries
-- of a call find are an argument.
pub mod Unset
use judge_system.Base.{
  ℕ, suc, ◌+◌, ◌-◌, ◌==◌, Bool, true, false, not, ◌&&◌, ◌||◌, String, List, [], ◌∷◌, ◌++◌, Option,
  none, some, ℤ, pos, negsuc, ◌+ℤ◌, ◌-ℤ◌, quot_ℤ, shift_right, max_ℤ, eq_ℤ, leb_ℤ, to_int,
  if◌then◌else◌, str_eq, any, ltb, length, get_elem?,
}
use judge_system.Status.{
  Status, pending, running, accepted, partial_correct, compilation_error,
  executable_compilation_error, wrong_answer, runtime_error, time_limit_exceeded,
  memory_limit_exceeded, output_limit_exceeded, presentation_error, restrict_function,
  out_of_contest_time, compiling, segmentation_fault, floating_point_error, random_gen_error,
  compare_error, system_error, status_eq, at,
}
use judge_system.Submission.{Submission}
use judge_system.Programming.{JudgeTaskResult}
use judge_system.Sicily.{
  RankRow, Statement, delete_queue, set_compilelog, set_status_used, set_status_only,
  add_stock_solved, add_accepted, insert_rank, update_rank, delete_rank, add_contest_accepted,
}

abbrev pub status_string : List (Status × String)
status_string =
    (pending, "Waiting")
    ∷ (running, "Judging")
    ∷ (accepted, "Accepted")
    ∷ (partial_correct, "Wrong Answer")
    ∷ (compilation_error, "Compile Error")
    ∷ (executable_compilation_error, "Other")
    ∷ (wrong_answer, "Wrong Answer")
    ∷ (runtime_error, "Runtime Error")
    ∷ (time_limit_exceeded, "Time Limit Exceeded")
    ∷ (memory_limit_exceeded, "Memory Limit Exceeded")
    ∷ (output_limit_exceeded, "Output Limit Exceeded")
    ∷ (presentation_error, "Presentation Error")
    ∷ (restrict_function, "Restrict Function")
    ∷ (out_of_contest_time, "Out of Contest Time")
    ∷ (compiling, "Judging")
    ∷ (segmentation_fault, "Runtime Error")
    ∷ (floating_point_error, "Runtime Error")
    ∷ (random_gen_error, "Other")
    ∷ (compare_error, "Wrong Answer")
    ∷ (system_error, "Other")
    ∷ []

-- The verdicts that are stored with the time and the memory used.
abbrev pub final_status : List Status
final_status =
    compiling ∷ running ∷ accepted ∷ presentation_error ∷ wrong_answer ∷ time_limit_exceeded
    ∷ memory_limit_exceeded ∷ runtime_error ∷ segmentation_fault ∷ floating_point_error ∷ []

-- What the queries of a call find: accepted submissions to the problem by the user but this one, the
-- problem in the stock, and the user's row in the rank list.
pub record Found : Type 0 where
  pub solved_before : Bool
  pub in_stock : Bool
  pub rank : Option RankRow

-- A submission that is judged: `cases` is the size of `test_data`.
pub record Judged : Type 0 where
  pub base : Submission
  pub cases : ℕ
  pub results : List JudgeTaskResult
  pub finished : ℕ
  pub config : Option JudgeTaskResult

-- The minute of the contest in which the submission came, from 1 on.
unfoldable pub minute_of : Submission → ℤ
minute_of sub = quot_ℤ (sub.submit_time -ℤ sub.contest_start_time) 60 +ℤ pos 1

abbrev count_of : Bool → ℤ
count_of true = pos 1
count_of false = pos 0

abbrev new_row : Submission → Bool → Bool → RankRow
new_row sub uncompiled solved = record {
  uid = sub.user_id;
  cid = sub.contest_id;
  pid = sub.contest_prob_id;
  accepted = count_of solved;
  submissions = count_of (not uncompiled);
  ac_time = minute_of sub;
}

-- The part of `update_user` on the rank list of a contest.
unfoldable pub update_ranklist : Submission → Bool → Bool → Option RankRow → List Statement
unfolding minute_of
update_ranklist sub uncompiled solved none = insert_rank (new_row sub uncompiled solved) ∷ []
update_ranklist sub uncompiled solved (some row) =
    if eq_ℤ row.accepted (pos 0)
    then update_rank (record (new_row sub uncompiled solved) {
      submissions = row.submissions +ℤ count_of (not uncompiled);
    })
      ∷ []
    else if (eq_ℤ row.accepted (pos 1) && solved) && not (leb_ℤ row.ac_time (minute_of sub))
    then delete_rank sub.user_id sub.contest_id sub.contest_prob_id (minute_of sub)
      ∷ insert_rank (new_row sub uncompiled solved)
      ∷ add_contest_accepted sub.contest_id sub.contest_prob_id
      ∷ []
    else []

unfoldable pub update_user : Found → Submission → Bool → Bool → List Statement
unfolding update_ranklist
update_user found sub uncompiled solved =
    (if (not found.solved_before && solved) && found.in_stock
      then add_stock_solved sub.user_id ∷ []
      else [])
    ++ (if solved then add_accepted sub.prob_id ∷ [] else [])
    ++ (if str_eq sub.contest_id "" then [] else update_ranklist sub uncompiled solved found.rank)

-- `none` is the exception of the table's `at`.
unfoldable pub set_status : Judged → JudgeTaskResult → ℤ → Option Statement
unfolding at status_eq
set_status judged result current_case =
    let failcase : ℤ = if ltb 1 judged.cases then current_case else negsuc 0 in
    elim (at result.status status_string) [
      | none ↦ none
      | some text ↦ some (
          if any (λ s. status_eq s result.status) final_status
          then set_status_used text failcase result.run_time (shift_right result.memory_used 10)
              judged.base.sub_id
          else set_status_only text failcase judged.base.sub_id)
    ]

-- The statements of a call and the submission's `config` after it; `none` if it ended in an exception.
pub record Outcome : Type 0 where
  pub statements : List Statement
  pub config : Option (Option JudgeTaskResult)

-- set_status and update_user, after `before`.
unfoldable pub settle :
    Found → Judged → List Statement → JudgeTaskResult → JudgeTaskResult → ℤ → Bool → Bool → Outcome
unfolding set_status update_user
settle found judged before config result current_case uncompiled solved =
    elim (set_status judged result current_case) [
      | none ↦ record { statements = before; config = none }
      | some update ↦ record {
        statements = before ++ update ∷ update_user found judged.base uncompiled solved;
        config = some (some config);
      }
    ]

abbrev pub add_usage : JudgeTaskResult → JudgeTaskResult → JudgeTaskResult
add_usage total current = record total {
  run_time = total.run_time +ℤ current.run_time;
  memory_used = max_ℤ total.memory_used current.memory_used;
}

-- `summarize` from the reading of `config` on.
unfoldable pub conclude :
    Found → Judged → List Statement → JudgeTaskResult → JudgeTaskResult → JudgeTaskResult → Outcome
unfolding settle
conclude found judged before compiled current total =
    let sum : JudgeTaskResult = if judged.finished == 1 then total else add_usage total current in
    if judged.finished == 1 && not (status_eq current.status accepted)
    then settle found judged before total compiled (pos 0) true false
    else if not (status_eq current.status accepted)
    then settle found judged before sum current (to_int (judged.finished - 2)) false false
    else if judged.finished == length judged.results
    then settle found judged before sum sum (to_int judged.cases) false true
    else record { statements = before; config = some (some sum) }

-- What `summarize` does before it reads `config`.
abbrev pub opening : Judged → JudgeTaskResult → List Statement
opening judged compiled =
    (if judged.finished == length judged.results
      then delete_queue judged.base.queue_id ∷ []
      else [])
    ++ set_compilelog compiled.report judged.base.sub_id ∷ []

unfoldable pub summarize : Found → Judged → Outcome
unfolding conclude
summarize found judged =
    if judged.finished == 0 || ltb (length judged.results) judged.finished
    then record { statements = []; config = some judged.config }
    else elim (get_elem? judged.results 0) [
      | none ↦ record { statements = []; config = none }
      | some compiled ↦ elim (get_elem? judged.results (judged.finished - 1)) [
        | none ↦ record { statements = []; config = none }
        | some current ↦ elim judged.config [
          | none ↦ record { statements = opening judged compiled; config = none }
          | some total ↦ conclude found judged (opening judged compiled) compiled current total
        ]
      ]
    ]
