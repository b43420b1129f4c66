-- ===== src/Forth/Server/Totals.antt =====
-- The totals of a choice submission.
use judge_system.Base.{
  ℕ, ◌+◌, ◌≤◌, ◌≡◌, refl, sym, ◌∙◌, Bool, true, false, List, [], ◌∷◌, ◌++◌, map, All, ℤ,
  if◌then◌else◌, arith,
}
use mathlib.Core.List.{append_assoc, append-nil}
use judge_system.Submission.{Submission}
use judge_system.Choice.{Word, ChoiceQuestion, judge_choices, judge_choice_question}
use judge_system.Forth.Server.{ChoiceJudgeReport, add_question, choice_report_of}

abbrev pub total : List ℕ → ℕ
total [] = 0
total (n ∷ ns) = n + total ns

abbrev pub grade_of : ChoiceQuestion → ℕ
grade_of q = q.grade

abbrev pub full_grade_of : ChoiceQuestion → ℕ
full_grade_of q = q.full_grade

add_question_lem :
    (qs : List ChoiceQuestion) (r : ChoiceJudgeReport)
    → ((add_question r qs).grade ≡ r.grade + total (map grade_of qs))
      × ((add_question r qs).full_grade ≡ r.full_grade + total (map full_grade_of qs))
      × ((add_question r qs).results ≡ r.results ++ map grade_of qs)
unfolding add_question
add_question_lem [] r = (omega arith, omega arith, sym (append-nil r.results))
add_question_lem (q ∷ qs) r =
    let next : ChoiceJudgeReport = record r {
      grade = r.grade + q.grade;
      full_grade = r.full_grade + q.full_grade;
      results = r.results ++ q.grade ∷ [];
    } in
    let (g, f, l) = add_question_lem qs next in
    (
      omega (arith, g),
      omega (arith, f),
      l ∙ append_assoc r.results (q.grade ∷ []) (map grade_of qs),
    )

question_le :
    (undefined : ℤ → Word) (q : ChoiceQuestion)
    → q.half_grade ≤ q.full_grade
    → judge_choice_question undefined q ≤ q.full_grade
unfolding judge_choice_question
question_le undefined q h = by_tests _ _
  where
    by_tests :
        (a b : Bool) → (if a then q.full_grade else if b then q.half_grade else 0) ≤ q.full_grade
    by_tests true b = omega arith
    by_tests false true = h
    by_tests false false = omega arith

graded_le :
    (undefined : ℤ → Word) (qs : List ChoiceQuestion)
    → All (λ q. q.half_grade ≤ q.full_grade) qs
    → total (map grade_of (judge_choices undefined qs))
      ≤ total (map full_grade_of (judge_choices undefined qs))
unfolding judge_choices
graded_le undefined [] h = omega arith
graded_le undefined (q ∷ qs) (h, hs) =
    omega (arith, graded_le undefined qs hs, question_le undefined q h)

full_grades_lem :
    (undefined : ℤ → Word) (qs : List ChoiceQuestion)
    → total (map full_grade_of (judge_choices undefined qs)) ≡ total (map full_grade_of qs)
unfolding judge_choices
full_grades_lem undefined [] = refl
full_grades_lem undefined (q ∷ qs) = omega (arith, full_grades_lem undefined qs)

-- The report on a choice submission that the choice judger has graded lists the grade of each question;
-- its grade is their sum, and at most its full grade, which is the sum of the full grades, if no
-- question gives more for a part of the answer than for all of it.
pub choice_report_lem :
    (undefined : ℤ → Word) (submit : Submission) (qs : List ChoiceQuestion)
    → All (λ q. q.half_grade ≤ q.full_grade) qs
    → ((choice_report_of submit (judge_choices undefined qs)).results
        ≡ map grade_of (judge_choices undefined qs))
      × ((choice_report_of submit (judge_choices undefined qs)).grade
          ≡ total (map grade_of (judge_choices undefined qs)))
      × ((choice_report_of submit (judge_choices undefined qs)).full_grade
          ≡ total (map full_grade_of qs))
      × ((choice_report_of submit (judge_choices undefined qs)).grade
          ≤ (choice_report_of submit (judge_choices undefined qs)).full_grade)
unfolding choice_report_of
choice_report_lem undefined submit qs h =
    let (g, f, l) = add_question_lem (judge_choices undefined qs) (record {
      kind = submit.kind;
      category = submit.category;
      prob_id = submit.prob_id;
      sub_id = submit.sub_id;
      grade = 0;
      full_grade = 0;
      results = [];
    }) in
    (
      l,
      omega (arith, g),
      omega (arith, f, full_grades_lem undefined qs),
      omega (arith, g, f, graded_le undefined qs h),
    )
