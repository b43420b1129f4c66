-- ===== src/Mcourse/Questions/Total.antt =====
-- The grade of a choice submission against the sum of its questions' grades.
use judge_system.Base.{ℕ, ◌+◌, ◌-◌, ◌*◌, ◌/◌, ◌≤◌, ◌<◌, List, [], ◌∷◌, length, arith}
use native.Mathlib.Nat.{div-add-mod', mod-lt}
use judge_system.Choice.{ChoiceQuestion}
use judge_system.Mcourse.Questions.{add_grades, summarize_choice}

-- The exact sum, in units.
abbrev pub sum_grades : List ChoiceQuestion → ℕ
sum_grades [] = 0
sum_grades (q ∷ rest) = q.grade + sum_grades rest

-- What the truncation of one addition loses.
one_addition :
    (unit x : ℕ) → 0 < unit → ((x / unit) * unit ≤ x) × (x ≤ (x / unit) * unit + (unit - 1))
one_addition unit x h =
    (omega (arith, div-add-mod' x unit), omega (arith, div-add-mod' x unit, mod-lt x h))

lost : ℕ → List ChoiceQuestion → ℕ
lost unit [] = 0
lost unit (q ∷ rest) = (unit - 1) + lost unit rest

add_grades_lem :
    (unit grade : ℕ) (questions : List ChoiceQuestion)
    → 0 < unit
    → (add_grades unit grade questions * unit ≤ grade * unit + sum_grades questions)
      × (grade * unit + sum_grades questions
          ≤ add_grades unit grade questions * unit + length questions * (unit - 1))
unfolding add_grades
add_grades_lem unit grade [] h = (omega arith, omega arith)
add_grades_lem unit grade (q ∷ rest) h =
    let one = one_addition unit (grade * unit + q.grade) h in
    let more = add_grades_lem unit ((grade * unit + q.grade) / unit) rest h in
    (omega (arith, one.0, more.0), grind (arith, one.1, more.1))

-- The grade of a choice submission is at most the sum of the grades of its questions, and falls short of
-- it by less than a point for each question.
pub summarize_choice_lem :
    (unit : ℕ) (questions : List ChoiceQuestion)
    → 0 < unit
    → (summarize_choice unit questions * unit ≤ sum_grades questions)
      × (sum_grades questions
          ≤ summarize_choice unit questions * unit + length questions * (unit - 1))
unfolding summarize_choice
summarize_choice_lem unit questions h =
    let both = add_grades_lem unit 0 questions h in (omega (arith, both.0), omega (arith, both.1))
