-- ===== src/Mcourse/Dispatch/Outputs.antt =====
-- The grade that is reported for a program output submission.
use judge_system.Base.{
  ℕ, ◌+◌, ◌*◌, ◌/◌, ◌≤◌, ◌<◌, ◌≡◌, refl, ap, ◌∙◌, ◌↔◌, ◌==◌, max, List, [], ◌∷◌, ◌++◌, length, some,
  All, ℤ, pos, true, false, arith,
}
use native.Mathlib.Nat.{
  div-mul-le_self, div-le_of_le-mul, mul-div_left, mul-add-div_right, mul-le-mul_left, mul_comm,
}
use mathlib.Core.Path.{subst}
use judge_system.ProgramOutput.{
  Bytes, OutputQuestion, string_preprocess, calc_similarity, judge_question, judge_output,
}
use judge_system.ProgramOutput.Grade.{full_grade_iff}
use judge_system.Mcourse.Summary.{acked, Replies, report_to_server}
use judge_system.Mcourse.Dispatch.{
  add_outputs, output_submitted, summarize_program_output, summarize,
}
use judge_system.Mcourse.Report.{Outside}
use judge_system.Mcourse.Gtest.{GtestConfig}

abbrev pub expected : OutputQuestion → Bytes
expected q = string_preprocess q.standard_answer

abbrev pub given_answer : OutputQuestion → Bytes
given_answer q = string_preprocess q.student_answer

-- The answers are short, not both empty, and the question has a grade.
abbrev pub Gradable : OutputQuestion → Type 0
Gradable q =
    (length (expected q) ≤ 5000)
    × (length (given_answer q) ≤ 5000)
    × (0 < max (length (expected q)) (length (given_answer q)))
    × (0 < q.full_grade)

abbrev pub Agrees : OutputQuestion → Type 0
Agrees q = expected q ≡ given_answer q

abbrev pub full_sum : List OutputQuestion → ℕ
full_sum [] = 0
full_sum (q ∷ rest) = q.full_grade + full_sum rest

-- The whole points of a grade.
abbrev points : OutputQuestion → ℕ
points q = (judge_question q).grade.0 / (judge_question q).grade.1

abbrev points_sum : List OutputQuestion → ℕ
points_sum [] = 0
points_sum (q ∷ rest) = points q + points_sum rest

module _ (q : OutputQuestion) (h : Gradable q) where
  whole_positive : 0 < (judge_question q).grade.1
  unfolding judge_question calc_similarity
  whole_positive = h.2

  part_bound : (judge_question q).grade.0 ≤ q.full_grade * (judge_question q).grade.1
  unfolding judge_question calc_similarity
  part_bound = mul-le-mul_left q.full_grade (omega arith)

  below : points q * (judge_question q).grade.1 ≤ (judge_question q).grade.0
  below = div-mul-le_self (judge_question q).grade.0 (judge_question q).grade.1

  points_le : points q ≤ q.full_grade
  points_le =
      div-le_of_le-mul (judge_question q).grade.1
        (subst (λ x. (judge_question q).grade.0 ≤ x) (mul_comm _ _) part_bound)

  points_iff : (points q ≡ q.full_grade) ↔ Agrees q
  points_iff = (
    λ e. (full_grade_iff q h.0 h.1 h.2 h.3).0 (
        omega (
          arith,
          part_bound,
          subst (λ x. x * (judge_question q).grade.1 ≤ (judge_question q).grade.0) e below,
        )),
    λ e.
        ap (λ x. x / (judge_question q).grade.1) ((full_grade_iff q h.0 h.1 h.2 h.3).1 e)
        ∙ mul-div_left q.full_grade whole_positive,
  )

sum_lem :
    (qs : List OutputQuestion)
    → All Gradable qs
    → (points_sum qs ≤ full_sum qs) × ((points_sum qs ≡ full_sum qs) ↔ All Agrees qs)
sum_lem [] h = (omega arith, (λ e. tt, λ a. refl))
sum_lem (q ∷ rest) h =
    let (le, iff) = sum_lem rest h.1 in
    let most = points_le q h.0 in
    let one = points_iff q h.0 in
    (
      omega (arith, le, most),
      (
        λ e. (one.0 (omega (arith, le, most)), iff.0 (omega (arith, le, most))),
        λ a. omega (arith, one.1 a.0, iff.1 a.1),
      ),
    )

one_added :
    (grade : ℕ) (q : OutputQuestion) (rest : List OutputQuestion)
    → 0 < q.grade.1
    → add_outputs grade (q ∷ rest) ≡ add_outputs (grade + q.grade.0 / q.grade.1) rest
unfolding add_outputs
one_added grade q rest h =
    let some_part : (q.grade.1 == 0) ≡ false = ground (arith, h) in
    rw (some_part, mul-add-div_right h grade q.grade.0) refl

added :
    (grade : ℕ) (qs : List OutputQuestion)
    → All Gradable qs
    → add_outputs grade (judge_output qs) ≡ some (grade + points_sum qs)
unfolding add_outputs judge_output
added grade [] h = ap some (omega arith)
added grade (q ∷ rest) h =
    one_added grade (judge_question q) (judge_output rest) (whole_positive q h.0)
    ∙ added (grade + points q) rest h.1
    ∙ ap some (omega arith)

-- If the answers of each question have at most 5000 bytes and are not both empty, up to spaces and line
-- feeds, and each question has a grade, then the submission of type "output" with these questions, once
-- they are judged, is reported with a grade, and then its message is acknowledged. The grade is at most
-- the sum of the questions' full grades, and is that sum exactly if all answers agree with the expected
-- ones up to spaces and line feeds.
pub summarize_output_lem :
    (w : Outside) (replies : Replies) (retry : ℤ) (config : GtestConfig) (junk : ℤ)
    (qs : List OutputQuestion)
    → All Gradable qs
    → (grade : ℕ) × (add_outputs 0 (judge_output qs) ≡ some grade)
      × (summarize w replies retry config junk "output" (output_submitted (judge_output qs))
          ≡ some (report_to_server replies retry true (pos grade) ++ acked ∷ []))
      × (grade ≤ full_sum qs)
      × ((grade ≡ full_sum qs) ↔ All Agrees qs)
unfolding summarize summarize_program_output
summarize_output_lem w replies retry config junk qs h =
    let (le, iff) = sum_lem qs h in
    let total : add_outputs 0 (judge_output qs) ≡ some (points_sum qs) =
      added 0 qs h ∙ ap some (omega arith) in
    (points_sum qs, total, rw total refl, le, iff)
