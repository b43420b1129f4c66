-- ===== src/Tests/Choice.antt =====
-- A question with two standard choices, of which the student chose one.
use judge_system.Base.{◌≡◌, refl, false, [], ◌∷◌, pos, ℤ, arith}
use judge_system.Choice.{Word, ChoiceQuestion, judge_choice_question, mask, shifted, word_eq}
use judge_system.Choice.Sets.{judge_choice_question_lem}

abbrev nothing_set : ℤ → Word
nothing_set c = λ i. false

abbrev half_right : ChoiceQuestion
half_right = record {
  kind = "multi";
  grade = 0;
  full_grade = 4;
  half_grade = 2;
  student_answer = pos 2 ∷ pos 2 ∷ [];
  standard_answer = pos 0 ∷ pos 2 ∷ [];
}

half_run : judge_choice_question nothing_set half_right ≡ 2
unfolding judge_choice_question mask shifted word_eq
half_run = refl

judge_choice_question_lem_example : judge_choice_question nothing_set half_right ≡ 2
judge_choice_question_lem_example =
    judge_choice_question_lem nothing_set half_right (omega arith, (omega arith, tt))
      (omega arith, (omega arith, tt))
