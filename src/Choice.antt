-- ===== src/Choice.antt =====
-- src/judge/choice.cpp: choice questions. Grades are whole numbers of some fraction of a point, where
-- the code has `float`.
pub mod Sets
use judge_system.Base.{
  ℕ, zero, suc, Bool, true, false, ◌&&◌, ◌||◌, not, List, [], ◌∷◌, map, String, ℤ, pos, negsuc,
  if◌then◌else◌, ltb, leb, ◌==◌,
}
use judge_system.Queue.{ConcurrentQueue, push}
use judge_system.Submission.{ClientTask}

-- An `unsigned long`: its bits.
abbrev pub Word : Type 0
Word = ℕ → Bool

-- Does the test hold below `n`?
abbrev pub all_below : ℕ → Word → Bool
all_below zero p = true
all_below (suc n) p = p n && all_below n p

abbrev pub same_bit : Bool → Bool → Bool
same_bit true b = b
same_bit false b = not b

unfoldable pub word_eq : Word → Word → Bool
word_eq a b = all_below 64 (λ i. same_bit (a i) (b i))

-- 1 << choice, an int widened to 64 bits: the sign bit is copied upwards. A shift by less than 0 or by
-- more than 31 is undefined: it gives what `undefined` says.
unfoldable pub shifted : (ℤ → Word) → ℤ → Word
shifted undefined (pos n) =
    if ltb n 31 then (λ i. i == n) else if n == 31 then (λ i. leb 31 i) else undefined (pos n)
shifted undefined (negsuc n) = undefined (negsuc n)

-- The loop of |=.
unfoldable pub mask : (ℤ → Word) → List ℤ → Word
unfolding shifted
mask undefined [] = λ i. false
mask undefined (choice ∷ rest) = λ i. shifted undefined choice i || mask undefined rest i

pub record ChoiceQuestion : Type 0 where
  pub kind : String
  pub grade : ℕ
  pub full_grade : ℕ
  pub half_grade : ℕ
  pub student_answer : List ℤ
  pub standard_answer : List ℤ

unfoldable pub judge_choice_question : (ℤ → Word) → ChoiceQuestion → ℕ
unfolding mask word_eq
judge_choice_question undefined q =
    let ans : Word = mask undefined q.student_answer in
    let std : Word = mask undefined q.standard_answer in
    if word_eq ans std
    then q.full_grade
    else if word_eq (λ i. ans i && std i) ans && not (word_eq ans (λ i. false))
    then q.half_grade
    else 0

abbrev pub graded : (ℤ → Word) → ChoiceQuestion → ChoiceQuestion
graded undefined q = record q { grade = judge_choice_question undefined q }

-- The loop of `choice_judger::judge`.
unfoldable pub judge_choices : (ℤ → Word) → List ChoiceQuestion → List ChoiceQuestion
unfolding judge_choice_question
judge_choices undefined = map (graded undefined)

unfoldable pub distribute_choice : ℕ → ConcurrentQueue ClientTask → ConcurrentQueue ClientTask
distribute_choice judge_id queue =
    push queue
      (record { submit = judge_id; id = 0; name = "Choice"; cores = 1; expect_runtime = pos 5000 })
