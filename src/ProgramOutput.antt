-- ===== src/ProgramOutput.antt =====
-- src/judge/program_output.cpp: questions that ask for the output of a program. A string is the list of
-- its bytes. A grade is an exact fraction where the code has a `double`.
pub mod Edits
pub mod Distance
pub mod Grade
use judge_system.Base.{
  ℕ, zero, suc, ◌+◌, ◌-◌, ◌*◌, max, min, Bool, ◌||◌, Option, none, some, List, [], ◌∷◌, map, String,
  negsuc, pos, length, if◌then◌else◌, ltb, ◌==◌,
}
use judge_system.Queue.{ConcurrentQueue, push}
use judge_system.Submission.{ClientTask}

abbrev pub Bytes : Type 0
Bytes = List ℕ

-- Spaces and line feeds are dropped.
unfoldable pub string_preprocess : Bytes → Bytes
string_preprocess [] = []
string_preprocess (c ∷ s) =
    if c == 32 || c == 10 then string_preprocess s else c ∷ string_preprocess s

-- d[i][1..], for the byte `a` of the row, from the entry to the left and the row above.
unfoldable pub next_entries : ℕ → Bytes → ℕ → List ℕ → List ℕ
next_entries a [] left above = []
next_entries a (b ∷ s2) left [] = []
next_entries a (b ∷ s2) left (_ ∷ []) = []
next_entries a (b ∷ s2) left (corner ∷ up ∷ above) =
    let entry = min (min (up + 1) (left + 1)) (corner + (if a == b then 0 else 1)) in
    entry ∷ next_entries a s2 entry (up ∷ above)

-- d[0][i] = i
unfoldable pub first_row : ℕ → Bytes → List ℕ
first_row i [] = i ∷ []
first_row i (b ∷ s2) = i ∷ first_row (suc i) s2

-- The last row of the table: the rows after `above`, which is row `i`.
unfoldable pub last_row : ℕ → Bytes → Bytes → List ℕ → List ℕ
unfolding next_entries
last_row i [] s2 above = above
last_row i (a ∷ s1) s2 above = last_row (suc i) s1 s2 (suc i ∷ next_entries a s2 (suc i) above)

abbrev pub last : ℕ → List ℕ → ℕ
last d [] = d
last d (x ∷ xs) = last x xs

unfoldable pub calc_edit_distance : Bytes → Bytes → ℕ
unfolding last_row first_row
calc_edit_distance s1 s2 =
    if ltb 5000 (length s1) || ltb 5000 (length s2)
    then 0
    else last 0 (last_row 0 s1 s2 (first_row 0 s2))

-- The part of the full grade, as numerator and denominator: 1 - distance / length. A denominator of 0
-- is the `double` 0 / 0.
unfoldable pub calc_similarity : Bytes → Bytes → ℕ × ℕ
unfolding calc_edit_distance
calc_similarity standard student =
    let size = max (length standard) (length student) in
    (size - calc_edit_distance standard student, size)

pub record OutputQuestion : Type 0 where
  pub grade : ℕ × ℕ  -- numerator and denominator
  pub full_grade : ℕ
  pub standard_answer : Bytes
  pub student_answer : Bytes

unfoldable pub judge_question : OutputQuestion → OutputQuestion
unfolding calc_similarity string_preprocess
judge_question q =
    let (part, whole) =
      calc_similarity (string_preprocess q.standard_answer) (string_preprocess q.student_answer) in
    record q { grade = (q.full_grade * part, whole) }

unfoldable pub judge_output : List OutputQuestion → List OutputQuestion
unfolding judge_question
judge_output = map judge_question

unfoldable pub distribute_output : ℕ → ConcurrentQueue ClientTask → ConcurrentQueue ClientTask
distribute_output judge_id queue = push queue (record {
  submit = judge_id;
  id = 0;
  name = "ProgramOutput";
  cores = 1;
  expect_runtime = pos 5000;
})
