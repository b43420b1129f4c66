-- ===== src/ProgramOutput/Grade.antt =====
-- When `program_output_judger::judge` gives the full grade.
use judge_system.Base.{
  ℕ, suc, ◌-◌, ◌*◌, ◌/◌, ◌≤◌, ◌<◌, ◌≡◌, refl, ◌↔◌, max, [], ◌∷◌, length, arith, ap, ltb, ◌||◌, true,
  ◌⊎◌, inl, inr,
}
use mathlib.Core.Path.{subst}
use native.Mathlib.Nat.{mul-div_cancel_left}
use judge_system.ProgramOutput.{
  Bytes, OutputQuestion, string_preprocess, calc_edit_distance, calc_similarity, judge_question,
}
use judge_system.ProgramOutput.Edits.{Edits, nothing, keep, delete, insert, change}
use judge_system.ProgramOutput.Distance.{calc_edit_distance_lem}

-- Replacing byte by byte costs no more than the length of the longer string.
replace_all : (s t : Bytes) → (n : ℕ) × Edits s t n × (n ≤ max (length s) (length t))
replace_all [] [] = (0, nothing, omega arith)
replace_all [] (b ∷ t) = let (n, e, le) = replace_all [] t in (suc n, insert b e, omega arith)
replace_all (a ∷ s) [] = let (n, e, le) = replace_all s [] in (suc n, delete a e, omega arith)
replace_all (a ∷ s) (b ∷ t) = let (n, e, le) = replace_all s t in (suc n, change a b e, omega arith)

free_equal : {s t : Bytes} {n : ℕ} → Edits s t n → n ≡ 0 → s ≡ t
free_equal nothing h = refl
free_equal (keep a e) h = ap (λ x. a ∷ x) (free_equal e h)
free_equal (delete a e) h = cc
free_equal (insert b e) h = cc
free_equal (change a b e) h = cc

copy : (s : Bytes) → Edits s s 0
copy [] = nothing
copy (a ∷ s) = keep a (copy s)

undiminished : (f m d : ℕ) → 0 < f → d ≤ m → f * (m - d) ≡ f * m → d ≡ 0
undiminished f m d h le e =
    omega (arith, mul-div_cancel_left m h, mul-div_cancel_left (m - d) h, ap (λ x. x / f) e)

module _ (q : OutputQuestion) where
  abbrev standard : Bytes
  standard = string_preprocess q.standard_answer

  abbrev student : Bytes
  student = string_preprocess q.student_answer

  zero_distance :
      length standard ≤ 5000
      → length student ≤ 5000
      → (calc_edit_distance standard student ≡ 0) ↔ (standard ≡ student)
  zero_distance h1 h2 =
      let (script, least) = calc_edit_distance_lem standard student h1 h2 in
      (
        λ e. free_equal script e,
        λ e. omega (arith, least 0 (subst (λ t. Edits standard t 0) e (copy standard))),
      )

  within_size :
      length standard ≤ 5000
      → length student ≤ 5000
      → calc_edit_distance standard student ≤ max (length standard) (length student)
  within_size h1 h2 =
      let (script, least) = calc_edit_distance_lem standard student h1 h2 in
      let (n, e, le) = replace_all standard student in omega (arith, least n e)

  -- A question with a positive grade, whose two answers have at most 5000 bytes besides spaces and line
  -- feeds and are not both without any, gets the full grade exactly if the answers agree but for
  -- spaces and line feeds.
  pub full_grade_iff :
      length standard ≤ 5000
      → length student ≤ 5000
      → 0 < max (length standard) (length student)
      → 0 < q.full_grade
      → ((judge_question q).grade.0 ≡ q.full_grade * (judge_question q).grade.1)
        ↔ (standard ≡ student)
  unfolding judge_question calc_similarity
  full_grade_iff h1 h2 some_byte some_grade = (
    λ e. (zero_distance h1 h2).0 (undiminished q.full_grade _ _ some_grade (within_size h1 h2) e),
    λ e. rw ((zero_distance h1 h2).1 e) (ap (λ x. q.full_grade * x) (omega arith)),
  )

  -- An answer, the standard or the student's, with more than 5000 bytes besides spaces and line feeds
  -- brings the full grade, whatever the other one is.
  oversize_full :
      (5000 < length standard) ⊎ (5000 < length student)
      → (judge_question q).grade.0 ≡ q.full_grade * (judge_question q).grade.1
  unfolding judge_question calc_similarity calc_edit_distance
  oversize_full long =
      ap (λ x. q.full_grade * x) (rw (calc_edit_distance, skipped long) (omega arith))
    where
      skipped :
          (5000 < length standard) ⊎ (5000 < length student)
          → (ltb 5000 (length standard) || ltb 5000 (length student)) ≡ true
      skipped (inl h) = ground arith
      skipped (inr h) = ground arith
