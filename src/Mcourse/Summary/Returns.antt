-- ===== src/Mcourse/Summary/Returns.antt =====
-- When `summarize_programming` ends in an exception, and what it does otherwise.
use judge_system.Base.{
  ℕ, zero, suc, ◌≡◌, refl, Bool, true, false, ◌&&◌, String, List, none, some, any, Bool-cases, inl,
  inr,
}
use judge_system.Mcourse.Report.{Outside}
use judge_system.Mcourse.Checks.{Judged}
use judge_system.Mcourse.Checks.Cases.{stop}
use judge_system.Mcourse.Summary.{Effect, grade_set, acked, post_attempts}

-- Does a partially correct test, or a wrong one without all its files, come before every test that
-- shows a failure of the judge system?
abbrev pub stuck : Outside → String → Judged → Bool
stuck w tag judged = elim (stop w tag judged) [ none ↦ false | some b ↦ b ]

abbrev pub is_acked : Effect → Bool
is_acked acked = true
is_acked _ = false

abbrev pub is_grade_set : Effect → Bool
is_grade_set (grade_set grade) = true
is_grade_set _ = false

pub post_attempts-silent :
    (upload : ℕ → Bool) (i n : ℕ)
    → (any is_acked (post_attempts upload i n) ≡ false)
      × (any is_grade_set (post_attempts upload i n) ≡ false)
unfolding post_attempts
post_attempts-silent upload i zero = (refl, refl)
post_attempts-silent upload i (suc n) = elim (Bool-cases (upload i)) [
  | inl e ↦ rw (post_attempts, e) (refl, refl)
  | inr e ↦ rw (post_attempts, e) (post_attempts-silent upload (suc i) n)
]

-- What the effects of a call that returns say: acknowledged and graded only when it is complete.
abbrev Told : Bool → Bool → List Effect → Type 0
Told complete database effects =
    (any is_acked effects ≡ complete) × (any is_grade_set effects ≡ (complete && database))
