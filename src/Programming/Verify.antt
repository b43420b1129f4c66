-- ===== src/Programming/Verify.antt =====
-- `programming_judger::verify` of src/judge/programming.cpp. `none` is a submission of another kind, on
-- which the `dynamic_cast` fails.
pub mod Accepts
use judge_system.Base.{
  ℕ, zero, suc, ◌≡◌, Bool, true, false, ◌&&◌, ◌||◌, Option, none, some, List, [], ◌∷◌, is_negative,
  leb_ℤ, to_int, if◌then◌else◌, any,
}
use judge_system.Programming.{JudgeTask, ProgrammingSubmission}

abbrev pub is_null {ℓ} : {A : Type ℓ} → Option A → Bool
is_null none = true
is_null (some a) = false

-- The first loop, from index `i`: `none` if a task depends on itself or on a later one, and
-- otherwise whether some task is random.
unfoldable pub scan : ℕ → Bool → List JudgeTask → Option Bool
scan i has_random [] = some has_random
scan i has_random (task ∷ rest) =
    if leb_ℤ (to_int i) task.depends_on
    then none
    else scan (suc i) (if task.is_random then true else has_random) rest

unfoldable pub verify : Option ProgrammingSubmission → Bool
unfolding scan
verify none = false
verify (some sub) = elim (scan zero false sub.judge_tasks) [
  | none ↦ false
  | some has_random ↦
      if is_null sub.submission
      then false
      else if has_random && (is_null sub.standard || is_null sub.random)
      then false
      else any (λ task. is_negative task.depends_on) sub.judge_tasks
]
