-- ===== src/Mcourse/Build/Accepted.antt =====
-- What `from_json_programming` builds can be judged.
use judge_system.Base.{
  ℕ, suc, ◌^◌, ◌≤◌, ◌≡◌, refl, ◌↔◌, Bool, true, false, not, ◌&&◌, List, [], ◌∷◌, Option, none, some,
  ℤ, any, length, AllAt, AllAt-get_elem?, Bool-cases, inl, inr, arith, ap, ◌∙◌, sym, Ensures, given,
  Ensures-bind, Ensures-some, is_positive, is_negative,
}
use mathlib.Core.Path.{subst}
use judge_system.Submission.{Submission}
use judge_system.Programming.{JudgeTask, ProgrammingSubmission, Program}
use judge_system.Programming.Verify.{verify, is_null}
use judge_system.Programming.Verify.Accepts.{verify_iff, IsComplete, AllEarlier}
use judge_system.Programming.Process.Invariant.{Earlier}
use judge_system.Programming.Judge.{file_parent}
use judge_system.Programming.Judge.BaseDirs.{FilesEarlier}
use judge_system.Mcourse.Config.{
  RandomConfig, Grading, StandardConfig, ProblemConfig, SubmissionDetail, SubmissionType,
  ServerConfig, or_zero,
}
use judge_system.Mcourse.Tasks.{build_tasks, compile_task}
use judge_system.Mcourse.Tasks.Ordered.{Placed, build_tasks-Placed, any-build_tasks}
use judge_system.Mcourse.Build.{
  from_json_programming, cpp, random_program, is_some, submission_language,
}

abbrev lacking : Option Grading → Option StandardConfig → Option RandomConfig → Bool
lacking (some g) (some s) (some r) = elim r.run_times [
  | none ↦ false
  | some times ↦
      (is_positive (or_zero g.random_tests) && is_positive times) && not (is_some s.random_source)
]
lacking _ _ _ = false

-- Does the problem ask for random tests, and is there no source of a random generator?
abbrev pub lacks_generator : ProblemConfig → Bool
lacks_generator config = lacking config.grading config.standard config.random

lacking_lem :
    (random : Option RandomConfig) (g : Grading) (s : StandardConfig) (x : ℤ × Option Program)
    → random_program random g s ≡ some x
    → ((is_positive (or_zero g.random_tests) && is_positive x.0) && is_null x.1)
      ≡ lacking (some g) (some s) random
unfolding random_program
lacking_lem none g s (times, program) h = ground arith
lacking_lem (some r) g s (times, program) h = ground arith

-- What is known of a submission that was built.
record IsBuilt (config : ProblemConfig) (sub : ProgrammingSubmission) : Type 0 where
  placed : AllAt Placed 0 sub.judge_tasks
  entry : any (λ t. is_negative t.depends_on) sub.judge_tasks ≡ true
  student_program : is_null sub.submission ≡ false
  standard_program : is_null sub.standard ≡ false
  generator :
      (any (λ t. t.is_random) sub.judge_tasks && is_null sub.random) ≡ lacks_generator config

module _ (server : ServerConfig) (base : Submission) (sub_type : SubmissionType)
    (config : ProblemConfig) (detail : SubmissionDetail) where
  built : Ensures (IsBuilt config) (from_json_programming server base sub_type config detail)
  unfolding from_json_programming build_tasks compile_task
  built = Ensures-bind (IsBuilt config) config.standard_language _ λ standard_language e1.
      Ensures-bind (IsBuilt config)
        (submission_language sub_type config detail (cpp standard_language)) _
        λ language e2. Ensures-bind (IsBuilt config) config.standard _ λ standard e3.
          Ensures-bind (IsBuilt config) config.submission _ λ sources e4.
            Ensures-bind (IsBuilt config) config.memory_limit _ λ memory e5.
              Ensures-bind (IsBuilt config) config.time_limit _ λ time e6.
                Ensures-bind (IsBuilt config) config.grading _ λ grading e7.
                  Ensures-bind (IsBuilt config) (random_program config.random grading standard) _
                    λ r e8. given (record {
                      placed = build_tasks-Placed server _ grading r.0 _ (is_some r.1);
                      entry = refl;
                      student_program = refl;
                      standard_program = refl;
                      generator =
                          ap (λ b. b && is_null r.1)
                            (any-build_tasks server _ grading r.0 _ (is_some r.1))
                          ∙ lacking_lem config.random grading standard r e8
                          ∙ sym (rw (e7, e3) refl);
                    })

  -- `from_json_programming` never builds a submission whose tasks are out of order: each depends on, and
  -- takes its files from, an earlier one or none; and of at most 2^31 tasks `verify` accepts those, and
  -- only those, that have a source of a random generator or do not ask for random tests.
  pub from_json_programming-verify :
      (sub : ProgrammingSubmission)
      → from_json_programming server base sub_type config detail ≡ some sub
      → length sub.judge_tasks ≤ 2 ^ 31
      → FilesEarlier sub.judge_tasks
        × ((verify (some sub) ≡ true) ↔ (lacks_generator config ≡ false))
  from_json_programming-verify sub came few = (
    λ i t e.
        subst (Earlier (file_parent t)) (omega arith)
          (AllAt-get_elem? Placed 0 sub.judge_tasks b.placed i t e).1,
    (λ ok. without ((verify_iff sub few).0 ok), λ h. (verify_iff sub few).1 (complete h)),
  )
    where
      b : IsBuilt config sub
      b = Ensures-some (IsBuilt config) _ built came

      ordered : (i : ℕ) (ts : List JudgeTask) → AllAt Placed i ts → AllEarlier i ts
      ordered i [] h = tt
      ordered i (t ∷ ts) (p, h) = (p.0, ordered (suc i) ts h)

      without : IsComplete sub → lacks_generator config ≡ false
      without c = elim (Bool-cases (any (λ t. t.is_random) sub.judge_tasks)) [
        | inl e ↦ ground (arith, b.generator, c.has_generator e)
        | inr e ↦ ground (arith, b.generator)
      ]

      complete : lacks_generator config ≡ false → IsComplete sub
      complete h = record {
        ordered = ordered 0 sub.judge_tasks b.placed;
        has_submission = b.student_program;
        has_generator = λ e. (b.standard_program, ground (arith, b.generator));
        has_entry = b.entry;
      }
