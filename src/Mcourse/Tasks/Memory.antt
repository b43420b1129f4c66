-- ===== src/Mcourse/Tasks/Memory.antt =====
-- When a problem of the Matrix course system gets memory tests.
use judge_system.Base.{
  ℕ, zero, suc, ◌≡◌, refl, Bool, false, not, ◌&&◌, str_eq, List, [], ◌∷◌, ◌++◌, ℤ, map, any,
  any-append, any-tabulate, ◌∙◌, length, is_nil, is_positive, to_count, ◌==◌, Bool-cases, inl, inr,
  arith,
}
use judge_system.Programming.{JudgeTask}
use judge_system.Mcourse.Config.{Grading, ServerConfig, or_zero}
use judge_system.Mcourse.Tasks.{
  Limits, compile_task, random_tasks, standard_tasks, static_tasks, gtest_tasks, memory_after,
  memory_tasks, indices, build_tasks, testcase_of, memory_task, memory_check,
}

abbrev pub is_memory : JudgeTask → Bool
is_memory t = str_eq t.tag memory_check

is_nil-indices : (start : ℕ) (tasks : List JudgeTask) → is_nil (indices start tasks) ≡ is_nil tasks
is_nil-indices start [] = refl
is_nil-indices start (t ∷ tasks) = refl

any_of_last :
    {A : Type 0} (p : A → Bool) (a b c d : List A) (x : Bool)
    → any p a ≡ false
    → any p b ≡ false
    → any p c ≡ false
    → any p d ≡ x
    → any p (((a ++ b) ++ c) ++ d) ≡ x
any_of_last p a b c d x ha hb hc hd =
    ground (arith, any-append p ((a ++ b) ++ c) d, any-append p (a ++ b) c, any-append p a b)

module _ (server : ServerConfig) (l : Limits) (g : Grading) where
  any-random : (times : ℤ) → any is_memory (random_tasks l g times) ≡ false
  unfolding random_tasks
  any-random times = elim (Bool-cases (is_positive (or_zero g.random_tests) && is_positive times)) [
    | inl e ↦
        rw (random_tasks, e)
          (any-tabulate is_memory false (to_count times) _ (λ i. refl) ∙ ground arith)
    | inr e ↦ rw (random_tasks, e) refl
  ]

  -- Are there standard tests?
  abbrev pub tests_standard : ℕ → Bool
  tests_standard cases = not (cases == 0) && is_positive (or_zero g.standard_tests)

  any-standard : (cases : ℕ) → any is_memory (standard_tasks l g cases) ≡ false
  unfolding standard_tasks
  any-standard cases = elim (Bool-cases (tests_standard cases)) [
    | inl e ↦
        rw (standard_tasks, e) (any-tabulate is_memory false cases _ (λ i. refl) ∙ ground arith)
    | inr e ↦ rw (standard_tasks, e) refl
  ]

  is_nil-standard : (cases : ℕ) → is_nil (standard_tasks l g cases) ≡ not (tests_standard cases)
  unfolding standard_tasks
  is_nil-standard zero = refl
  is_nil-standard (suc n) = ground arith

  any-single : any is_memory (static_tasks server g ++ gtest_tasks l g) ≡ false
  unfolding static_tasks gtest_tasks
  any-single = ground arith

  any-after :
      (n : ℕ) (testcase : ℕ → ℤ) (checks : List ℕ)
      → any is_memory (map (λ i. memory_task server l g false n (testcase i) i) checks)
        ≡ not (is_nil checks)
  any-after n testcase [] = refl
  any-after n testcase (c ∷ checks) = refl

  any-memory :
      (has_random : Bool) (random_checks standard_checks : List ℕ) (tasks : List JudgeTask)
      → is_nil tasks ≡ false
      → any is_memory (memory_tasks server l g has_random random_checks standard_checks tasks)
        ≡ (is_positive (or_zero g.memory_check) && not (is_nil standard_checks))
  unfolding memory_tasks memory_after
  any-memory has_random random_checks standard_checks tasks full =
      elim (Bool-cases (is_positive (or_zero g.memory_check))) [
        | inl e ↦ elim (Bool-cases (is_nil standard_checks)) [
          | inl e' ↦ rw (memory_tasks, e, full, e') refl
          | inr e' ↦
              rw (memory_tasks, e, full, e')
                (any-after (length standard_checks) (testcase_of tasks) standard_checks
                  ∙ ground (arith, e'))
        ]
        | inr e ↦ rw (memory_tasks, e) refl
      ]

  -- A problem has memory tests exactly if it gives points for them and has standard tests. Random tests
  -- and a random generator make no difference.
  memory_needs_standard :
      (times : ℤ) (cases : ℕ) (has_random : Bool)
      → any is_memory (build_tasks server l g times cases has_random) ≡ (
          is_positive (or_zero g.memory_check)
          && (not (cases == 0) && is_positive (or_zero g.standard_tests)))
  unfolding build_tasks compile_task
  memory_needs_standard times cases has_random =
      let checks : List ℕ =
        indices (length (compile_task server g ∷ random_tasks l g times))
          (standard_tasks l g cases) in
      any_of_last is_memory (compile_task server g ∷ random_tasks l g times)
        (standard_tasks l g cases) (static_tasks server g ++ gtest_tasks l g) _
        (is_positive (or_zero g.memory_check) && tests_standard cases) (any-random times)
        (any-standard cases) any-single
        (any-memory has_random (indices 1 (random_tasks l g times)) checks
            (((compile_task server g ∷ random_tasks l g times) ++ standard_tasks l g cases)
              ++ (static_tasks server g ++ gtest_tasks l g))
            refl
          ∙ ground (
            arith,
            is_nil-indices (length (compile_task server g ∷ random_tasks l g times))
                (standard_tasks l g cases),
            is_nil-standard cases,
          ))
