-- ===== src/Mcourse/Tasks/Ordered.antt =====
-- The tasks of a problem of the Matrix course system stand in an order in which they can be judged.
use judge_system.Base.{
  ℕ, suc, ◌+◌, ◌≤◌, ◌<◌, ◌≡◌, refl, Bool, true, false, not, ◌&&◌, List, [], ◌∷◌, ◌++◌, ℤ, pos,
  negsuc, map, All, any, All-tabulate, any-append, any-tabulate, ltb, ◌∙◌, length, length-append,
  is_nil, is_positive, to_count, AllAt, AllAt-append, AllAt-tabulate, ◌==◌, Bool-cases, inl, inr,
  arith,
}
use judge_system.Programming.{JudgeTask}
use judge_system.Programming.Process.Invariant.{Earlier}
use judge_system.Programming.Judge.{file_parent}
use judge_system.Mcourse.Config.{Grading, ServerConfig, or_zero}
use judge_system.Mcourse.Tasks.{
  Limits, compile_task, random_tasks, standard_tasks, static_tasks, gtest_tasks, memory_after,
  memory_tasks, indices, build_tasks, testcase_of, memory_task,
}

-- What a task depends on, and what it takes its files from, stands before it.
abbrev pub Placed : ℕ → JudgeTask → Type 0
Placed i t = Earlier t.depends_on i × Earlier (file_parent t) i

any_of_first :
    (a b c d : List JudgeTask) (x : Bool)
    → any (λ t. t.is_random) a ≡ x
    → any (λ t. t.is_random) b ≡ false
    → any (λ t. t.is_random) c ≡ false
    → any (λ t. t.is_random) d ≡ false
    → any (λ t. t.is_random) (((a ++ b) ++ c) ++ d) ≡ x
any_of_first a b c d x ha hb hc hd =
    let p : JudgeTask → Bool = λ t. t.is_random in
    ground (arith, any-append p ((a ++ b) ++ c) d, any-append p (a ++ b) c, any-append p a b)

module _ (server : ServerConfig) (l : Limits) (g : Grading) where
  random-Placed : (times : ℤ) (start : ℕ) → 0 < start → AllAt Placed start (random_tasks l g times)
  unfolding random_tasks
  random-Placed times start h =
      elim (Bool-cases (is_positive (or_zero g.random_tests) && is_positive times)) [
        | inl e ↦
            rw (random_tasks, e)
              (AllAt-tabulate Placed start (to_count times) _ (λ i lt. (omega arith, omega arith)))
        | inr e ↦ rw (random_tasks, e) tt
      ]

  standard-Placed : (cases start : ℕ) → 0 < start → AllAt Placed start (standard_tasks l g cases)
  unfolding standard_tasks
  standard-Placed cases start h =
      elim (Bool-cases (not (cases == 0) && is_positive (or_zero g.standard_tests))) [
        | inl e ↦
            rw (standard_tasks, e)
              (AllAt-tabulate Placed start cases _ (λ i lt. (omega arith, omega arith)))
        | inr e ↦ rw (standard_tasks, e) tt
      ]

  static-Placed : (start : ℕ) → 0 < start → AllAt Placed start (static_tasks server g)
  unfolding static_tasks
  static-Placed start h = elim (Bool-cases (is_positive (or_zero g.static_check))) [
    | inl e ↦ rw (static_tasks, e) ((h, h), tt)
    | inr e ↦ rw (static_tasks, e) tt
  ]

  gtest-Placed : (start : ℕ) → 0 < start → AllAt Placed start (gtest_tasks l g)
  unfolding gtest_tasks
  gtest-Placed start h = elim (Bool-cases (is_positive (or_zero g.google_tests))) [
    | inl e ↦ rw (gtest_tasks, e) ((h, h), tt)
    | inr e ↦ rw (gtest_tasks, e) tt
  ]

  after-Placed :
      (r : Bool) (n : ℕ) (testcase : ℕ → ℤ) (start : ℕ) (checks : List ℕ)
      → 0 < start
      → All (λ i. i < start) checks
      → AllAt Placed start (map (λ i. memory_task server l g r n (testcase i) i) checks)
  after-Placed r n testcase start [] h a = tt
  after-Placed r n testcase start (c ∷ checks) h (lt, a) =
      ((lt, h), after-Placed r n testcase (suc start) checks (omega arith) (wider checks a))
    where
      wider : (cs : List ℕ) → All (λ i. i < start) cs → All (λ i. i < suc start) cs
      wider [] a = tt
      wider (c ∷ cs) (lt, a) = (omega arith, wider cs a)

  memory-Placed :
      (has_random : Bool) (random_checks standard_checks : List ℕ) (tasks : List JudgeTask)
      (start : ℕ)
      → 0 < start
      → is_nil tasks ≡ false
      → All (λ i. i < start) standard_checks
      → AllAt Placed start (memory_tasks server l g has_random random_checks standard_checks tasks)
  unfolding memory_tasks memory_after
  memory-Placed has_random random_checks standard_checks tasks start h full before =
      elim (Bool-cases (is_positive (or_zero g.memory_check))) [
        | inl e ↦ elim (Bool-cases (is_nil standard_checks)) [
          | inl e' ↦ rw (memory_tasks, e, full, e') tt
          | inr e' ↦
              rw (memory_tasks, e, full, e')
                (after-Placed false (length standard_checks) (testcase_of tasks) start
                  standard_checks h before)
        ]
        | inr e ↦ rw (memory_tasks, e) tt
      ]

  indices_below :
      (start bound : ℕ) (tasks : List JudgeTask)
      → start + length tasks ≤ bound
      → All (λ i. i < bound) (indices start tasks)
  indices_below start bound tasks h =
      All-tabulate (λ i. i < bound) (length tasks) (λ i. start + i) (λ i lt. omega arith)

  pub build_tasks-Placed :
      (times : ℤ) (cases : ℕ) (has_random : Bool)
      → AllAt Placed 0 (build_tasks server l g times cases has_random)
  unfolding build_tasks compile_task
  build_tasks-Placed times cases has_random =
      AllAt-append Placed 0 others
        (memory_tasks server l g has_random (indices 1 (random_tasks l g times))
          (indices (length first) (standard_tasks l g cases)) others)
        (AllAt-append Placed 0 tests (static_tasks server g ++ gtest_tasks l g)
          (AllAt-append Placed 0 first (standard_tasks l g cases)
            ((tt, tt), random-Placed times 1 (omega arith)) (standard-Placed cases _ (omega arith)))
          (AllAt-append Placed _ (static_tasks server g) (gtest_tasks l g)
            (static-Placed _ (omega (arith, tests_size)))
            (gtest-Placed _ (omega (arith, tests_size)))))
        (memory-Placed has_random (indices 1 (random_tasks l g times))
          (indices (length first) (standard_tasks l g cases)) others _
          (omega (arith, tests_size, others_size)) refl
          (indices_below (length first) _ (standard_tasks l g cases)
            (omega (arith, tests_size, others_size))))
    where
      first : List JudgeTask
      first = compile_task server g ∷ random_tasks l g times

      tests : List JudgeTask
      tests = first ++ standard_tasks l g cases

      others : List JudgeTask
      others = tests ++ (static_tasks server g ++ gtest_tasks l g)

      tests_size : length tests ≡ length first + length (standard_tasks l g cases)
      tests_size = length-append first (standard_tasks l g cases)

      others_size : length others ≡ length tests + length (static_tasks server g ++ gtest_tasks l g)
      others_size = length-append tests (static_tasks server g ++ gtest_tasks l g)

  -- Whether the problem has random tests.
  abbrev pub tests_random : ℤ → Bool
  tests_random times = is_positive (or_zero g.random_tests) && is_positive times

  any-random_tasks :
      (times : ℤ) → any (λ t. t.is_random) (random_tasks l g times) ≡ tests_random times
  unfolding random_tasks
  any-random_tasks times = elim (Bool-cases (tests_random times)) [
    | inl e ↦
        rw (random_tasks, e)
          (any-tabulate (λ t. t.is_random) true (to_count times) _ (λ i. refl)
            ∙ some_rounds times (ground arith))
    | inr e ↦ rw (random_tasks, e) refl
  ]
    where
      some_rounds : (n : ℤ) → is_positive n ≡ true → (ltb 0 (to_count n) && true) ≡ true
      some_rounds (pos n) h = ground arith
      some_rounds (negsuc n) h = cc

  any-standard_tasks : (cases : ℕ) → any (λ t. t.is_random) (standard_tasks l g cases) ≡ false
  unfolding standard_tasks
  any-standard_tasks cases =
      elim (Bool-cases (not (cases == 0) && is_positive (or_zero g.standard_tests))) [
        | inl e ↦
            rw (standard_tasks, e)
              (any-tabulate (λ t. t.is_random) false cases _ (λ i. refl) ∙ ground arith)
        | inr e ↦ rw (standard_tasks, e) refl
      ]

  any-memory_after :
      (n : ℕ) (testcase : ℕ → ℤ) (checks : List ℕ)
      → any (λ t. t.is_random) (map (λ i. memory_task server l g false n (testcase i) i) checks)
        ≡ false
  any-memory_after n testcase [] = refl
  any-memory_after n testcase (c ∷ checks) = any-memory_after n testcase checks

  any-memory_tasks :
      (has_random : Bool) (random_checks standard_checks : List ℕ) (tasks : List JudgeTask)
      → is_nil tasks ≡ false
      → any
          (λ t. t.is_random)
          (memory_tasks server l g has_random random_checks standard_checks tasks)
        ≡ false
  unfolding memory_tasks memory_after
  any-memory_tasks has_random random_checks standard_checks tasks full =
      elim (Bool-cases (is_positive (or_zero g.memory_check))) [
        | inl e ↦ elim (Bool-cases (is_nil standard_checks)) [
          | inl e' ↦ rw (memory_tasks, e, full, e') refl
          | inr e' ↦
              rw (memory_tasks, e, full, e')
                (any-memory_after (length standard_checks) (testcase_of tasks) standard_checks)
        ]
        | inr e ↦ rw (memory_tasks, e) refl
      ]

  any-single_tasks : any (λ t. t.is_random) (static_tasks server g ++ gtest_tasks l g) ≡ false
  unfolding static_tasks gtest_tasks
  any-single_tasks = ground arith

  -- Some task is random exactly if the problem has random tests.
  pub any-build_tasks :
      (times : ℤ) (cases : ℕ) (has_random : Bool)
      → any (λ t. t.is_random) (build_tasks server l g times cases has_random) ≡ tests_random times
  unfolding build_tasks compile_task
  any-build_tasks times cases has_random =
      any_of_first (random_tasks l g times) (standard_tasks l g cases)
        (static_tasks server g ++ gtest_tasks l g) _ (tests_random times) (any-random_tasks times)
        (any-standard_tasks cases) any-single_tasks
        (any-memory_tasks has_random (indices 1 (random_tasks l g times))
          (indices (length (compile_task server g ∷ random_tasks l g times))
            (standard_tasks l g cases))
          (((compile_task server g ∷ random_tasks l g times) ++ standard_tasks l g cases)
            ++ (static_tasks server g ++ gtest_tasks l g))
          refl)
