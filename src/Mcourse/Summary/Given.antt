-- ===== src/Mcourse/Summary/Given.antt =====
-- The checks of `summarize_programming` that return on every submission whose files are all there.
use judge_system.Base.{
  ◌<◌, ◌≡◌, refl, sym, ap, ◌∙◌, Bool, true, false, not, ◌||◌, Option, String, str_eq, List, [], ◌∷◌,
  ◌++◌, none, some, pos, any, All, length, Bool-cases, Option-cases, inl, inr, arith,
}
use judge_system.Status.{
  accepted, system_error, partial_correct, wrong_answer, time_limit_exceeded, status_eq, at,
}
use judge_system.Programming.{Rational, FilePath, JudgeTask, JudgeTaskResult}
use judge_system.Programming.Verify.{is_null}
use judge_system.Mcourse.Tasks.{static_check, gtest_check, memory_check}
use judge_system.Mcourse.Report.{MemoryCheckErrorReport, is_judge_error, Outside, of_int, counted}
use judge_system.Mcourse.Checks.{
  Judged, summarize_compile_check, summarize_memory_check, get_error_report, memory_error,
  memory_loop, lines, Checked, parsed, static_loop, summarize_static_check,
}
use judge_system.Mcourse.Checks.Cases.{text_given}
use judge_system.Mcourse.Gtest.{
  GtestConfig, GtestState, gtest_loop, summarize_gtest_check, fatal_message,
}

pub summarize_compile_check-given :
    (total : Rational) (judged : Judged)
    → 0 < length judged
    → is_null (summarize_compile_check total judged) ≡ false
unfolding summarize_compile_check get_error_report at status_eq
summarize_compile_check-given total [] h = absurd (omega arith)
summarize_compile_check-given total ((task, r) ∷ rest) h =
    elim (Bool-cases (status_eq r.status accepted)) [
      | inl a ↦ rw (summarize_compile_check, a) refl
      | inr a ↦ elim (Bool-cases (status_eq r.status system_error)) [
        | inl b ↦ rw (summarize_compile_check, a, b) refl
        | inr b ↦ rw (summarize_compile_check, a, b) refl
      ]
    ]

-- The files that a check reads are there: the input of a memory test, the output of a GTest.
abbrev pub HasFiles : Outside → JudgeTask × JudgeTaskResult → Type 0
HasFiles w (task, r) =
    (str_eq task.tag memory_check ≡ true
      → is_null (w.read_file (r.data_dir ++ "input" ∷ "testdata.in" ∷ [])) ≡ false)
    × (str_eq task.tag gtest_check ≡ true
        → is_null (w.read_file (r.run_dir ++ "run" ∷ "testdata.out" ∷ [])) ≡ false)

parsed-HasFiles :
    (w : Outside) (task : JudgeTask) (r : JudgeTaskResult)
    → HasFiles w (task, r)
    → HasFiles w (task, parsed w r)
parsed-HasFiles w task r h = go (w.json_error r.report)
  where
    go :
        (o : Option String)
        → HasFiles w (
          task,
          elim o [
            | none ↦ r
            | some what ↦ record r {
              status = system_error;
              error_log = lines (lines r.error_log what) r.report;
            }
          ],
        )
    go none = h
    go (some what) = h

All-end {ℓ κ} :
    {A : Type ℓ} (P : A → Type κ) (xs ys : List A) → All P xs → All P ys → All P (xs ++ ys)
All-end P [] ys h k = k
All-end P (x ∷ xs) ys (p, ps) k = (p, All-end P xs ys ps k)

unfoldable AllGiven : Outside → Checked × Judged → Type 0
AllGiven w x = All (HasFiles w) x.1

given_of : (w : Outside) (x : Checked × Judged) → All (HasFiles w) x.1 → AllGiven w x
unfolding AllGiven
given_of w x h = h

-- The static check leaves the files where they are.
static_loop-HasFiles :
    (w : Outside) (done judged : Judged) (total score : Rational) (any : Bool) (report : String)
    (cont : Bool)
    → All (HasFiles w) done
    → All (HasFiles w) judged
    → AllGiven w (static_loop w done judged total score any report cont)
unfolding static_loop
static_loop-HasFiles w done [] total score any report cont h g = given_of w _ h
static_loop-HasFiles w done ((task, r) ∷ rest) total score any report cont h (g, gs) =
    let p = parsed-HasFiles w task r g in
    let all : All (HasFiles w) (done ++ (task, parsed w r) ∷ []) =
      All-end (HasFiles w) done ((task, parsed w r) ∷ []) h (p, tt) in
    elim (Bool-cases (not (str_eq task.tag static_check) || not (counted r.status))) [
      | inl a ↦
          rw (static_loop, a)
            (static_loop-HasFiles w (done ++ (task, r) ∷ []) rest _ _ _ _ _
              (All-end (HasFiles w) done ((task, r) ∷ []) h (g, tt)) gs)
      | inr a ↦ elim (Bool-cases (status_eq (parsed w r).status accepted)) [
        | inl b ↦
            rw (static_loop, a, b)
              (static_loop-HasFiles w (done ++ (task, parsed w r) ∷ []) rest _ _ _ _ _ all gs)
        | inr b ↦ elim (Bool-cases (status_eq (parsed w r).status partial_correct)) [
          | inl c ↦
              rw (static_loop, a, b, c)
                (static_loop-HasFiles w (done ++ (task, parsed w r) ∷ []) rest _ _ _ _ _ all gs)
          | inr c ↦ elim (Bool-cases (is_judge_error (parsed w r).status)) [
            | inl d ↦
                rw (static_loop, a, b, c, d)
                  (given_of w _ (All-end (HasFiles w) done ((task, parsed w r) ∷ rest) h (p, gs)))
            | inr d ↦
                rw (static_loop, a, b, c, d)
                  (static_loop-HasFiles w (done ++ (task, parsed w r) ∷ []) rest _ _ _ _ _ all gs)
          ]
        ]
      ]
    ]

module _ (w : Outside) where
  read_given :
      (path : FilePath)
      → is_null (w.read_file path) ≡ false
      → (text : String) × (w.read_file path ≡ some text)
  read_given path file = elim (Option-cases (w.read_file path)) [
    | inl e ↦ absurd (ground (arith, sym file ∙ ap is_null e))
    | inr t ↦ t
  ]

  gtest_loop-given :
      (config : GtestConfig) (judged : Judged) (any : Bool) (s : GtestState)
      → All (HasFiles w) judged
      → is_null (gtest_loop w config judged any s) ≡ false
  unfolding gtest_loop
  gtest_loop-given config [] any s hs = refl
  gtest_loop-given config ((task, r) ∷ rest) any s (h, hs) =
      elim (Bool-cases (str_eq task.tag gtest_check)) [
        | inr t ↦ rw (gtest_loop, t) (gtest_loop-given config rest any s hs)
        | inl t ↦ elim (Bool-cases (counted r.status)) [
          | inr c ↦ rw (gtest_loop, t, c) (gtest_loop-given config rest any s hs)
          | inl c ↦
              let (stdout, o) = read_given (r.run_dir ++ "run" ∷ "testdata.out" ∷ []) (h.1 t) in
              elim (Option-cases (fatal_message r)) [
                | inr (message, f) ↦ rw (gtest_loop, t, c, o, f) refl
                | inl f ↦ elim (Option-cases (w.failed_names r.report)) [
                  | inl n ↦ rw (gtest_loop, t, c, o, f, n) refl
                  | inr (names, n) ↦ elim (Bool-cases (status_eq r.status accepted)) [
                    | inl a ↦
                        rw (gtest_loop, t, c, o, f, n, a) (gtest_loop-given config rest true _ hs)
                    | inr a ↦
                        elim (Bool-cases
                          (status_eq r.status partial_correct || status_eq r.status wrong_answer)) [
                            | inl p ↦
                                rw (gtest_loop, t, c, o, f, n, a, p)
                                  (gtest_loop-given config rest true _ hs)
                            | inr p ↦
                                let (text, found) = text_given r.status c (ground arith) in
                                rw (gtest_loop, t, c, o, f, n, a, p, found)
                                  (gtest_loop-given config rest true _ hs)
                          ]
                  ]
                ]
              ]
        ]
      ]

  pub summarize_gtest_check-given :
      (config : GtestConfig) (total : Rational) (judged : Judged)
      → All (HasFiles w) judged
      → is_null (summarize_gtest_check w config total judged) ≡ false
  unfolding summarize_gtest_check
  summarize_gtest_check-given config total judged hs = elim (Option-cases config.info) [
    | inl e ↦ rw (summarize_gtest_check, e) refl
    | inr (info, e) ↦
        let s : GtestState = record {
          score = of_int (pos 0);
          error_message = "";
          failed_cases = [];
          standard = none;
        } in
        elim (Option-cases (gtest_loop w config judged false s)) [
          | inl l ↦
              absurd
                (ground (arith, sym (gtest_loop-given config judged false s hs) ∙ ap is_null l))
          | inr (x, l) ↦ rw (summarize_gtest_check, e, l) refl
        ]
  ]

  memory_error-given :
      (r : JudgeTaskResult)
      → is_null (w.read_file (r.data_dir ++ "input" ∷ "testdata.in" ∷ [])) ≡ false
      → (e : MemoryCheckErrorReport) × (memory_error w r ≡ some e)
  unfolding memory_error
  memory_error-given r file =
      let (stdin, i) = read_given (r.data_dir ++ "input" ∷ "testdata.in" ∷ []) file in
      elim (Bool-cases (status_eq r.status wrong_answer)) [
        | inl a ↦ rw (memory_error, a, i) (_, refl)
        | inr a ↦ elim (Bool-cases (status_eq r.status time_limit_exceeded)) [
          | inl b ↦ rw (memory_error, a, b, i) (_, refl)
          | inr b ↦ rw (memory_error, a, b) (_, refl)
        ]
      ]

  memory_loop-given :
      (judged : Judged) (total score : Rational) (any : Bool) (report : List MemoryCheckErrorReport)
      → All (HasFiles w) judged
      → is_null (memory_loop w judged total score any report) ≡ false
  unfolding memory_loop
  memory_loop-given [] total score any report hs = refl
  memory_loop-given ((task, r) ∷ rest) total score any report (h, hs) =
      elim (Bool-cases (str_eq task.tag memory_check)) [
        | inr t ↦ rw (memory_loop, t) (memory_loop-given rest total score any report hs)
        | inl t ↦ elim (Bool-cases (counted r.status)) [
          | inr c ↦ rw (memory_loop, t, c) (memory_loop-given rest total score any report hs)
          | inl c ↦ elim (Bool-cases (status_eq r.status accepted)) [
            | inl a ↦ rw (memory_loop, t, c, a) (memory_loop-given rest total _ true report hs)
            | inr a ↦
                let (entry, e) = memory_error-given r (h.0 t) in
                rw (memory_loop, t, c, a, e) (memory_loop-given rest total score true _ hs)
          ]
        ]
      ]

  pub summarize_memory_check-given :
      (total : Rational) (judged : Judged)
      → All (HasFiles w) judged
      → is_null (summarize_memory_check w total judged) ≡ false
  unfolding summarize_memory_check
  summarize_memory_check-given total judged hs =
      memory_loop-given judged total (of_int (pos 0)) false [] hs

  pub summarize_static_check-HasFiles :
      (total : Rational) (judged : Judged)
      → All (HasFiles w) judged
      → All (HasFiles w) (summarize_static_check w total judged).1
  unfolding summarize_static_check AllGiven
  summarize_static_check-HasFiles total judged hs =
      static_loop-HasFiles w [] judged total _ false _ false tt hs
