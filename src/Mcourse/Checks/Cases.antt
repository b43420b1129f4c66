-- ===== src/Mcourse/Checks/Cases.antt =====
-- How the loop over the random or the standard tests ends.
use judge_system.Base.{
  ◌≡◌, refl, sym, ap, ◌∙◌, Bool, true, false, not, ◌&&◌, ◌||◌, String, str_eq, List, [], ◌∷◌, ◌++◌,
  Option, none, some, pos, if◌then◌else◌, ◌>>=◌, any, Bool-cases, Option-cases, inl, inr, arith,
}
use judge_system.Status.{Status, accepted, partial_correct, dependency_not_satisfied, status_eq, at}
use judge_system.Programming.{Rational, JudgeTaskResult}
use judge_system.Programming.Verify.{is_null}
use judge_system.Mcourse.Report.{
  ErrorReport, failure, CheckCaseReport, Outside, of_int, ◌+ℚ◌, counted, is_judge_error,
  status_string,
}
use judge_system.Mcourse.Checks.{
  Judged, Checked, Progress, so_far, returned, get_error_report, check_loop, check_case,
  summarize_case_check,
}

-- One of the files that the report of a case shows is missing.
abbrev pub unreadable : Outside → JudgeTaskResult → Bool
unreadable w r =
    is_null (w.read_file (r.data_dir ++ "input" ∷ "testdata.in" ∷ []))
    || (is_null (w.read_file (r.data_dir ++ "output" ∷ "testdata.out" ∷ []))
        || (is_null (w.read_file (r.run_dir ++ "run" ∷ "testdata.out" ∷ []))
            || is_null (w.read_file (r.run_dir ++ "program.err" ∷ []))))

-- The result that ends the loop early: `some true` for one that is partially correct, or wrong without
-- all its files, and `some false` for one that shows a failure of the judge system.
abbrev pub stop : Outside → String → Judged → Option Bool
stop w tag [] = none
stop w tag ((task, r) ∷ rest) =
    let later = stop w tag rest in
    if not (str_eq task.tag tag) || not (counted r.status)
    then later
    else if status_eq r.status partial_correct
    then some true
    else if is_judge_error r.status
    then some false
    else if not (status_eq r.status accepted) && unreadable w r
    then some true
    else later

pub is_null-bind {ℓ κ} :
    {A : Type ℓ} {B : Type κ} (m : Option A) (f : A → Option B) {a b : Bool}
    → is_null m ≡ a
    → ((x : A) → is_null (f x) ≡ b)
    → is_null (m >>= f) ≡ (a || b)
unfolding ◌>>=◌
is_null-bind none f h k = rw⁻¹ h refl
is_null-bind (some x) f h k = rw⁻¹ h (k x)

is_null-check_case :
    (w : Outside) (r : JudgeTaskResult) (text : String)
    → is_null (check_case w r text) ≡ unreadable w r
unfolding check_case
is_null-check_case w r text =
    is_null-bind (w.read_file (r.data_dir ++ "input" ∷ "testdata.in" ∷ [])) _ refl (λ a.
      is_null-bind (w.read_file (r.data_dir ++ "output" ∷ "testdata.out" ∷ [])) _ refl (λ b.
        is_null-bind (w.read_file (r.run_dir ++ "run" ∷ "testdata.out" ∷ [])) _ refl
          (λ c. is_null-bind (w.read_file (r.run_dir ++ "program.err" ∷ [])) _ refl (λ d. refl))))
    ∙ ground arith

-- The points of the accepted tests, on top of `score`.
abbrev pub earned : String → Judged → Rational → Rational
earned tag [] score = score
earned tag ((task, r) ∷ rest) score =
    earned tag rest
      (if str_eq task.tag tag && status_eq r.status accepted then score +ℚ task.score else score)

pub text_missing :
    (s : Status)
    → is_null (at s status_string)
      ≡ (status_eq s partial_correct || status_eq s dependency_not_satisfied)
unfolding at status_eq
text_missing partial_correct = refl
text_missing s = refl

-- What the tests on a verdict say of each other.
record Verdicts (s : Status) : Type 0 where
  accepted_counted : status_eq s accepted ≡ true → counted s ≡ true
  accepted_whole : status_eq s accepted ≡ true → status_eq s partial_correct ≡ false
  accepted_clean : status_eq s accepted ≡ true → is_judge_error s ≡ false
  partial_clean : status_eq s partial_correct ≡ true → is_judge_error s ≡ false
  error_clean :
      is_judge_error s ≡ true
      → (status_eq s partial_correct || status_eq s dependency_not_satisfied) ≡ false
  counted_clean : counted s ≡ true → status_eq s dependency_not_satisfied ≡ false

verdicts : (s : Status) → Verdicts s
unfolding status_eq counted is_judge_error
verdicts accepted = record {
  accepted_counted = λ e. refl;
  accepted_whole = λ e. refl;
  accepted_clean = λ e. refl;
  partial_clean = λ e. refl;
  error_clean = λ e. refl;
  counted_clean = λ e. refl;
}
verdicts s = record {
  accepted_counted = λ e. ground arith;
  accepted_whole = λ e. ground arith;
  accepted_clean = λ e. ground arith;
  partial_clean = λ e. ground arith;
  error_clean = λ e. ground arith;
  counted_clean = λ e. ground arith;
}

-- How the loop ends, by what stops it.
abbrev LoopEnd : Rational → Option Bool → Option Progress → Type 0
LoopEnd score (some true) p = p ≡ none
LoopEnd score (some false) p = (e : ErrorReport) × (p ≡ some (returned (failure e)))
LoopEnd score none p =
    (any : Bool) × (cases : List CheckCaseReport) × (p ≡ some (so_far any score cases))

get_error_report_lem :
    (s : Status) (r : JudgeTaskResult)
    → is_judge_error s ≡ true
    → (e : ErrorReport) × (get_error_report s r ≡ some (failure e))
unfolding get_error_report
get_error_report_lem s r h = elim (Option-cases (at s status_string)) [
  | inl e ↦ absurd (ground (arith, (verdicts s).error_clean h, sym (text_missing s) ∙ ap is_null e))
  | inr (text, e) ↦ (record { result = text; message = r.error_log }, rw (get_error_report, e) refl)
]

pub text_given :
    (s : Status)
    → counted s ≡ true
    → status_eq s partial_correct ≡ false
    → (text : String) × (at s status_string ≡ some text)
text_given s c p = elim (Option-cases (at s status_string)) [
  | inl e ↦
      absurd (ground (arith, (verdicts s).counted_clean c, sym (text_missing s) ∙ ap is_null e))
  | inr t ↦ t
]

text_lacking : (s : Status) → status_eq s partial_correct ≡ true → at s status_string ≡ none
text_lacking s p = elim (Option-cases (at s status_string)) [
  | inl e ↦ e
  | inr (text, e) ↦ absurd (ground (arith, sym (text_missing s) ∙ ap is_null e))
]

check_loop_lem :
    (w : Outside) (tag : String) (judged : Judged) (any : Bool) (score : Rational)
    (cases : List CheckCaseReport)
    → LoopEnd
        (earned tag judged score)
        (stop w tag judged)
        (check_loop w tag judged any score cases)
unfolding check_loop
check_loop_lem w tag [] any score cases = (any, cases, refl)
check_loop_lem w tag ((task, r) ∷ rest) any score cases = elim (Bool-cases (str_eq task.tag tag)) [
  | inr t ↦ rw (check_loop, t) (check_loop_lem w tag rest any score cases)
  | inl t ↦ elim (Bool-cases (status_eq r.status accepted)) [
    | inl a ↦
        rw
          (
            check_loop,
            t,
            a,
            (verdicts r.status).accepted_counted a,
            (verdicts r.status).accepted_whole a,
            (verdicts r.status).accepted_clean a,
          )
          (check_loop_lem w tag rest true (score +ℚ task.score) cases)
    | inr a ↦ elim (Bool-cases (counted r.status)) [
      | inr c ↦ rw (check_loop, t, a, c) (check_loop_lem w tag rest any score cases)
      | inl c ↦ elim (Bool-cases (status_eq r.status partial_correct)) [
        | inl p ↦
            rw
              (check_loop, t, a, c, p, (verdicts r.status).partial_clean p, text_lacking r.status p)
              refl
        | inr p ↦ elim (Bool-cases (is_judge_error r.status)) [
          | inl e ↦
              let (report, found) = get_error_report_lem r.status r e in
              rw (check_loop, t, a, c, p, e, found) (report, refl)
          | inr e ↦
              let (text, found) = text_given r.status c p in
              elim (Option-cases (check_case w r text)) [
                | inl k ↦
                    rw
                      (
                        check_loop,
                        t,
                        a,
                        c,
                        p,
                        e,
                        found,
                        k,
                        sym (is_null-check_case w r text) ∙ ap is_null k,
                      )
                      refl
                | inr (kase, k) ↦
                    rw
                      (
                        check_loop,
                        t,
                        a,
                        c,
                        p,
                        e,
                        found,
                        k,
                        p,
                        sym (is_null-check_case w r text) ∙ ap is_null k,
                      )
                      (check_loop_lem w tag rest true score (cases ++ kase ∷ []))
              ]
        ]
      ]
    ]
  ]
]

-- What a check gives, by what stops its loop.
abbrev pub CheckEnd : Rational → Rational → Option Bool → Option Checked → Type 0
CheckEnd total score (some true) o = o ≡ none
CheckEnd total score (some false) o =
    (e : ErrorReport) × (o ≡ some (record { total_score = total; report = some (failure e) }))
CheckEnd total score none o = (c : Checked) × (o ≡ some c) × (c.total_score ≡ total +ℚ score)

-- The check of the random or of the standard tests throws exactly if a partially correct test, or a
-- wrong one without all its files, comes before every test that shows a failure of the judge system. If such a failure comes first, the entry
-- is an error report and the check adds nothing to the score. If there is neither, the check adds
-- exactly the points of the accepted tests.
pub summarize_case_check_lem :
    (w : Outside) (tag : String) (total : Rational) (judged : Judged)
    → CheckEnd total
        (earned tag judged (of_int (pos 0)))
        (stop w tag judged)
        (summarize_case_check w tag total judged)
unfolding summarize_case_check
summarize_case_check_lem w tag total judged =
    ended (stop w tag judged) (check_loop_lem w tag judged false (of_int (pos 0)) [])
  where
    ended :
        (s : Option Bool)
        → LoopEnd
            (earned tag judged (of_int (pos 0)))
            s
            (check_loop w tag judged false (of_int (pos 0)) [])
        → CheckEnd total
            (earned tag judged (of_int (pos 0)))
            s
            (summarize_case_check w tag total judged)
    ended (some true) e = rw (summarize_case_check, e) refl
    ended (some false) (report, e) = rw (summarize_case_check, e) (report, refl)
    ended none (any, cases, e) = rw (summarize_case_check, e) (_, refl, refl)
