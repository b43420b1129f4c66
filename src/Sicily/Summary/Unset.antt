-- ===== src/Sicily/Summary/Unset.antt =====
-- `summarize` while a submission's `config` is empty, as `fetch_queue` leaves it.
use judge_system.Base.{
  ℕ, ◌-◌, ◌==◌, ◌≡◌, refl, Bool, true, false, ◌||◌, List, [], ◌∷◌, ◌++◌, Option, none, some, any,
  any-append, ltb, length, get_elem?, Bool-cases, Option-cases, inl, inr, arith, ◌-◌,
}
use judge_system.Submission.{Submission}
use judge_system.Programming.{JudgeTaskResult, ProgrammingSubmission}
use judge_system.Sicily.{Statement, delete_queue, set_compilelog}
use judge_system.Sicily.Fetch.{Site, fetch_queue}
use judge_system.Sicily.Fetch.Accepted.{fetch_queue-unset}
use judge_system.Sicily.Summary.{Found, Judged, Outcome, opening, summarize}

-- Every statement but the two that take a submission from the queue and store the compiler's log.
abbrev pub gives_verdict : Statement → Bool
gives_verdict (delete_queue qid) = false
gives_verdict (set_compilelog log sid) = false
gives_verdict _ = true

-- A call during the judging: what its queries find, the results and the count of finished tasks.
pub record Call : Type 0 where
  pub found : Found
  pub results : List JudgeTaskResult
  pub finished : ℕ

-- An exception leaves `config` as it was.
abbrev kept : Option JudgeTaskResult → Outcome → Option JudgeTaskResult
kept config out = elim out.config [ none ↦ config | some new ↦ new ]

abbrev pub judged_at : Submission → ℕ → Option JudgeTaskResult → Call → Judged
judged_at base cases config call = record {
  base = base;
  cases = cases;
  results = call.results;
  finished = call.finished;
  config = config;
}

-- The statements of the calls of `summarize`, one after the other.
unfoldable pub summarize_all : Submission → ℕ → Option JudgeTaskResult → List Call → List Statement
summarize_all base cases config [] = []
summarize_all base cases config (call ∷ rest) =
    let out = summarize call.found (judged_at base cases config call) in
    out.statements ++ summarize_all base cases (kept config out) rest

pub opening_silent :
    (judged : Judged) (compiled : JudgeTaskResult)
    → any gives_verdict (opening judged compiled) ≡ false
opening_silent judged compiled = ground arith

-- Of a call: nothing but the log and the queue is written, and `config` stays empty.
unset_call :
    (found : Found) (base : Submission) (cases : ℕ) (call : Call)
    → (any gives_verdict (summarize found (judged_at base cases none call)).statements ≡ false)
      × (kept none (summarize found (judged_at base cases none call)) ≡ none)
unfolding summarize
unset_call found base cases call =
    elim (Bool-cases (call.finished == 0 || ltb (length call.results) call.finished)) [
      | inl e ↦ rw (summarize, e) (refl, refl)
      | inr e ↦ elim (Option-cases (get_elem? call.results 0)) [
        | inl e' ↦ rw (summarize, e, e') (refl, refl)
        | inr (compiled, e') ↦ elim (Option-cases (get_elem? call.results (call.finished - 1))) [
          | inl e'' ↦ rw (summarize, e, e', e'') (refl, refl)
          | inr (current, e'') ↦
              rw (summarize, e, e', e'')
                (opening_silent (judged_at base cases none call) compiled, refl)
        ]
      ]
    ]

unset_calls :
    (base : Submission) (cases : ℕ) (calls : List Call)
    → any gives_verdict (summarize_all base cases none calls) ≡ false
unfolding summarize_all
unset_calls base cases [] = refl
unset_calls base cases (call ∷ rest) =
    let one = unset_call call.found base cases call in
    rw (summarize_all, one.1)
      (ground (
        arith,
        one.0,
        any-append gives_verdict (summarize call.found (judged_at base cases none call)).statements
            (summarize_all base cases none rest),
        unset_calls base cases rest,
      ))

-- A submission that `fetch_queue` finds never gets a verdict: whatever its tasks' results are and
-- however often `summarize` is called, no call updates the status, the user or the rank list.
pub fetched_without_verdict :
    (site : Site) (base : Submission) (sub : ProgrammingSubmission)
    (config : Option JudgeTaskResult)
    → fetch_queue site base ≡ some (sub, config)
    → (calls : List Call)
    → any gives_verdict (summarize_all sub.base (length sub.test_data) config calls) ≡ false
fetched_without_verdict site base sub config came calls =
    rw (fetch_queue-unset site base sub config came)
      (unset_calls sub.base (length sub.test_data) calls)
