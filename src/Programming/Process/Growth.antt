-- ===== src/Programming/Process/Growth.antt =====
-- The counter of `process`, its report, and the relation of the two kinds of its calls.
use judge_system.Base.{
  ℕ, zero, suc, ◌≤◌, ◌<◌, ◌≡◌, Bool, true, false, Option, some, List, [], ◌∷◌, if◌then◌else◌,
  length, eq_ℤ, arith, ltb, ◌==◌, Option-cases, Bool-cases, inl, inr, to_int,
}
use native.Mathlib.Nat.{le_trans}
use judge_system.Programming.{JudgeTask, JudgeTaskResult}
use judge_system.Programming.Process.{
  Progress, dispatch, store, finish, unsatisfied, satisfied, visit, process, report, summarize,
}

abbrev Grows : (JudgeTaskResult → Progress → Option Progress) → Type 0
Grows f = (r : JudgeTaskResult) (p q : Progress) → f r p ≡ some q → p.finished ≤ q.finished

-- The loop, the counter and the report of `process`, over any recursive call.
module _ (judge_id : ℕ) (child : JudgeTaskResult → Progress → Option Progress) (r : JudgeTaskResult)
    (grows : Grows child) where
  abbrev turn : ℕ → JudgeTask → Progress → Option Progress
  turn i t p =
      if eq_ℤ t.depends_on (to_int r.id)
      then (if satisfied t.depends_cond r.status
          then some (dispatch judge_id i t p)
          else child (unsatisfied i t) p)
      else some p

  turn_grows :
      (i : ℕ) (t : JudgeTask) (p q : Progress) → turn i t p ≡ some q → p.finished ≤ q.finished
  unfolding dispatch
  turn_grows i t p q e = ground (arith, grows (unsatisfied i t) p q)

  visit_grows :
      (i : ℕ) (rest : List JudgeTask) (p q : Progress)
      → visit judge_id child r i rest p ≡ some q
      → p.finished ≤ q.finished
  unfolding visit
  visit_grows i [] p q e = ground arith
  visit_grows i (t ∷ rest) p q e = elim (Option-cases (turn i t p)) [
    | inl stop ↦ absurd (cc (rw (stop, visit) at e))
    | inr (m, go) ↦
        le_trans (turn_grows i t p m go) (visit_grows (suc i) rest m q (rw (go, visit) at e))
  ]

lt_imp_le : {a b : ℕ} → a < b → a ≤ b
lt_imp_le h = omega arith

pub process_grows :
    (depth judge_id : ℕ) (reserve : Bool) (tasks : List JudgeTask) (r : JudgeTaskResult)
    (p q : Progress)
    → process depth judge_id reserve tasks false r p ≡ some q
    → p.finished < q.finished
unfolding process
process_grows zero judge_id reserve tasks r p q e = cc
process_grows (suc depth) judge_id reserve tasks r p q e =
    let loop : Option Progress =
      visit judge_id (process depth judge_id reserve tasks false) r 0 tasks (store r p) in
    elim (Option-cases loop) [
      | inl stop ↦ absurd (cc (rw (stop, process) at e))
      | inr (m, go) ↦
          let e' : some (finish m) ≡ some q = rw (go, process) at e in
          ground (
            arith,
            visit_grows judge_id (process depth judge_id reserve tasks false) r
                (λ r' p' q' g. lt_imp_le (process_grows depth judge_id reserve tasks r' p' q' g)) 0
                tasks (store r p) m go,
          )
    ]

-- A call for an answer does what a call for a dependent does, and then reports.
pub process-report :
    (depth judge_id : ℕ) (reserve : Bool) (tasks : List JudgeTask) (r : JudgeTaskResult)
    (p q : Progress)
    → process depth judge_id reserve tasks false r p ≡ some q
    → process depth judge_id reserve tasks true r p ≡ some (report reserve tasks q)
unfolding process
process-report zero judge_id reserve tasks r p q e = cc
process-report (suc depth) judge_id reserve tasks r p q e =
    elim (Option-cases
      (visit judge_id (process depth judge_id reserve tasks false) r 0 tasks (store r p))) [
        | inl stop ↦ absurd (cc (rw (stop, process) at e))
        | inr (m, go) ↦
            let e' : some (finish m) ≡ some q = rw (go, process) at e in
            rw (go, process) (ground arith)
      ]

-- The report changes the events alone.
pub report-eq-record :
    (reserve : Bool) (tasks : List JudgeTask) (p : Progress)
    → report reserve tasks p ≡ record p { events = (report reserve tasks p).events }
unfolding report summarize
report-eq-record reserve tasks p = elim (Bool-cases (p.finished == length tasks)) [
  | inl e ↦ rw (e, report)
  | inr e ↦ elim (Bool-cases (ltb (length tasks) p.finished)) [
    | inl f ↦ rw (e, f, report)
    | inr f ↦ rw (e, f, report)
  ]
]
