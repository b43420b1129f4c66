-- ===== src/Programming/Process/Recursion.antt =====
-- The loop of `process` and its recursion keep the invariant, and the recursion ends within the
-- depth that the task's place in the list leaves.
use judge_system.Base.{
  ℕ, zero, suc, ◌+◌, ◌≤◌, ◌<◌, ◌≡◌, refl, Bool, true, false, not, ◌&&◌, Option, some, List, [], ◌∷◌,
  pos, if◌then◌else◌, length, get_elem?, eq_ℤ, arith, ◌==◌, Bool-cases, inl, inr, ap, ◌∙◌, sym,
  to_int, to_int-small,
}
use judge_system.Status.Phase.{phase, is_settled}
use judge_system.Submission.{ClientTask}
use judge_system.Programming.{JudgeTask, JudgeTaskResult}
use judge_system.Programming.Process.{
  Progress, dispatch, store, finish, unsatisfied, satisfied, visit, process,
}
use judge_system.Programming.Process.Invariant.{
  IsForest, depends, Inv, nobody, Inv-congr, IsReady, visiting, not-orphan, store-Inv,
}
use judge_system.Programming.Process.Visit.{
  visiting-skip, visiting-child, visiting-end, get_elem?-lt, hide-Inv, finish-Inv, waits,
  dispatch-Inv, depends_here,
}

-- A run that ends in a state with the invariant, and reports nothing.
abbrev pub Ends :
    List JudgeTask → List ClientTask → (ℕ → Bool) → ℕ → Progress → Option Progress → Type 0
Ends tasks busy orphan due p out =
    (q : Progress) × (out ≡ some q) × Inv tasks busy orphan nobody due q × (q.events ≡ p.events)

-- What a call of `process` for a task after `k` does.
abbrev pub ChildEnds :
    List JudgeTask → List ClientTask → ℕ → (JudgeTaskResult → Progress → Option Progress) → Type 0
ChildEnds tasks busy k child =
    (orphan : ℕ → Bool) (due : ℕ) (p : Progress) (r : JudgeTaskResult)
    → k ≤ r.id
    → r.id < length tasks
    → Inv tasks busy orphan (λ i. i == r.id) due p
    → IsReady p.results orphan r.id
    → is_settled (phase r.status) ≡ true
    → Ends tasks busy (λ j. orphan j && not (j == r.id)) due p (child r p)

module _ {tasks : List JudgeTask} {busy : List ClientTask} (forest : IsForest tasks)
    (judge_id : ℕ) where
  module _ (child : JudgeTaskResult → Progress → Option Progress) (r : JudgeTaskResult)
      (lt : r.id < length tasks) (ends : ChildEnds tasks busy (suc r.id) child) (orphan : ℕ → Bool)
      (due : ℕ) (fresh : (j : ℕ) → depends tasks r.id j ≡ true → orphan j ≡ false) where
    same_id : to_int r.id ≡ pos r.id
    same_id = to_int-small r.id (omega (arith, forest.small))

    here :
        (i : ℕ) (t : JudgeTask) (rest : List JudgeTask)
        → ((j : ℕ) → get_elem? (t ∷ rest) j ≡ get_elem? tasks (i + j))
        → get_elem? tasks i ≡ some t
    here i t rest suffix = let z : i + 0 ≡ i = omega arith in rw z at (sym (suffix 0))

    dispatch-events :
        (i : ℕ) (t : JudgeTask) (p : Progress) → (dispatch judge_id i t p).events ≡ p.events
    unfolding dispatch
    dispatch-events i t p = refl

    -- The body of the loop at task `i`.
    abbrev turn : ℕ → JudgeTask → Progress → Option Progress
    turn i t p =
        if eq_ℤ t.depends_on (to_int r.id)
        then (if satisfied t.depends_cond r.status
            then some (dispatch judge_id i t p)
            else child (unsatisfied i t) p)
        else some p

    turn-Ends :
        (i : ℕ) (t : JudgeTask) (p : Progress)
        → get_elem? tasks i ≡ some t
        → Inv tasks busy (visiting tasks orphan r.id i) nobody due p
        → Ends tasks busy (visiting tasks orphan r.id (suc i)) due p (turn i t p)
    turn-Ends i t p there inv = elim (Bool-cases (eq_ℤ t.depends_on (pos r.id))) [
      | inl dep ↦ rw (same_id, dep) (on_child dep)
      | inr other ↦
          rw (same_id, other)
            (p, refl, Inv-congr (visiting-skip tasks orphan r.id i (skipped other)) inv, refl)
    ]
      where
        skipped : eq_ℤ t.depends_on (pos r.id) ≡ false → depends tasks r.id i ≡ false
        skipped other = rw (there, depends) other

        after : eq_ℤ t.depends_on (pos r.id) ≡ true → r.id < i
        after dep = ground (arith, forest.earlier i t there)

        ready :
            eq_ℤ t.depends_on (pos r.id) ≡ true → IsReady p.results (visiting tasks orphan r.id i) i
        ready dep = ground (
          arith,
          waits forest orphan due r.id i judge_id t p there dep fresh inv,
          depends_here forest orphan due r.id i judge_id t p there dep fresh inv,
        )

        on_child :
            eq_ℤ t.depends_on (pos r.id) ≡ true
            → Ends tasks busy (visiting tasks orphan r.id (suc i)) due p (
                if satisfied t.depends_cond r.status
                then some (dispatch judge_id i t p)
                else child (unsatisfied i t) p)
        on_child dep = elim (Bool-cases (satisfied t.depends_cond r.status)) [
          | inl good ↦ rw good (
            dispatch judge_id i t p,
            refl,
            dispatch-Inv forest orphan due r.id i judge_id t p there dep fresh inv,
            dispatch-events i t p,
          )
          | inr bad ↦ rw bad (
              let (q, e, inv', ev) =
                ends (visiting tasks orphan r.id i) due p (unsatisfied i t) (after dep)
                  (get_elem?-lt tasks i there)
                  (hide-Inv forest i
                    (waits forest orphan due r.id i judge_id t p there dep fresh inv) inv)
                  (ready dep) refl in
              (
                q,
                e,
                Inv-congr
                    (visiting-child tasks orphan r.id i (
                      fresh i
                        (depends_here forest orphan due r.id i judge_id t p there dep fresh inv)))
                    inv',
                ev,
              ))
        ]

    visit-Ends :
        (i : ℕ) (rest : List JudgeTask) (p : Progress)
        → ((j : ℕ) → get_elem? rest j ≡ get_elem? tasks (i + j))
        → i + length rest ≡ length tasks
        → Inv tasks busy (visiting tasks orphan r.id i) nobody due p
        → Ends tasks busy
            (visiting tasks orphan r.id (length tasks))
            due
            p
            (visit judge_id child r i rest p)
    unfolding visit
    visit-Ends i [] p suffix total inv =
        let stop : i ≡ length tasks = omega arith in (p, refl, rw (← stop) inv, refl)
    visit-Ends i (t ∷ rest) p suffix total inv =
        let (q, e, inv', ev) = turn-Ends i t p (here i t rest suffix) inv in
        let (q', e', inv'', ev') =
          visit-Ends (suc i) rest q (λ j. suffix (suc j) ∙ ap (get_elem? tasks) (omega arith))
            (omega arith) inv' in
        (q', rw (e, visit) e', inv'', ev' ∙ ev)

  pub process-Ends :
      (depth : ℕ) (reserve : Bool) (r : JudgeTaskResult) (p : Progress) (orphan : ℕ → Bool)
      (due : ℕ)
      → r.id < length tasks
      → length tasks ≤ r.id + depth
      → Inv tasks busy orphan (λ i. i == r.id) due p
      → IsReady p.results orphan r.id
      → is_settled (phase r.status) ≡ true
      → Ends tasks busy
          (λ j. orphan j && not (j == r.id))
          due
          p
          (process depth judge_id reserve tasks false r p)
  unfolding process
  process-Ends zero reserve r p orphan due lt deep inv ready done = absurd (omega arith)
  process-Ends (suc depth) reserve r p orphan due lt deep inv ready done =
      let (q, e, inv', ev) =
        visit-Ends (process depth judge_id reserve tasks false) r lt
          (λ o d p' r' after lt' i rd dn.
            process-Ends depth reserve r' p' o d lt' (omega arith) i rd dn)
          orphan (due + 1) (not-orphan forest inv r.id (ground arith)) 0 tasks (store r p)
          (λ j. ap (get_elem? tasks) (omega arith)) (omega arith)
          (store-Inv forest orphan due p r lt inv ready done) in
      (
        finish q,
        rw (e, process),
        finish-Inv forest (Inv-congr (visiting-end tasks orphan r.id) inv'),
        ev,
      )
