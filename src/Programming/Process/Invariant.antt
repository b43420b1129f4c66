-- ===== src/Programming/Process/Invariant.antt =====
-- The invariant of a submission under way: each task is settled, sent to the workers, or waits for
-- an open one.
use judge_system.Base.{
  ℕ, ◌+◌, ◌^◌, ◌≤◌, ◌<◌, ◌≡◌, refl, Bool, true, false, not, ◌&&◌, ◌||◌, none, some, List, ℤ, pos,
  negsuc, if◌then◌else◌, length, get_elem?, eq_ℤ, leb, arith, ◌==◌, Option-cases, set, inl, inr,
  length-set,
}
use mathlib.Core.Path.{fun_ext, subst}
use judge_system.Status.Phase.{phase, is_waiting, is_active, is_settled}
use judge_system.Submission.{ClientTask}
use judge_system.Programming.{JudgeTask, JudgeTaskResult}
use judge_system.Programming.Process.{Progress, store}
use judge_system.Programming.Process.Phases.{
  phase_at, active_bit, open_count, sent, phase_at-set, open_count-set,
}

-- A dependency is on an earlier task.
abbrev pub Earlier : ℤ → ℕ → Type 0
Earlier (pos d) i = d < i
Earlier (negsuc _) i = Unit

-- What `verify` gives for the list of tasks: the dependencies form a forest.
pub record IsForest (tasks : List JudgeTask) : Type 0 where
  pub small : length tasks ≤ 2 ^ 31
  pub earlier : (i : ℕ) (t : JudgeTask) → get_elem? tasks i ≡ some t → Earlier t.depends_on i

-- Does task `j` depend on task `k`?
abbrev pub depends : List JudgeTask → ℕ → ℕ → Bool
depends tasks k j = elim (get_elem? tasks j) [ none ↦ false | some t ↦ eq_ℤ t.depends_on (pos k) ]

abbrev pub awaits : List JudgeTaskResult → (ℕ → Bool) → ℤ → ℕ → Bool
awaits rs orphan (pos d) i = not (is_settled (phase_at rs d)) || orphan i
awaits rs orphan (negsuc _) i = false

abbrev pub Settled : List JudgeTaskResult → ℤ → Type 0
Settled rs (pos d) = is_settled (phase_at rs d) ≡ true
Settled rs (negsuc _) = Unit

-- `busy` lists the tasks that workers have taken off the queue; `orphan` names the tasks that still
-- wait although their dependency is settled; `due` calls of `process` have not counted their task.
-- `hidden` is the task whose worker has just answered, if any.
pub record Inv (tasks : List JudgeTask) (busy : List ClientTask) (orphan : ℕ → Bool)
    (hidden : ℕ → Bool) (due : ℕ) (p : Progress) : Type 0 where
  pub sized : length p.results ≡ length tasks
  pub counted : p.finished + open_count p.results + due ≡ length tasks
  pub linked :
      (i : ℕ) (t : JudgeTask)
      → get_elem? tasks i ≡ some t
      → is_waiting (phase_at p.results i) ≡ awaits p.results orphan t.depends_on i
  pub orphaned :
      (i : ℕ) (t : JudgeTask)
      → get_elem? tasks i ≡ some t
      → orphan i ≡ true
      → Settled p.results t.depends_on
  pub flying :
      (i : ℕ)
      → sent i p.queue.q + sent i busy ≡ (if hidden i then 0 else active_bit (phase_at p.results i))

abbrev pub nobody : ℕ → Bool
nobody i = false

pub Inv-congr :
    {tasks : List JudgeTask} {busy : List ClientTask} {e e' h : ℕ → Bool} {due : ℕ} {p : Progress}
    → ((j : ℕ) → e j ≡ e' j)
    → Inv tasks busy e h due p
    → Inv tasks busy e' h due p
Inv-congr {tasks} {busy} {h = h} {due} {p} same inv =
    subst (λ o. Inv tasks busy o h due p) (fun_ext same) inv

-- Task `k` is with a worker, or is an orphan that still waits.
abbrev pub IsReady : List JudgeTaskResult → (ℕ → Bool) → ℕ → Type 0
IsReady rs orphan k = (is_active (phase_at rs k) || (is_waiting (phase_at rs k) && orphan k)) ≡ true

-- While `process` visits the tasks after `k` is settled: those of its dependents that it has not
-- reached are orphans.
abbrev pub visiting : List JudgeTask → (ℕ → Bool) → ℕ → ℕ → ℕ → Bool
visiting tasks orphan k i j = (orphan j && not (j == k)) || (leb i j && depends tasks k j)

module _ {tasks : List JudgeTask} {busy : List ClientTask} (forest : IsForest tasks) where
  -- The dependents of a task that is not settled are no orphans.
  pub not-orphan :
      {orphan hidden : ℕ → Bool} {due : ℕ} {p : Progress}
      → Inv tasks busy orphan hidden due p
      → (k : ℕ) → is_settled (phase_at p.results k) ≡ false
      → (j : ℕ) → depends tasks k j ≡ true
      → orphan j ≡ false
  not-orphan {orphan} {p = p} inv k open_k j dep = elim (Option-cases (get_elem? tasks j)) [
    | inl e ↦ ground arith
    | inr (t, e) ↦ go t.depends_on t e refl
  ]
    where
      go :
          (d : ℤ) (t : JudgeTask) → get_elem? tasks j ≡ some t → t.depends_on ≡ d → orphan j ≡ false
      go (negsuc _) t e q = ground arith
      go (pos d) t e q = ground (arith, inv.orphaned j t e)

  -- A result that settles task `k` leaves its dependents as orphans.
  pub store-Inv :
      (orphan : ℕ → Bool) (due : ℕ) (p : Progress) (r : JudgeTaskResult)
      → r.id < length tasks
      → Inv tasks busy orphan (λ i. i == r.id) due p
      → IsReady p.results orphan r.id
      → is_settled (phase r.status) ≡ true
      → Inv tasks busy (visiting tasks orphan r.id 0) nobody (due + 1) (store r p)
  store-Inv orphan due p r lt inv ready done = record {
    sized = omega (arith, length-set p.results r.id r, inv.sized);
    counted = ground (arith, open_count-set p.results r.id r (omega arith), inv.counted);
    linked = λ i t e. linked i t e t.depends_on refl;
    orphaned = λ i t e o. orphaned i t e o t.depends_on refl;
    flying = λ i. ground (arith, at_ i, inv.flying i);
  }
    where
      open_k : is_settled (phase_at p.results r.id) ≡ false
      open_k = ground arith

      at_ :
          (j : ℕ)
          → phase_at (set p.results r.id r) j
            ≡ (if r.id == j then phase r.status else phase_at p.results j)
      at_ j = phase_at-set p.results r.id r j (omega (arith, inv.sized))

      linked :
          (i : ℕ) (t : JudgeTask)
          → get_elem? tasks i ≡ some t
          → (d : ℤ) → t.depends_on ≡ d
          → is_waiting (phase_at (store r p).results i)
            ≡ awaits (store r p).results (visiting tasks orphan r.id 0) t.depends_on i
      linked i t e (negsuc d) q = ground (arith, at_ i, inv.linked i t e)
      linked i t e (pos d) q = ground (
        arith,
        at_ i,
        at_ d,
        inv.linked i t e,
        inv.orphaned i t e,
        not-orphan inv r.id open_k i,
        forest.earlier i t e,
      )

      orphaned :
          (i : ℕ) (t : JudgeTask)
          → get_elem? tasks i ≡ some t
          → visiting tasks orphan r.id 0 i ≡ true
          → (d : ℤ) → t.depends_on ≡ d
          → Settled (store r p).results t.depends_on
      orphaned i t e o (negsuc d) q = rw q tt
      orphaned i t e o (pos d) q = ground (arith, at_ i, at_ d, inv.orphaned i t e)
