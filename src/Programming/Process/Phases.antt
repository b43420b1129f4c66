-- ===== src/Programming/Process/Phases.antt =====
-- The results of a submission seen as phases, and what a write to one of them does.
use judge_system.Base.{
  ℕ, zero, suc, ◌+◌, ◌<◌, ◌≡◌, refl, true, false, List, [], ◌∷◌, ◌++◌, if◌then◌else◌, length, set,
  any, arith, ◌==◌, Bool-cases, inl, inr, ap,
}
use judge_system.Status.{Status, running, status_eq}
use judge_system.Status.Phase.{
  Phase, active, settled, phase, is_active, is_settled, status_eq-running,
}
use judge_system.Queue.{ConcurrentQueue, push}
use judge_system.Submission.{ClientTask}
use judge_system.Programming.{JudgeTaskResult}
use judge_system.Programming.Process.{set_status}

-- Out of range nothing is left to do.
unfoldable pub phase_at : List JudgeTaskResult → ℕ → Phase
phase_at [] i = settled
phase_at (r ∷ rs) zero = phase r.status
phase_at (r ∷ rs) (suc i) = phase_at rs i

abbrev pub open_bit : Phase → ℕ
open_bit settled = 0
open_bit _ = 1

abbrev pub active_bit : Phase → ℕ
active_bit active = 1
active_bit _ = 0

-- How many results are not settled.
unfoldable pub open_count : List JudgeTaskResult → ℕ
open_count [] = 0
open_count (r ∷ rs) = open_bit (phase r.status) + open_count rs

-- How often a task stands in a list of messages.
unfoldable pub sent : ℕ → List ClientTask → ℕ
sent i [] = 0
sent i (t ∷ ts) = (if t.id == i then 1 else 0) + sent i ts

pub phase_at-set :
    (rs : List JudgeTaskResult) (i : ℕ) (r : JudgeTaskResult) (j : ℕ)
    → i < length rs
    → phase_at (set rs i r) j ≡ (if i == j then phase r.status else phase_at rs j)
unfolding phase_at
phase_at-set [] i r j h = elim h [ ]
phase_at-set (x ∷ rs) zero r zero h = refl
phase_at-set (x ∷ rs) zero r (suc j) h = ground arith
phase_at-set (x ∷ rs) (suc i) r zero h = ground arith
phase_at-set (x ∷ rs) (suc i) r (suc j) h = ground (arith, phase_at-set rs i r j)

pub open_count-set :
    (rs : List JudgeTaskResult) (i : ℕ) (r : JudgeTaskResult)
    → i < length rs
    → open_count (set rs i r) + open_bit (phase_at rs i) ≡ open_count rs + open_bit (phase r.status)
unfolding phase_at open_count
open_count-set [] i r h = elim h [ ]
open_count-set (x ∷ rs) zero r h = omega arith
open_count-set (x ∷ rs) (suc i) r h = omega (arith, open_count-set rs i r (omega arith))

pub phase_at-set_status :
    (rs : List JudgeTaskResult) (i : ℕ) (s : Status) (j : ℕ)
    → i < length rs
    → phase_at (set_status rs i s) j ≡ (if i == j then phase s else phase_at rs j)
unfolding phase_at
phase_at-set_status [] i s j h = elim h [ ]
phase_at-set_status (x ∷ rs) zero s zero h = refl
phase_at-set_status (x ∷ rs) zero s (suc j) h = ground arith
phase_at-set_status (x ∷ rs) (suc i) s zero h = ground arith
phase_at-set_status (x ∷ rs) (suc i) s (suc j) h = ground (arith, phase_at-set_status rs i s j)

pub open_count-set_status :
    (rs : List JudgeTaskResult) (i : ℕ) (s : Status)
    → i < length rs
    → open_count (set_status rs i s) + open_bit (phase_at rs i) ≡ open_count rs + open_bit (phase s)
unfolding phase_at open_count
open_count-set_status [] i s h = elim h [ ]
open_count-set_status (x ∷ rs) zero s h = omega arith
open_count-set_status (x ∷ rs) (suc i) s h =
    omega (arith, open_count-set_status rs i s (omega arith))

pub length-set_status :
    (rs : List JudgeTaskResult) (i : ℕ) (s : Status) → length (set_status rs i s) ≡ length rs
length-set_status [] i s = refl
length-set_status (x ∷ rs) zero s = refl
length-set_status (x ∷ rs) (suc i) s = ap suc (length-set_status rs i s)

pub sent-append : (i : ℕ) (ts us : List ClientTask) → sent i (ts ++ us) ≡ sent i ts + sent i us
unfolding sent
sent-append i [] us = omega arith
sent-append i (t ∷ ts) us = ground (arith, sent-append i ts us)

pub sent-push :
    (i : ℕ) (q : ConcurrentQueue ClientTask) (t : ClientTask)
    → sent i (push q t).q ≡ sent i q.q + (if t.id == i then 1 else 0)
unfolding push sent
sent-push i q t = ground (arith, sent-append i q.q (t ∷ []))

-- The index of an open result that is the first one.
pub open_first :
    (rs : List JudgeTaskResult)
    → 0 < open_count rs
    → (i : ℕ) × (i < length rs)
      × (is_settled (phase_at rs i) ≡ false)
      × ((j : ℕ) → j < i → is_settled (phase_at rs j) ≡ true)
unfolding open_count phase_at
open_first [] h = elim h [ ]
open_first (r ∷ rs) h = elim (Bool-cases (is_settled (phase r.status))) [
  | inl e ↦
      let (i, lt, here, before) = open_first rs (ground arith) in
      (suc i, omega arith, here, below i e before)
  | inr e ↦ (zero, omega arith, e, λ j lt. elim lt [ ])
]
  where
    below :
        (i : ℕ)
        → is_settled (phase r.status) ≡ true
        → ((j : ℕ) → j < i → is_settled (phase_at rs j) ≡ true)
        → (j : ℕ) → j < suc i
        → is_settled (phase_at (r ∷ rs) j) ≡ true
    below i e before zero lt = e
    below i e before (suc j) lt = before j (omega arith)

-- The test of `process` for a task that runs.
pub any-running :
    (rs : List JudgeTaskResult) (i : ℕ)
    → is_active (phase_at rs i) ≡ true
    → any (λ r. status_eq r.status running) rs ≡ true
unfolding phase_at
any-running [] i h = cc
any-running (r ∷ rs) zero h = rw (status_eq-running r.status, h)
any-running (r ∷ rs) (suc i) h = ground (arith, any-running rs i h)
