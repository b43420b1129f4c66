-- ===== src/Programming/Verify/Accepts.antt =====
-- What a submission that `verify` accepts looks like.
use judge_system.Base.{
  ℕ, zero, suc, ◌+◌, ◌^◌, ◌≤◌, ◌<◌, ◌≡◌, refl, ◌↔◌, ◌⊎◌, inl, inr, Bool, true, false, ◌||◌, none,
  some, List, [], ◌∷◌, ℤ, pos, negsuc, if◌then◌else◌, length, get_elem?, any, leb, leb_ℤ,
  is_negative, to_int, to_int-small, arith, Bool-cases,
}
use judge_system.Programming.{JudgeTask, ProgrammingSubmission}
use judge_system.Programming.Verify.{is_null, scan, verify}
use judge_system.Programming.Process.Invariant.{Earlier, IsForest}

-- From index `i` on, every task depends on an earlier one or on none.
abbrev pub AllEarlier : ℕ → List JudgeTask → Type 0
AllEarlier i [] = Unit
AllEarlier i (t ∷ ts) = Earlier t.depends_on i × AllEarlier (suc i) ts

-- What a submission must have to be judged.
pub record IsComplete (sub : ProgrammingSubmission) : Type 0 where
  pub ordered : AllEarlier 0 sub.judge_tasks
  pub has_submission : is_null sub.submission ≡ false
  pub has_generator :
      any (λ t. t.is_random) sub.judge_tasks ≡ true
      → (is_null sub.standard ≡ false) × (is_null sub.random ≡ false)
  pub has_entry : any (λ t. is_negative t.depends_on) sub.judge_tasks ≡ true

later_test :
    (i : ℕ) (d : ℤ)
    → i < 2 ^ 31
    → (Earlier d i × (leb_ℤ (to_int i) d ≡ false)) ⊎ ((¬ Earlier d i) × (leb_ℤ (to_int i) d ≡ true))
later_test i (negsuc n) h = rw (to_int-small i h) (inl (tt, refl))
later_test i (pos d) h = rw (to_int-small i h) (elim (Bool-cases (leb i d)) [
  | inl e ↦ inr (λ lt. absurd (ground arith), e)
  | inr e ↦ inl (ground arith, e)
])

scan_cases :
    (i : ℕ) (b : Bool) (ts : List JudgeTask)
    → i + length ts ≤ 2 ^ 31
    → (AllEarlier i ts × (scan i b ts ≡ some (b || any (λ t. t.is_random) ts)))
      ⊎ ((¬ AllEarlier i ts) × (scan i b ts ≡ none))
unfolding scan
scan_cases i b [] h = inl (tt, ground arith)
scan_cases i b (t ∷ ts) h = elim (later_test i t.depends_on (omega arith)) [
  | inl (ok, e) ↦ elim (scan_cases (suc i) (if t.is_random then true else b) ts (omega arith)) [
    | inl (rest, e') ↦ inl ((ok, rest), ground arith)
    | inr (bad, e') ↦ inr (λ a. bad a.1, ground arith)
  ]
  | inr (bad, e) ↦ inr (λ a. bad a.0, rw e)
]

-- `verify` accepts a programming submission of at most 2^31 tasks exactly when every task depends on
-- an earlier one or on none, some task depends on none, the student's program is there, and the
-- standard program and the generator are there if a task is random.
pub verify_iff :
    (sub : ProgrammingSubmission)
    → length sub.judge_tasks ≤ 2 ^ 31
    → (verify (some sub) ≡ true) ↔ IsComplete sub
unfolding verify
verify_iff sub h = elim (scan_cases 0 false sub.judge_tasks (omega arith)) [
  | inl (ok, e) ↦
      rw (e, verify)
        (
          λ f. record {
            ordered = ok;
            has_submission = ground arith;
            has_generator = λ r. (ground arith, ground arith);
            has_entry = ground arith;
          },
          λ c. ground (arith, c.has_generator),
        )
  | inr (bad, e) ↦ rw (e, verify) (λ f. cc, λ c. absurd (bad c.ordered))
]

AllEarlier-get_elem? :
    (i : ℕ) (ts : List JudgeTask)
    → AllEarlier i ts
    → (j k : ℕ) (t : JudgeTask) → i + j ≡ k
    → get_elem? ts j ≡ some t
    → Earlier t.depends_on k
AllEarlier-get_elem? i [] a j k t at_ e = cc
AllEarlier-get_elem? i (x ∷ ts) (ok, rest) zero k t at_ e = ground arith
AllEarlier-get_elem? i (x ∷ ts) (ok, rest) (suc j) k t at_ e =
    AllEarlier-get_elem? (suc i) ts rest j k t (omega arith) e

-- An accepted submission of at most 2^31 tasks is a forest of tasks, in the sense of the scheduling
-- code.
pub IsComplete-IsForest :
    (sub : ProgrammingSubmission)
    → length sub.judge_tasks ≤ 2 ^ 31
    → IsComplete sub
    → IsForest sub.judge_tasks
IsComplete-IsForest sub h c = record {
  small = h;
  earlier = λ i t e. AllEarlier-get_elem? 0 sub.judge_tasks c.ordered i i t (omega arith) e;
}
