-- ===== src/Worker/Finish.antt =====
-- The end of a submission among the workers.
use judge_system.Base.{
  ℕ, ◌≡◌, refl, Bool-cases, true, false, none, some, List, [], ◌∷◌, ◌++◌, inl, inr, arith, ◌==◌,
  ==_iff, length, suc,
}
use mathlib.Core.Path.{subst}
use judge_system.Worker.{Workers, erase, contains, finish_submission}

-- No id stands twice.
abbrev pub Distinct : List ℕ → Type 0
Distinct [] = Unit
Distinct (k ∷ l) = (contains k l ≡ false) × Distinct l

contains-erase : (id : ℕ) (l : List ℕ) → Distinct l → contains id (erase id l) ≡ false
unfolding contains erase
contains-erase id [] d = refl
contains-erase id (k ∷ l) (fresh, d) = elim (Bool-cases (k == id)) [
  | inl e ↦ rw e (subst (λ x. contains x l ≡ false) ((==_iff k id).0 e) fresh)
  | inr e ↦ ground (arith, contains-erase id l d)
]

length-erase : (id : ℕ) (l : List ℕ) → contains id l ≡ true → suc (length (erase id l)) ≡ length l
unfolding contains erase
length-erase id [] h = cc
length-erase id (k ∷ l) h = ground (arith, length-erase id l)

-- When no id stands twice, `finish_submission` of a submission that is stored takes it out, once: it
-- leaves one submission fewer, and a second call for it throws.
finish_submission_once :
    (w : Workers) (id : ℕ)
    → Distinct w.submissions
    → contains id w.submissions ≡ true
    → (v : Workers) × (finish_submission w id ≡ some v)
      × (suc (length v.submissions) ≡ length w.submissions)
      × (finish_submission v id ≡ none)
unfolding finish_submission
finish_submission_once w id d h =
    let v : Workers = record w {
      finished_submissions = w.finished_submissions ++ id ∷ [];
      submissions = erase id w.submissions;
    } in
    (v, rw h refl, length-erase id w.submissions h, rw (contains-erase id w.submissions d) refl)
