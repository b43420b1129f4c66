-- ===== src/Choice/Sets.antt =====
-- The bit masks of `judge_choice_question` stand for sets of choices.
use judge_system.Base.{
  ℕ, zero, suc, ◌<◌, ◌≡◌, refl, ◌↔◌, Bool, true, false, ◌&&◌, not, List, [], ◌∷◌, ℤ, pos, negsuc,
  eq_ℤ, any, all, All, if◌then◌else◌, ◌==◌, arith, Bool-cases, inl, inr, sym, ◌∙◌, ==_iff,
}
use judge_system.Choice.{
  Word, all_below, same_bit, word_eq, shifted, mask, ChoiceQuestion, judge_choice_question,
}

-- A choice that `1 << choice` has a meaning and a bit of its own for.
abbrev pub Small : ℤ → Type 0
Small (pos n) = n < 31
Small (negsuc n) = ⊥

abbrev pub has : List ℤ → ℤ → Bool
has cs c = any (eq_ℤ c) cs

abbrev pub subset : List ℤ → List ℤ → Bool
subset cs ds = all (has ds) cs

abbrev pub is_empty : List ℤ → Bool
is_empty [] = true
is_empty (c ∷ cs) = false

same_truth : (x y : Bool) → (x ≡ true → y ≡ true) → (y ≡ true → x ≡ true) → x ≡ y
same_truth true y h k = sym (h refl)
same_truth false true h k = k refl
same_truth false false h k = refl

below_true : (n : ℕ) (p : Word) → all_below n p ≡ true → (i : ℕ) → i < n → p i ≡ true
below_true zero p h i lt = elim lt [ ]
below_true (suc n) p h i lt = elim (Bool-cases (i == n)) [
  | inl e ↦ rw ((==_iff i n).0 e) (ground arith)
  | inr e ↦ below_true n p (ground arith) i (ground arith)
]

true_below : (n : ℕ) (p : Word) → ((i : ℕ) → i < n → p i ≡ true) → all_below n p ≡ true
true_below zero p h = refl
true_below (suc n) p h =
    ground (arith, h n (omega arith), true_below n p (λ i lt. h i (omega arith)))

same_bit_iff : (x y : Bool) → (same_bit x y ≡ true) ↔ (x ≡ y)
same_bit_iff true y = (λ h. sym h, λ h. sym h)
same_bit_iff false true = (λ h. cc, λ h. cc)
same_bit_iff false false = (λ h. refl, λ h. refl)

word_eq_iff : (a b : Word) → (word_eq a b ≡ true) ↔ ((i : ℕ) → i < 64 → a i ≡ b i)
unfolding word_eq
word_eq_iff a b = (
  λ h i lt. (same_bit_iff (a i) (b i)).0 (below_true 64 (λ k. same_bit (a k) (b k)) h i lt),
  λ h. true_below 64 (λ k. same_bit (a k) (b k)) (λ i lt. (same_bit_iff (a i) (b i)).1 (h i lt)),
)

subset-has :
    (cs ds : List ℤ)
    → All Small cs
    → subset cs ds ≡ true
    → (i : ℕ) → has cs (pos i) ≡ true
    → has ds (pos i) ≡ true
subset-has [] ds s h i e = cc
subset-has (pos n ∷ cs) ds (lt, s) h i e = elim (Bool-cases (i == n)) [
  | inl e' ↦ rw ((==_iff i n).0 e') (ground arith)
  | inr e' ↦ subset-has cs ds s (ground arith) i (ground arith)
]
subset-has (negsuc n ∷ cs) ds (lt, s) h i e = elim lt [ ]

has-subset :
    (cs ds : List ℤ)
    → All Small cs
    → ((i : ℕ) → i < 31 → has cs (pos i) ≡ true → has ds (pos i) ≡ true)
    → subset cs ds ≡ true
has-subset [] ds s h = refl
has-subset (pos n ∷ cs) ds (lt, s) h =
    ground (arith, h n lt (ground arith), has-subset cs ds s (λ i l e. h i l (ground arith)))
has-subset (negsuc n ∷ cs) ds (lt, s) h = elim lt [ ]

module _ (undefined : ℤ → Word) where
  mask-has : (cs : List ℤ) → All Small cs → (i : ℕ) → mask undefined cs i ≡ has cs (pos i)
  unfolding mask shifted
  mask-has [] s i = refl
  mask-has (pos n ∷ cs) (lt, s) i = ground (arith, mask-has cs s i)
  mask-has (negsuc n ∷ cs) (lt, s) i = elim lt [ ]

  module _ (cs ds : List ℤ) (s : All Small cs) (t : All Small ds) where
    word_eq-same : word_eq (mask undefined cs) (mask undefined ds) ≡ (subset cs ds && subset ds cs)
    word_eq-same =
        same_truth _ _
          (λ h.
            let agree : (i : ℕ) → i < 31 → has cs (pos i) ≡ has ds (pos i) = λ i lt.
              sym (mask-has cs s i) ∙ (word_eq_iff _ _).0 h i (omega arith) ∙ mask-has ds t i in
            let le : subset cs ds ≡ true = has-subset cs ds s (λ i lt e. sym (agree i lt) ∙ e) in
            let ge : subset ds cs ≡ true = has-subset ds cs t (λ i lt e. agree i lt ∙ e) in
            rw (le, ge) refl)
          (λ h. (word_eq_iff _ _).1 (λ i lt.
            mask-has cs s i
            ∙ same_truth _ _ (subset-has cs ds s (ground arith) i)
                (subset-has ds cs t (ground arith) i)
            ∙ sym (mask-has ds t i)))

    both :
        (i : ℕ) → (has cs (pos i) && has ds (pos i)) ≡ (mask undefined cs i && mask undefined ds i)
    both i = rw (mask-has cs s i, mask-has ds t i) refl

    word_eq-subset :
        word_eq (λ i. mask undefined cs i && mask undefined ds i) (mask undefined cs) ≡ subset cs ds
    word_eq-subset =
        same_truth _ _
          (λ h. has-subset cs ds s (λ i lt e.
            let agree : (has cs (pos i) && has ds (pos i)) ≡ has cs (pos i) =
              both i ∙ (word_eq_iff _ _).0 h i (omega arith) ∙ mask-has cs s i in
            ground arith))
          (λ h.
            (word_eq_iff _ _).1
              (λ i lt. sym (both i) ∙ kept _ _ (subset-has cs ds s h i) ∙ sym (mask-has cs s i)))
      where
        kept : (x y : Bool) → (x ≡ true → y ≡ true) → (x && y) ≡ x
        kept true y h = h refl
        kept false y h = refl

  word_eq-empty :
      (cs : List ℤ) → All Small cs → word_eq (mask undefined cs) (λ i. false) ≡ is_empty cs
  word_eq-empty [] s = (word_eq_iff _ _).1 (λ i lt. mask-has [] s i)
  word_eq-empty (negsuc n ∷ cs) (lt, s) = elim lt [ ]
  word_eq-empty (pos n ∷ cs) (lt, s) =
      same_truth _ _
        (λ h.
          let zero_bit : has (pos n ∷ cs) (pos n) ≡ false =
            sym (mask-has (pos n ∷ cs) (lt, s) n) ∙ (word_eq_iff _ _).0 h n (omega arith) in
          absurd (ground arith))
        (λ h. cc)

-- When the choices of a question, the student's and the standard ones, lie between 0 and 30, the question
-- gets the full grade if the two sets of choices agree, the half grade if the student's is not empty and
-- a part of the other one without being all of it, and 0 otherwise; the order of the choices and their
-- repetitions do not matter.
pub judge_choice_question_lem :
    (undefined : ℤ → Word) (q : ChoiceQuestion)
    → All Small q.student_answer
    → All Small q.standard_answer
    → judge_choice_question undefined q ≡ (
        if subset q.student_answer q.standard_answer && subset q.standard_answer q.student_answer
        then q.full_grade
        else if subset q.student_answer q.standard_answer && not (is_empty q.student_answer)
        then q.half_grade
        else 0)
unfolding judge_choice_question
judge_choice_question_lem undefined q s t =
    rw
      (
        word_eq-same undefined q.student_answer q.standard_answer s t,
        word_eq-subset undefined q.student_answer q.standard_answer s t,
        word_eq-empty undefined q.student_answer s,
      )
      refl
