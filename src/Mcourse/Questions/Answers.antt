-- ===== src/Mcourse/Questions/Answers.antt =====
-- Which choice submissions `from_json_choice` reads, and which answers it gives to their questions.
use judge_system.Base.{
  ℕ, zero, suc, ◌^◌, ◌<◌, ◌≡◌, refl, ◌⊎◌, inl, inr, Bool, true, false, not, ◌&&◌, List, [], ◌∷◌,
  Option, none, some, ℤ, pos, negsuc, eq_ℤ, ltb, to_int-small, to_count, if◌then◌else◌, ◌==◌,
  length, Bool-cases, arith, ap, ◌∙◌, sym, ◌>>=◌,
}
use mathlib.Core.Path.{subst}
use mathlib.Core.Option.{some-injective}
use judge_system.Choice.{ChoiceQuestion}
use judge_system.Programming.Verify.{is_null}
use judge_system.Mcourse.Questions.{
  QuestionEntry, AnswerEntry, question_of, questions_of, set_answer, out_of_range, place_answers,
  from_json_choice,
}

-- The questions are numbered from `id` on.
abbrev pub numbered : ℕ → List QuestionEntry → Bool
numbered id [] = true
numbered id (q ∷ rest) = eq_ℤ q.id (pos id) && numbered (suc id) rest

abbrev pub names_question : ℕ → ℤ → Bool
names_question size (pos n) = ltb n size
names_question size (negsuc n) = false

-- Each answer names one of the first `size` questions.
abbrev pub addressed : ℕ → List AnswerEntry → Bool
addressed size [] = true
addressed size (a ∷ rest) = names_question size a.question_id && addressed size rest

-- The last answer to question `i`, or `before`.
abbrev pub last_answer : ℕ → List AnswerEntry → List ℤ → List ℤ
last_answer i [] before = before
last_answer i (a ∷ rest) before =
    last_answer i rest (if eq_ℤ a.question_id (pos i) then a.choice_id else before)

abbrev pub answer_at : List ChoiceQuestion → ℕ → List ℤ
answer_at [] i = []
answer_at (q ∷ rest) zero = q.student_answer
answer_at (q ∷ rest) (suc i) = answer_at rest i

length-set_answer :
    (qs : List ChoiceQuestion) (i : ℕ) (c : List ℤ) → length (set_answer qs i c) ≡ length qs
length-set_answer [] i c = refl
length-set_answer (q ∷ rest) zero c = refl
length-set_answer (q ∷ rest) (suc i) c = ap suc (length-set_answer rest i c)

answer_at-set_answer :
    (qs : List ChoiceQuestion) (j i : ℕ) (c : List ℤ)
    → i < length qs
    → answer_at (set_answer qs j c) i ≡ (if j == i then c else answer_at qs i)
answer_at-set_answer [] j i c h = absurd (omega arith)
answer_at-set_answer (q ∷ rest) zero zero c h = refl
answer_at-set_answer (q ∷ rest) zero (suc i) c h = ground arith
answer_at-set_answer (q ∷ rest) (suc j) zero c h = ground arith
answer_at-set_answer (q ∷ rest) (suc j) (suc i) c h =
    answer_at-set_answer rest j i c (omega arith)
    ∙ ap (λ b. if b then c else answer_at rest i) (ground arith)

unanswered :
    (q : QuestionEntry) (qs : List ChoiceQuestion)
    → ((i : ℕ) → answer_at qs i ≡ [])
    → (i : ℕ) → answer_at (question_of q ∷ qs) i ≡ []
unanswered q qs a zero = refl
unanswered q qs a (suc i) = a i

-- Of the questions: read exactly if they are numbered, without an answer yet.
questions_of_lem :
    (id : ℕ) (entries : List QuestionEntry)
    → ((numbered id entries ≡ false) × (questions_of id entries ≡ none))
      ⊎ ((numbered id entries ≡ true)
          × (qs : List ChoiceQuestion) × (questions_of id entries ≡ some qs)
          × (length qs ≡ length entries)
          × ((i : ℕ) → answer_at qs i ≡ []))
unfolding questions_of
questions_of_lem id [] = inr (refl, [], refl, refl, λ i. refl)
questions_of_lem id (q ∷ rest) = elim (Bool-cases (eq_ℤ q.id (pos id))) [
  | inr e ↦ inl (rw e refl, rw (questions_of, e) refl)
  | inl e ↦ elim (questions_of_lem (suc id) rest) [
    | inl (n, f) ↦ inl (rw (e, n) refl, rw (questions_of, e, f) refl)
    | inr (n, qs, f, l, a) ↦ inr (
      rw (e, n) refl,
      question_of q ∷ qs,
      rw (questions_of, e, f) refl,
      ap suc l,
      unanswered q qs a,
    )
  ]
]

in_range :
    (qid : ℤ) (size : ℕ) → size < 2 ^ 31 → names_question size qid ≡ not (out_of_range qid size)
in_range (pos n) size h = rw (to_int-small size h) (ground arith)
in_range (negsuc n) size h = refl

same_id :
    (qid : ℤ) (size i : ℕ) → out_of_range qid size ≡ false → (to_count qid == i) ≡ eq_ℤ qid (pos i)
same_id (pos n) size i h = refl
same_id (negsuc n) size i h = cc

-- What `place_answers` gives, and what was asked of it.
abbrev Placed : List ChoiceQuestion → List AnswerEntry → Option (List ChoiceQuestion) → Type 0
Placed qs answers result =
    ((addressed (length qs) answers ≡ false) × (result ≡ none))
    ⊎ ((addressed (length qs) answers ≡ true)
        × (out : List ChoiceQuestion) × (result ≡ some out)
        × (length out ≡ length qs)
        × ((i : ℕ) → i < length qs → answer_at out i ≡ last_answer i answers (answer_at qs i)))

-- Of the answers: placed exactly if each names a question, the last one over the others.
place_answers_lem :
    (qs : List ChoiceQuestion) (answers : List AnswerEntry)
    → length qs < 2 ^ 31
    → Placed qs answers (place_answers qs answers)
unfolding place_answers
place_answers_lem qs [] h = inr (refl, qs, refl, refl, λ i lt. refl)
place_answers_lem qs (a ∷ rest) h = elim (Bool-cases (out_of_range a.question_id (length qs))) [
  | inr e ↦ placed e (
      place_answers_lem (set_answer qs (to_count a.question_id) a.choice_id) rest
        (omega (arith, size)))
  | inl e ↦ inl (rw (in_range a.question_id (length qs) h, e) refl, rw (place_answers, e) refl)
]
  where
    next : List ChoiceQuestion
    next = set_answer qs (to_count a.question_id) a.choice_id

    size : length next ≡ length qs
    size = length-set_answer qs (to_count a.question_id) a.choice_id

    placed :
        out_of_range a.question_id (length qs) ≡ false
        → Placed next rest (place_answers next rest)
        → Placed qs (a ∷ rest) (place_answers qs (a ∷ rest))
    placed e (inl (n, f)) = inl (
      rw (in_range a.question_id (length qs) h ∙ ap not e)
          (subst (λ k. addressed k rest ≡ false) size n),
      rw (place_answers, e) f,
    )
    placed e (inr (n, out, f, l, g)) = inr (
      rw (in_range a.question_id (length qs) h ∙ ap not e)
          (subst (λ k. addressed k rest ≡ true) size n),
      out,
      rw (place_answers, e) f,
      l ∙ size,
      λ i lt.
          g i (omega (arith, size))
          ∙ ap (last_answer i rest) (
              answer_at-set_answer qs (to_count a.question_id) i a.choice_id lt
              ∙ ap (λ b. if b then a.choice_id else answer_at qs i)
                  (same_id a.question_id (length qs) i e)),
    )

-- A choice submission with less than 2^31 questions is read exactly if its questions are numbered from 0
-- on and every answer names one of them. Then it has all the questions, each with the last answer to it,
-- and without an answer if there is none.
pub from_json_choice_lem :
    (entries : List QuestionEntry) (answers : List AnswerEntry)
    → length entries < 2 ^ 31
    → (is_null (from_json_choice entries answers)
        ≡ not (numbered 0 entries && addressed (length entries) answers))
      × ((out : List ChoiceQuestion)
          → from_json_choice entries answers ≡ some out
          → (length out ≡ length entries)
            × ((i : ℕ) → i < length entries → answer_at out i ≡ last_answer i answers []))
unfolding from_json_choice ◌>>=◌
from_json_choice_lem entries answers h = elim (questions_of_lem 0 entries) [
  | inl (n, f) ↦ rw (from_json_choice, f, n) (refl, λ out e. cc)
  | inr (n, qs, f, l, a) ↦ elim (place_answers_lem qs answers (omega (arith, l))) [
    | inl (m, g) ↦ rw (from_json_choice, f, n, sym l, m, g) (refl, λ out e. cc)
    | inr (m, out, g, k, b) ↦
        rw (from_json_choice, f, n, sym l, m, g)
          (
            refl,
            λ o e.
                subst
                  (λ o.
                    (length o ≡ length qs)
                    × ((i : ℕ) → i < length qs → answer_at o i ≡ last_answer i answers []))
                  (some-injective _ _ e) (k, λ i lt. b i lt ∙ ap (last_answer i answers) (a i)),
          )
  ]
]
