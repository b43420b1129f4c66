-- ===== src/Cpuset/Covered.antt =====
-- Which CPUs a set names.
use judge_system.Base.{
  ℕ, zero, suc, ◌+◌, ◌-◌, ◌==◌, ◌≤◌, ◌≡◌, refl, sym, ap, ◌∙◌, Bool, true, false, ◌&&◌, ◌||◌, List,
  [], ◌∷◌, Option, none, some, leb, ltb, any, Bool-cases, Option-cases, ==_iff, Ensures, thrown,
  given, Ensures-some, inl, inr, arith,
}
use mathlib.Core.Path.{subst}
use mathlib.Core.Option.{some-injective}
use judge_system.Programming.Verify.{is_null}
use judge_system.Cpuset.{
  Bytes, number_of, at_dash, range_of, split_commas, contains, insert_id, insert_range, add_tokens,
  parse_cpuset,
}

-- Is the number in the part's range?
abbrev pub covers : ℕ → Bytes → Bool
covers i token = elim (range_of token) [
  | none ↦ false
  | some (first, last) ↦ leb first i && leb i last
]

contains-insert_id :
    (i k : ℕ) (ids : List ℕ) → contains i (insert_id k ids) ≡ (k == i || contains i ids)
unfolding insert_id contains
contains-insert_id i k ids = elim (Bool-cases (contains k ids)) [
  | inr e ↦ rw (insert_id, e) refl
  | inl e ↦ elim (Bool-cases (k == i)) [
    | inr f ↦ rw (insert_id, e, f) refl
    | inl f ↦ rw (insert_id, e, f) (subst (λ k. contains k ids ≡ true) ((==_iff k i).0 f) e)
  ]
]

contains-insert_range :
    (i begin n : ℕ) (ids : List ℕ)
    → contains i (insert_range begin n ids) ≡ ((leb begin i && ltb i (begin + n)) || contains i ids)
unfolding insert_range
contains-insert_range i begin zero ids = ground arith
contains-insert_range i begin (suc n) ids =
    contains-insert_range i (suc begin) n (insert_id begin ids)
    ∙ ground (arith, contains-insert_id i begin ids)

-- A range is not empty.
abbrev IsOrdered : ℕ × ℕ → Type 0
IsOrdered (first, last) = first ≤ last

range_of-IsOrdered : (token : Bytes) → Ensures IsOrdered (range_of token)
unfolding range_of
range_of-IsOrdered token = elim (Option-cases (at_dash token)) [
  | inl e ↦ elim (Option-cases (number_of token)) [
    | inl f ↦ rw (range_of, e, f) thrown
    | inr (n, f) ↦ rw (range_of, e, f) (given (omega arith))
  ]
  | inr ((a, b), e) ↦ elim (Option-cases (number_of a)) [
    | inl f ↦ rw (range_of, e, f) thrown
    | inr (first, f) ↦ elim (Option-cases (number_of b)) [
      | inl g ↦ rw (range_of, e, f, g) thrown
      | inr (last, g) ↦ elim (Bool-cases (ltb last first)) [
        | inl h ↦ rw (range_of, e, f, g, h) thrown
        | inr h ↦ rw (range_of, e, f, g, h) (given (ground arith))
      ]
    ]
  ]
]

-- What the loop over the parts gives.
abbrev Added : List Bytes → List ℕ → Option (List ℕ) → Type 0
Added tokens ids result =
    (is_null result ≡ any (λ t. is_null (range_of t)) tokens)
    × ((out : List ℕ)
        → result ≡ some out
        → (i : ℕ) → contains i out ≡ (any (covers i) tokens || contains i ids))

add_tokens_lem : (tokens : List Bytes) (ids : List ℕ) → Added tokens ids (add_tokens tokens ids)
unfolding add_tokens
add_tokens_lem [] ids = (refl, λ out e i. ap (contains i) (sym (some-injective _ _ e)))
add_tokens_lem (token ∷ rest) ids = elim (Option-cases (range_of token)) [
  | inl e ↦ rw (add_tokens, e) (refl, λ out h. cc)
  | inr ((first, last), e) ↦
      let more = add_tokens_lem rest (insert_range first (suc (last - first)) ids) in
      let ordered : first ≤ last = Ensures-some IsOrdered _ (range_of-IsOrdered token) e in
      rw (add_tokens, e)
        (
          more.0,
          λ out h i.
              more.1 out h i
              ∙ ground (arith, ordered, contains-insert_range i first (suc (last - first)) ids),
        )
]

-- A CPU set is refused exactly if `range_of` refuses one of the parts between its commas; otherwise it
-- contains exactly the numbers in the ranges of its parts.
pub parse_cpuset_lem :
    (s : Bytes)
    → (is_null (parse_cpuset s) ≡ any (λ t. is_null (range_of t)) (split_commas s))
      × ((ids : List ℕ)
          → parse_cpuset s ≡ some ids
          → (i : ℕ) → contains i ids ≡ any (covers i) (split_commas s))
unfolding parse_cpuset contains
parse_cpuset_lem s =
    let all = add_tokens_lem (split_commas s) [] in
    (all.0, λ ids h i. all.1 ids h i ∙ or_false (any (covers i) (split_commas s)))
  where
    or_false : (b : Bool) → (b || false) ≡ b
    or_false true = refl
    or_false false = refl
