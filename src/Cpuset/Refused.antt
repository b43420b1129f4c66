-- ===== src/Cpuset/Refused.antt =====
-- CPU sets with a byte that is no digit, no dash and no comma.
use judge_system.Base.{
  ℕ, ◌==◌, ◌≡◌, refl, sym, ap, ◌∙◌, Bool, true, false, not, ◌&&◌, ◌||◌, List, [], ◌∷◌, ◌++◌, Option,
  none, some, leb, any, any-append, all, is_nil, Bool-cases, Option-cases, inl, inr, arith,
}
use judge_system.Programming.Verify.{is_null}
use judge_system.Cpuset.{
  Bytes, is_digit, number_of, at_dash, range_of, split_commas, prepend, parse_cpuset,
}
use judge_system.Cpuset.Covered.{parse_cpuset_lem}

abbrev pub is_foreign : ℕ → Bool
is_foreign c = not ((leb 48 c && leb c 57) || (c == 45 || c == 44))

foreign_number : (s : Bytes) → any is_foreign s ≡ true → is_null (number_of s) ≡ true
unfolding number_of
foreign_number s h =
    let bad : (not (is_nil s) && all is_digit s) ≡ false = both (is_nil s) (no_digits s h) in
    rw (number_of, bad) refl
  where
    no_digits : (t : Bytes) → any is_foreign t ≡ true → all is_digit t ≡ false
    no_digits [] g = cc
    no_digits (c ∷ t) g = elim (Bool-cases (any is_foreign t)) [
      | inl more ↦ ground (arith, no_digits t more)
      | inr fine ↦ ground (arith, g, fine)
    ]

    both : (b : Bool) {d : Bool} → d ≡ false → (not b && d) ≡ false
    both true e = refl
    both false e = e

-- Where the dash is.
dash_lem : (s a b : Bytes) → at_dash s ≡ some (a, b) → s ≡ (a ++ 45 ∷ b)
dash_lem [] a b e = cc
dash_lem (c ∷ s) a b e = elim (Bool-cases (c == 45)) [
  | inl t ↦ let k : c ≡ 45 = ground (arith, t) in ap (λ n. n ∷ s) k ∙ ap joined (sym (here t) ∙ e)
  | inr t ↦ elim (Option-cases (at_dash s)) [
    | inl n ↦ absurd (ground (arith, sym (ap is_null (there t n)) ∙ ap is_null e))
    | inr ((front, back), n) ↦
        ap (λ l. c ∷ l) (dash_lem s front back n) ∙ ap joined (sym (beyond front back t n) ∙ e)
  ]
]
  where
    joined : Option (Bytes × Bytes) → Bytes
    joined none = []
    joined (some (front, back)) = front ++ 45 ∷ back

    here : (c == 45) ≡ true → at_dash (c ∷ s) ≡ some ([], s)
    here t = rw (t) refl

    there : (c == 45) ≡ false → at_dash s ≡ none → at_dash (c ∷ s) ≡ none
    there t n = rw (t, n) refl

    beyond :
        (front back : Bytes)
        → (c == 45) ≡ false
        → at_dash s ≡ some (front, back)
        → at_dash (c ∷ s) ≡ some (c ∷ front, back)
    beyond front back t n = rw (t, n) refl

foreign_part : (t : Bytes) → any is_foreign t ≡ true → is_null (range_of t) ≡ true
unfolding range_of
foreign_part t h = elim (Option-cases (at_dash t)) [
  | inl e ↦ elim (Option-cases (number_of t)) [
    | inl f ↦ rw (range_of, e, f) refl
    | inr (n, f) ↦ absurd (ground (arith, sym (foreign_number t h) ∙ ap is_null f))
  ]
  | inr ((a, b), e) ↦
      let parted : (any is_foreign a || any is_foreign b) ≡ true =
        sym (any-append is_foreign a (45 ∷ b)) ∙ ap (any is_foreign) (sym (dash_lem t a b e)) ∙ h in
      elim (Option-cases (number_of a)) [
        | inl f ↦ rw (range_of, e, f) refl
        | inr (first, f) ↦ elim (Option-cases (number_of b)) [
          | inl g ↦ rw (range_of, e, f, g) refl
          | inr (last, g) ↦ elim (Bool-cases (any is_foreign a)) [
            | inl in_a ↦ absurd (ground (arith, sym (foreign_number a in_a) ∙ ap is_null f))
            | inr fine ↦ absurd (
                ground
                  (arith, sym (foreign_number b (ground (arith, parted, fine))) ∙ ap is_null g))
          ]
        ]
      ]
]

any-prepend :
    (c : ℕ) (ts : List Bytes)
    → any (any is_foreign) (prepend c ts) ≡ (is_foreign c || any (any is_foreign) ts)
any-prepend c [] = ground arith
any-prepend c (t ∷ ts) = ground arith

any-split_commas : (s : Bytes) → any (any is_foreign) (split_commas s) ≡ any is_foreign s
unfolding split_commas
any-split_commas [] = refl
any-split_commas (c ∷ s) = elim (Bool-cases (c == 44)) [
  | inl e ↦ ap (any (any is_foreign)) (here e) ∙ ground (arith, e, any-split_commas s)
  | inr e ↦
      ap (any (any is_foreign)) (there e)
      ∙ any-prepend c (split_commas s)
      ∙ ap (λ b. is_foreign c || b) (any-split_commas s)
]
  where
    here : (c == 44) ≡ true → split_commas (c ∷ s) ≡ [] ∷ split_commas s
    here e = rw (split_commas, e) refl

    there : (c == 44) ≡ false → split_commas (c ∷ s) ≡ prepend c (split_commas s)
    there e = rw (split_commas, e) refl

some_refused :
    (ts : List Bytes) → any (any is_foreign) ts ≡ true → any (λ t. is_null (range_of t)) ts ≡ true
some_refused [] h = cc
some_refused (t ∷ ts) h = elim (Bool-cases (any is_foreign t)) [
  | inl e ↦ ground (arith, foreign_part t e)
  | inr e ↦ ground (arith, some_refused ts (ground (arith, h, e)))
]

-- A CPU set with such a byte is refused.
pub parse_cpuset-refuses : (s : Bytes) → any is_foreign s ≡ true → is_null (parse_cpuset s) ≡ true
parse_cpuset-refuses s h =
    (parse_cpuset_lem s).0 ∙ some_refused (split_commas s) (any-split_commas s ∙ h)
