-- ===== src/Cpuset/Written.antt =====
-- CPU sets as they are written: numbers and ranges between commas.
use judge_system.Base.{
  ℕ, ◌==◌, ◌≡◌, refl, ap, ◌∙◌, Bool, true, false, not, ◌&&◌, ◌||◌, List, [], ◌∷◌, ◌++◌, map, Option,
  none, some, leb, ltb, any, any-append, all, All, is_nil, if◌then◌else◌, Bool-cases, inl, inr, ◌^◌,
  arith,
}
use judge_system.Programming.Verify.{is_null}
use judge_system.Cpuset.{
  Bytes, is_digit, value_of, number_of, at_dash, range_of, split_commas, contains, parse_cpuset,
}
use judge_system.Cpuset.Covered.{covers, parse_cpuset_lem}
use judge_system.Cpuset.Refused.{is_foreign, parse_cpuset-refuses}

-- A decimal number as it is written, with at least one digit.
abbrev pub IsNumber : Bytes → Type 0
IsNumber s = (is_nil s ≡ false) × (all (λ c. leb 48 c && leb c 57) s ≡ true)

-- A number, or a range up to a second one.
abbrev pub Part : Type 0
Part = Bytes × Option Bytes

abbrev pub IsPart : Part → Type 0
IsPart (a, none) = IsNumber a
IsPart (a, some b) = IsNumber a × IsNumber b

abbrev pub print_part : Part → Bytes
print_part (a, none) = a
print_part (a, some b) = a ++ 45 ∷ b

-- The parts with commas between them.
abbrev pub print : Part → List Part → Bytes
print p [] = print_part p
print p (q ∷ rest) = print_part p ++ 44 ∷ print q rest

abbrev pub fits : Bytes → Bool
fits s = ltb (value_of 0 s) (2 ^ 31)

-- The numbers fit into an int, and a range does not end below its start.
abbrev pub is_valid : Part → Bool
is_valid (a, none) = fits a
is_valid (a, some b) = (fits a && fits b) && leb (value_of 0 a) (value_of 0 b)

-- The number is the one that is written, or in the range.
abbrev pub names : ℕ → Part → Bool
names i (a, none) = value_of 0 a == i
names i (a, some b) = leb (value_of 0 a) i && leb i (value_of 0 b)

flat : (s : Bytes) (k : ℕ) → ltb k 48 ≡ true → all is_digit s ≡ true → any (λ c. c == k) s ≡ false
flat [] k h d = refl
flat (c ∷ s) k h d = ground (arith, flat s k h (ground (arith, d)))

number_lem : (s : Bytes) → IsNumber s → number_of s ≡ (if fits s then some (value_of 0 s) else none)
unfolding number_of
number_lem s (h, d) = rw (number_of, h, d) refl

no_dash : (s : Bytes) → all is_digit s ≡ true → at_dash s ≡ none
no_dash [] d = refl
no_dash (c ∷ s) d =
    let other : (c == 45) ≡ false = ground (arith, d) in
    rw (other, no_dash s (ground (arith, d))) refl

one_dash : (a b : Bytes) → all is_digit a ≡ true → at_dash (a ++ 45 ∷ b) ≡ some (a, b)
one_dash [] b d = refl
one_dash (c ∷ a) b d =
    let other : (c == 45) ≡ false = ground (arith, d) in
    rw (other, one_dash a b (ground (arith, d))) refl

-- The range of a valid part.
abbrev bounds : Part → ℕ × ℕ
bounds (a, none) = (value_of 0 a, value_of 0 a)
bounds (a, some b) = (value_of 0 a, value_of 0 b)

range_lem :
    (p : Part) → IsPart p → range_of (print_part p) ≡ (if is_valid p then some (bounds p) else none)
unfolding range_of
range_lem (a, none) h = elim (Bool-cases (fits a)) [
  | inl e ↦ rw (range_of, no_dash a h.1, number_lem a h, e) refl
  | inr e ↦ rw (range_of, no_dash a h.1, number_lem a h, e) refl
]
range_lem (a, some b) (h, g) = elim (Bool-cases (fits a)) [
  | inr e ↦ rw (range_of, one_dash a b h.1, number_lem a h, e) refl
  | inl e ↦ elim (Bool-cases (fits b)) [
    | inr f ↦ rw (range_of, one_dash a b h.1, number_lem a h, e, number_lem b g, f) refl
    | inl f ↦
        rw (range_of, one_dash a b h.1, number_lem a h, e, number_lem b g, f)
          (swapped (value_of 0 a) (value_of 0 b))
  ]
]
  where
    swapped :
        (m n : ℕ)
        → if◌then◌else◌ {A = Option (ℕ × ℕ)} (ltb n m) none (some (m, n))
          ≡ if◌then◌else◌ {A = Option (ℕ × ℕ)} (leb m n) (some (m, n)) none
    swapped m n = elim (Bool-cases (ltb n m)) [
      | inl l ↦ let k : leb m n ≡ false = ground (arith, l) in rw (l, k) refl
      | inr l ↦ let k : leb m n ≡ true = ground (arith, l) in rw (l, k) refl
    ]

-- What a part comes to.
Comes : Part → Type 0
Comes p =
    (is_null (range_of (print_part p)) ≡ not (is_valid p))
    × ((i : ℕ) → covers i (print_part p) ≡ (is_valid p && names i p))

part_lem : (p : Part) → IsPart p → Comes p
unfolding Comes
part_lem p h = (
  ap is_null (range_lem p h) ∙ null (is_valid p) (bounds p),
  λ i.
      ap (inside i) (range_lem p h)
      ∙ held i (is_valid p) (bounds p)
      ∙ ap (λ b. is_valid p && b) (same i p),
)
  where
    inside : ℕ → Option (ℕ × ℕ) → Bool
    inside i none = false
    inside i (some (first, last)) = leb first i && leb i last

    null : (b : Bool) (r : ℕ × ℕ) → is_null (if b then some r else none) ≡ not b
    null true r = refl
    null false r = refl

    held :
        (i : ℕ) (b : Bool) (r : ℕ × ℕ)
        → inside i (if b then some r else none) ≡ (b && (leb r.0 i && leb i r.1))
    held i true r = refl
    held i false r = refl

    same : (i : ℕ) (q : Part) → (leb (bounds q).0 i && leb i (bounds q).1) ≡ names i q
    same i (a, none) = ground arith
    same i (a, some b) = refl

comma_free : (p : Part) → IsPart p → any (λ c. c == 44) (print_part p) ≡ false
comma_free (a, none) h = flat a 44 refl h.1
comma_free (a, some b) (h, g) =
    any-append (λ c. c == 44) a (45 ∷ b) ∙ ground (arith, flat a 44 refl h.1, flat b 44 refl g.1)

split_last : (t : Bytes) → any (λ c. c == 44) t ≡ false → split_commas t ≡ t ∷ []
unfolding split_commas
split_last [] h = refl
split_last (c ∷ t) h =
    let other : (c == 44) ≡ false = ground (arith, h) in
    rw (split_commas, other, split_last t (ground (arith, h))) refl

split_comma :
    (t s : Bytes) → any (λ c. c == 44) t ≡ false → split_commas (t ++ 44 ∷ s) ≡ t ∷ split_commas s
unfolding split_commas
split_comma [] s h = refl
split_comma (c ∷ t) s h =
    let other : (c == 44) ≡ false = ground (arith, h) in
    rw (split_commas, other, split_comma t s (ground (arith, h))) refl

split_print :
    (p : Part) (ps : List Part)
    → All IsPart (p ∷ ps)
    → split_commas (print p ps) ≡ map print_part (p ∷ ps)
split_print p [] (h, hs) = split_last (print_part p) (comma_free p h)
split_print p (q ∷ rest) (h, hs) =
    split_comma (print_part p) (print q rest) (comma_free p h)
    ∙ ap (λ l. print_part p ∷ l) (split_print q rest hs)

any_parts :
    (ps : List Part)
    → All IsPart ps
    → (any (λ t. is_null (range_of t)) (map print_part ps) ≡ any (λ p. not (is_valid p)) ps)
      × ((i : ℕ) → any (covers i) (map print_part ps) ≡ any (λ p. is_valid p && names i p) ps)
unfolding Comes
any_parts [] h = (refl, λ i. refl)
any_parts (p ∷ ps) (h, hs) =
    let one = part_lem p h in
    let more = any_parts ps hs in (λ j. one.0 j || more.0 j, λ i j. one.1 i j || more.1 i j)

-- A CPU set that is written as decimal numbers and ranges of them, with commas between, is refused
-- exactly if a number is above 2^31 - 1 or a range ends below its start; otherwise `parse_cpuset` gives
-- exactly the numbers that are written and those in the ranges, their ends included. No text with a
-- byte that is no digit, no dash and no comma is taken.
pub parse_cpuset-print :
    (p : Part) (ps : List Part) (s : Bytes)
    → All IsPart (p ∷ ps)
    → (is_null (parse_cpuset (print p ps)) ≡ any (λ q. not (is_valid q)) (p ∷ ps))
      × ((ids : List ℕ)
          → parse_cpuset (print p ps) ≡ some ids
          → (i : ℕ) → contains i ids ≡ any (λ q. is_valid q && names i q) (p ∷ ps))
      × ((any is_foreign s && not (is_null (parse_cpuset s))) ≡ false)
parse_cpuset-print p ps s h =
    let (refused, given) = parse_cpuset_lem (print p ps) in
    let all = any_parts (p ∷ ps) h in
    (
      refused ∙ ap (any (λ t. is_null (range_of t))) (split_print p ps h) ∙ all.0,
      λ ids e i. given ids e i ∙ ap (any (covers i)) (split_print p ps h) ∙ all.1 i,
      elim (Bool-cases (any is_foreign s)) [
        | inl e ↦ ground (arith, e, parse_cpuset-refuses s e)
        | inr e ↦ ground (arith, e)
      ],
    )
