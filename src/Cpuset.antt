-- ===== src/Cpuset.antt =====
-- `parse_cpuset` of src/main.cpp: a list of CPU numbers and ranges, as "0,2-3". A string is the list of
-- its bytes, and `none` is an exception. The mask that is kept beside the numbers is left out.
pub mod Covered
pub mod Refused
pub mod Written
use judge_system.Base.{
  ℕ, zero, suc, ◌+◌, ◌-◌, ◌*◌, ◌^◌, ◌==◌, Bool, true, false, not, ◌&&◌, ◌||◌, List, [], ◌∷◌, Option,
  none, some, leb, ltb, all, is_nil, if◌then◌else◌,
}

abbrev pub Bytes : Type 0
Bytes = List ℕ

abbrev pub is_digit : ℕ → Bool
is_digit c = leb 48 c && leb c 57

abbrev pub value_of : ℕ → Bytes → ℕ
value_of n [] = n
value_of n (c ∷ s) = value_of (10 * n + (c - 48)) s

-- [0-9]+ and lexical_cast<int>, which throws above 2^31 - 1.
unfoldable pub number_of : Bytes → Option ℕ
number_of s =
    if not (is_nil s) && all is_digit s
    then (if ltb (value_of 0 s) (2 ^ 31) then some (value_of 0 s) else none)
    else none

-- The parts before and after the first '-'.
abbrev pub at_dash : Bytes → Option (Bytes × Bytes)
at_dash [] = none
at_dash (c ∷ s) =
    let later = at_dash s in
    if c == 45 then some ([], s) else elim later [ none ↦ none | some (a, b) ↦ some (c ∷ a, b) ]

-- The first and the last number of a part between commas.
unfoldable pub range_of : Bytes → Option (ℕ × ℕ)
unfolding number_of
range_of token = elim (at_dash token) [
  | none ↦ elim (number_of token) [ none ↦ none | some n ↦ some (n, n) ]
  | some (a, b) ↦ elim (number_of a) [
    | none ↦ none
    | some first ↦ elim (number_of b) [
      | none ↦ none
      | some last ↦ if ltb last first then none else some (first, last)
    ]
  ]
]

abbrev prepend : ℕ → List Bytes → List Bytes
prepend c [] = (c ∷ []) ∷ []
prepend c (t ∷ ts) = (c ∷ t) ∷ ts

-- boost::split at the commas: there is always a part.
unfoldable pub split_commas : Bytes → List Bytes
split_commas [] = [] ∷ []
split_commas (c ∷ s) = let later = split_commas s in if c == 44 then [] ∷ later else prepend c later

unfoldable pub contains : ℕ → List ℕ → Bool
contains i [] = false
contains i (k ∷ ids) = k == i || contains i ids

-- ids.insert(i)
unfoldable pub insert_id : ℕ → List ℕ → List ℕ
unfolding contains
insert_id i ids = if contains i ids then ids else i ∷ ids

-- The loop over `n` numbers from `begin` on.
unfoldable pub insert_range : ℕ → ℕ → List ℕ → List ℕ
unfolding insert_id
insert_range begin zero ids = ids
insert_range begin (suc n) ids = insert_range (suc begin) n (insert_id begin ids)

-- The loop over the parts.
unfoldable pub add_tokens : List Bytes → List ℕ → Option (List ℕ)
unfolding range_of insert_range
add_tokens [] ids = some ids
add_tokens (token ∷ rest) ids =
    let next : List ℕ → Option (List ℕ) = add_tokens rest in
    elim (range_of token) [
      | none ↦ none
      | some (first, last) ↦ next (insert_range first (suc (last - first)) ids)
    ]

unfoldable pub parse_cpuset : Bytes → Option (List ℕ)
unfolding split_commas add_tokens
parse_cpuset s = add_tokens (split_commas s) []
