-- ===== src/Tests/Cpuset.antt =====
-- The CPU sets "0,2-3" and "3-2".
use judge_system.Base.{ℕ, some, none, ◌≡◌, refl, false, not, List, [], ◌∷◌, any, ◌&&◌}
use judge_system.Programming.Verify.{is_null}
use judge_system.Cpuset.{
  number_of, range_of, split_commas, add_tokens, insert_range, insert_id, contains, parse_cpuset,
}
use judge_system.Cpuset.Refused.{is_foreign}
use judge_system.Cpuset.Written.{Part, print, is_valid, names, parse_cpuset-print}

abbrev zero_part : Part
zero_part = (48 ∷ [], none)

abbrev two_three : Part
two_three = (50 ∷ [], some (51 ∷ []))

parse_cpuset-print_example :
    (is_null (parse_cpuset (print zero_part (two_three ∷ []))) ≡ false)
    × ((ids : List ℕ)
        → parse_cpuset (print zero_part (two_three ∷ [])) ≡ some ids
        → (i : ℕ)
        → contains i ids ≡ any (λ q. is_valid q && names i q) (zero_part ∷ two_three ∷ []))
    × ((any is_foreign (49 ∷ 58 ∷ []) && not (is_null (parse_cpuset (49 ∷ 58 ∷ [])))) ≡ false)
parse_cpuset-print_example =
    parse_cpuset-print zero_part (two_three ∷ []) (49 ∷ 58 ∷ [])
      ((refl, refl), (((refl, refl), (refl, refl)), tt))

three_numbers : parse_cpuset (print zero_part (two_three ∷ [])) ≡ some (3 ∷ 2 ∷ 0 ∷ [])
unfolding parse_cpuset split_commas add_tokens range_of number_of insert_range insert_id contains
three_numbers = refl

backwards : parse_cpuset (51 ∷ 45 ∷ 50 ∷ []) ≡ none
unfolding parse_cpuset split_commas add_tokens range_of number_of
backwards = refl

-- "1:" and "0;1".
no_digits : parse_cpuset (49 ∷ 58 ∷ []) ≡ none
unfolding parse_cpuset split_commas add_tokens range_of number_of
no_digits = refl

no_comma : parse_cpuset (48 ∷ 59 ∷ 49 ∷ []) ≡ none
unfolding parse_cpuset split_commas add_tokens range_of number_of
no_comma = refl
