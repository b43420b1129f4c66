-- ===== src/IoUtils.antt =====
-- src/common/io_utils.cpp: `read_file_content`, `utf8_check_is_valid` and `assert_safe_path`. A string is
-- the list of its bytes, shorter than 2^31.
pub mod Utf8
pub mod SafePath
use judge_system.Base.{
  ℕ, zero, suc, ◌/◌, ◌%◌, ◌++◌, Bool, true, false, ◌&&◌, ◌||◌, Option, none, some, List, [], ◌∷◌, ℤ,
  pos, negsuc, length, if◌then◌else◌, ltb, leb, ◌==◌, min,
}
use mathlib.Core.List.{take}

abbrev pub Bytes : Type 0
Bytes = List ℕ

abbrev pub first : ℕ → Bytes → Bytes
first zero s = []
first (suc n) [] = []
first (suc n) (c ∷ s) = c ∷ first n s

-- "<...truncated>"
abbrev pub truncated : Bytes
truncated = 60 ∷ 46 ∷ 46 ∷ 46 ∷ 116 ∷ 114 ∷ 117 ∷ 110 ∷ 99 ∷ 97 ∷ 116 ∷ 101 ∷ 100 ∷ 62 ∷ []

-- From the file's bytes; `none` is a file that does not exist, for which the second overload has `def`.
unfoldable pub read_file_content : Option Bytes → Bytes → ℤ → Bytes
read_file_content none def max_bytes = def
read_file_content (some content) def max_bytes =
    let file_size = length content in
    let read_size : ℕ = elim max_bytes [
      | pos zero ↦ file_size
      | pos (suc n) ↦ min file_size (suc n)
      | negsuc n ↦ file_size
    ] in
    let result = first read_size content in
    if ltb read_size file_size then result ++ truncated else result

-- Does the string contain "../"?
unfoldable pub finds_parent : Bytes → Bool
finds_parent [] = false
finds_parent (a ∷ []) = false
finds_parent (a ∷ b ∷ []) = false
finds_parent (a ∷ b ∷ c ∷ s) =
    let later = finds_parent (b ∷ c ∷ s) in (a == 46 && b == 46 && c == 47) || later

-- `none` is the exception.
unfoldable pub assert_safe_path : Bytes → Option Bytes
unfolding finds_parent
assert_safe_path subpath = if finds_parent subpath then none else some subpath

-- (c & 0xC0) == 0x80
abbrev pub is_continuation : ℕ → Bool
is_continuation c = c / 64 == 2

-- i < ix - 1 && (string[i + 1] & 0xa0) == 0xa0
abbrev pub is_surrogate : Bytes → Bool
is_surrogate [] = false
is_surrogate (d ∷ s) = d / 128 == 1 && (d / 32) % 2 == 1

-- How many bytes follow the byte `c`, if it can start a character before `s`.
unfoldable pub followers : ℕ → Bytes → Option ℕ
followers c s =
    if leb c 127
    then some 0
    else if c / 32 == 6
    then some 1
    else if c == 237 && is_surrogate s
    then none
    else if c / 16 == 14
    then some 2
    else if c / 8 == 30
    then some 3
    else none

-- The two loops, with the number of bytes that the inner one has yet to see.
unfoldable pub utf8_loop : ℕ → Bytes → Bool
unfolding followers
utf8_loop zero [] = true
utf8_loop (suc n) [] = false
utf8_loop zero (c ∷ s) = elim (followers c s) [ none ↦ false | some n ↦ utf8_loop n s ]
utf8_loop (suc n) (c ∷ s) = if is_continuation c then utf8_loop n s else false

unfoldable pub utf8_check_is_valid : Bytes → Bool
unfolding utf8_loop
utf8_check_is_valid = utf8_loop zero
