-- ===== src/Tests/IoUtils.antt =====
-- Strings that the helpers of src/common/io_utils.cpp accept and refuse.
use judge_system.Base.{◌≡◌, ◌↔◌, refl, true, false, some, [], ◌∷◌}
use judge_system.IoUtils.{
  Bytes, utf8_check_is_valid, utf8_loop, followers, assert_safe_path, finds_parent,
}
use judge_system.IoUtils.Utf8.{Characters, utf8_check_is_valid_iff}

-- A character of three bytes.
abbrev zhong : Bytes
zhong = 228 ∷ 184 ∷ 173 ∷ []

zhong_valid : utf8_check_is_valid zhong ≡ true
unfolding utf8_check_is_valid utf8_loop followers
zhong_valid = refl

surrogate_refused : utf8_check_is_valid (237 ∷ 160 ∷ 128 ∷ []) ≡ false
unfolding utf8_check_is_valid utf8_loop followers
surrogate_refused = refl

-- The encoding of 0 in two bytes.
overlong_accepted : utf8_check_is_valid (192 ∷ 128 ∷ []) ≡ true
unfolding utf8_check_is_valid utf8_loop followers
overlong_accepted = refl

utf8_check_is_valid_iff_example : (utf8_check_is_valid zhong ≡ true) ↔ Characters 0 zhong
utf8_check_is_valid_iff_example = utf8_check_is_valid_iff zhong

abbrev up : Bytes
up = 97 ∷ 47 ∷ 46 ∷ 46 ∷ 47 ∷ 98 ∷ []

-- The path ".." alone is let through.
parent_accepted : assert_safe_path (46 ∷ 46 ∷ []) ≡ some (46 ∷ 46 ∷ [])
unfolding assert_safe_path finds_parent
parent_accepted = refl
