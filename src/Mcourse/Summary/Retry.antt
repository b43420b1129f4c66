-- ===== src/Mcourse/Summary/Retry.antt =====
-- How often a report is uploaded.
use judge_system.Base.{
  ℕ, zero, suc, ◌≤◌, ◌≡◌, refl, Bool, false, ◌||◌, ℤ, any, length, to_count, Bool-cases, inl, inr,
  arith,
}
use judge_system.Mcourse.Summary.{Effect, uploaded, post_attempts, post_report_to_fs}

abbrev is_upload : Effect → Bool
is_upload (uploaded ok) = ok
is_upload _ = false

-- Does one of `n` attempts from attempt `i` on succeed?
abbrev one_succeeds : (ℕ → Bool) → ℕ → ℕ → Bool
one_succeeds upload i zero = false
one_succeeds upload i (suc n) = upload i || one_succeeds upload (suc i) n

post_attempts_lem :
    (upload : ℕ → Bool) (i n : ℕ)
    → (length (post_attempts upload i n) ≤ n)
      × (any is_upload (post_attempts upload i n) ≡ one_succeeds upload i n)
unfolding post_attempts
post_attempts_lem upload i zero = (omega arith, refl)
post_attempts_lem upload i (suc n) =
    let rest = post_attempts_lem upload (suc i) n in
    elim (Bool-cases (upload i)) [
      | inl e ↦ rw (post_attempts, e) (omega arith, refl)
      | inr e ↦ rw (post_attempts, e) (omega (arith, rest.0), rest.1)
    ]

-- A report is uploaded at most `post_retry_time` times, never if that is negative, and it arrives
-- exactly if one of so many attempts succeeds.
post_report_to_fs_lem :
    (upload : ℕ → Bool) (post_retry_time : ℤ)
    → (length (post_report_to_fs upload post_retry_time) ≤ to_count post_retry_time)
      × (any is_upload (post_report_to_fs upload post_retry_time)
          ≡ one_succeeds upload 0 (to_count post_retry_time))
unfolding post_report_to_fs
post_report_to_fs_lem upload post_retry_time = post_attempts_lem upload 0 (to_count post_retry_time)
