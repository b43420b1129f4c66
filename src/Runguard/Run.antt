-- ===== src/Runguard/Run.antt =====
-- Code that makes calls of the system: `none` is an exception. `K` says how the system answers, and the
-- list has what has happened so far.
use judge_system.Base.{Bool, List, Option, none, some, if◌then◌else◌}

abbrev pub M : Type 0 → Type 0 → Type 0 → Type 0
M K T A = K → List T → Option A × List T

abbrev pub after : {K T A B : Type 0} → Option A × List T → (A → M K T B) → K → Option B × List T
after (none, t) f k = (none, t)
after (some a, t) f k = f a k t

infixl 5 ◌>>=◌ ◌>>◌
unfoldable pub ◌>>=◌ : {K T A B : Type 0} → M K T A → (A → M K T B) → M K T B
◌>>=◌ m f k t = after (m k t) f k

unfoldable pub ◌>>◌ : {K T B : Type 0} → M K T (Unit {0}) → M K T B → M K T B
unfolding ◌>>=◌
◌>>◌ m n = m >>= λ _. n

unfoldable pub done : {K T : Type 0} → M K T (Unit {0})
done k t = (some tt, t)

unfoldable pub throw : {K T A : Type 0} → M K T A
throw k t = (none, t)

unfoldable pub ask : {K T A : Type 0} → (K → List T → A) → M K T A
ask f k t = (some (f k t), t)

unfoldable pub when : {K T : Type 0} → Bool → M K T (Unit {0}) → M K T (Unit {0})
unfolding done
when b m = if b then m else done
