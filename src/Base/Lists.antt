-- ===== src/Base/Lists.antt =====
-- Lists measured and indexed by native numbers, with membership and disjunction of options.
use Prim.Native.Nat.{ℕ, zero, suc, ◌+◌, ◌<◌}
use mathlib.Core.Path.{◌≡◌, refl, subst, ap}
use mathlib.Core.Bool.{Bool, true, false, ◌&&◌, ◌||◌}
use mathlib.Core.List.{List, [], ◌∷◌, ◌++◌}
use mathlib.Core.Option.{Option, none, some, some-injective}
use native.Mathlib.Omega.{arith}
use judge_system.Base.Bools.{ltb}

module _ {ℓ} {A : Type ℓ} where
  abbrev pub length : List A → ℕ
  length [] = 0
  length (x ∷ xs) = suc (length xs)

  abbrev pub get_elem? : List A → ℕ → Option A
  get_elem? [] i = none
  get_elem? (x ∷ xs) zero = some x
  get_elem? (x ∷ xs) (suc i) = get_elem? xs i

  -- A write out of bounds changes nothing.
  abbrev pub set : List A → ℕ → A → List A
  set [] i v = []
  set (x ∷ xs) zero v = v ∷ xs
  set (x ∷ xs) (suc i) v = x ∷ set xs i v

  abbrev pub any : (A → Bool) → List A → Bool
  any p [] = false
  any p (x ∷ xs) = p x || any p xs

  abbrev pub all : (A → Bool) → List A → Bool
  all p [] = true
  all p (x ∷ xs) = p x && all p xs

  abbrev pub All {κ} : (A → Type κ) → List A → Type κ
  All P [] = Unit
  All P (x ∷ xs) = P x × All P xs

  abbrev pub is_nil : List A → Bool
  is_nil [] = true
  is_nil (x ∷ xs) = false

  pub length-append : (xs ys : List A) → length (xs ++ ys) ≡ length xs + length ys
  length-append [] ys = omega arith
  length-append (x ∷ xs) ys = omega (arith, length-append xs ys)

  pub length-set : (xs : List A) (i : ℕ) (v : A) → length (set xs i v) ≡ length xs
  length-set [] i v = refl
  length-set (x ∷ xs) zero v = refl
  length-set (x ∷ xs) (suc i) v = omega (arith, length-set xs i v)

  pub get_elem?-of_lt : (xs : List A) (i : ℕ) → i < length xs → (a : A) × (get_elem? xs i ≡ some a)
  get_elem?-of_lt [] i h = elim h [ ]
  get_elem?-of_lt (x ∷ xs) zero h = (x, refl)
  get_elem?-of_lt (x ∷ xs) (suc i) h = get_elem?-of_lt xs i (omega arith)

  pub get_elem?→lt : (xs : List A) (i : ℕ) (a : A) → get_elem? xs i ≡ some a → i < length xs
  get_elem?→lt [] i a h = cc
  get_elem?→lt (x ∷ xs) zero a h = omega arith
  get_elem?→lt (x ∷ xs) (suc i) a h = omega (arith, get_elem?→lt xs i a h)

  -- [f 0, ..., f (n - 1)]
  abbrev pub tabulate : ℕ → (ℕ → A) → List A
  tabulate zero f = []
  tabulate (suc n) f = f 0 ∷ tabulate n (λ i. f (suc i))

  -- `P i` of the element that stands at `i` when the list starts at `start`.
  abbrev pub AllAt {κ} : (ℕ → A → Type κ) → ℕ → List A → Type κ
  AllAt P start [] = Unit
  AllAt P start (x ∷ xs) = P start x × AllAt P (suc start) xs

  pub AllAt-append {κ} :
      (P : ℕ → A → Type κ) (start : ℕ) (xs ys : List A)
      → AllAt P start xs
      → AllAt P (start + length xs) ys
      → AllAt P start (xs ++ ys)
  AllAt-append P start [] ys h k = subst (λ n. AllAt P n ys) (omega arith) k
  AllAt-append P start (x ∷ xs) ys (h, hs) k =
      (h, AllAt-append P (suc start) xs ys hs (subst (λ n. AllAt P n ys) (omega arith) k))

  pub AllAt-tabulate {κ} :
      (P : ℕ → A → Type κ) (start n : ℕ) (f : ℕ → A)
      → ((i : ℕ) → i < n → P (start + i) (f i))
      → AllAt P start (tabulate n f)
  AllAt-tabulate P start zero f h = tt
  AllAt-tabulate P start (suc n) f h = (
    subst (λ k. P k (f 0)) (omega arith) (h 0 (omega arith)),
    AllAt-tabulate P (suc start) n (λ i. f (suc i))
        (λ i lt. subst (λ k. P k (f (suc i))) (omega arith) (h (suc i) (omega arith))),
  )

  pub length-tabulate : (n : ℕ) (f : ℕ → A) → length (tabulate n f) ≡ n
  length-tabulate zero f = refl
  length-tabulate (suc n) f = ap suc (length-tabulate n (λ i. f (suc i)))

  pub AllAt-get_elem? {κ} :
      (P : ℕ → A → Type κ) (start : ℕ) (xs : List A)
      → AllAt P start xs
      → (i : ℕ) (a : A) → get_elem? xs i ≡ some a
      → P (start + i) a
  AllAt-get_elem? P start [] h i a e = cc
  AllAt-get_elem? P start (x ∷ xs) (h, hs) zero a e =
      subst (λ n. P n a) (omega arith) (subst (P start) (some-injective _ _ e) h)
  AllAt-get_elem? P start (x ∷ xs) (h, hs) (suc i) a e =
      subst (λ n. P n a) (omega arith) (AllAt-get_elem? P (suc start) xs hs i a e)

  pub All-tabulate {κ} :
      (P : A → Type κ) (n : ℕ) (f : ℕ → A) → ((i : ℕ) → i < n → P (f i)) → All P (tabulate n f)
  All-tabulate P zero f h = tt
  All-tabulate P (suc n) f h =
      (h 0 (omega arith), All-tabulate P n (λ i. f (suc i)) (λ i lt. h (suc i) (omega arith)))

  pub any-append : (p : A → Bool) (xs ys : List A) → any p (xs ++ ys) ≡ (any p xs || any p ys)
  any-append p [] ys = refl
  any-append p (x ∷ xs) ys = ground (arith, any-append p xs ys)

  pub any-tabulate :
      (p : A → Bool) (b : Bool) (n : ℕ) (f : ℕ → A)
      → ((i : ℕ) → p (f i) ≡ b)
      → any p (tabulate n f) ≡ (ltb 0 n && b)
  any-tabulate p b zero f h = refl
  any-tabulate p b (suc n) f h =
      ground (arith, h 0, any-tabulate p b n (λ i. f (suc i)) (λ i. h (suc i)))
