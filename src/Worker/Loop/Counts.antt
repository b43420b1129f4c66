-- ===== src/Worker/Loop/Counts.antt =====
-- How many workers are busy and how many judge, and what a change of one worker makes of that.
use judge_system.Base.{
  ℕ, zero, suc, ◌+◌, ◌≡◌, Bool, true, false, List, [], ◌∷◌, get_elem?, set, some, any, arith,
}
use judge_system.Worker.Loop.{Phase, found_nothing, judging, stopped}

-- A worker that will still look into the queue.
abbrev pub is_busy : Phase → Bool
is_busy found_nothing = false
is_busy stopped = false
is_busy _ = true

abbrev pub is_stopped : Phase → Bool
is_stopped stopped = true
is_stopped _ = false

abbrev pub is_judging : Phase → ℕ
is_judging (judging t) = 1
is_judging _ = 0

abbrev pub in_progress : List Phase → ℕ
in_progress [] = 0
in_progress (p ∷ ps) = is_judging p + in_progress ps

pub any-set {ℓ} :
    {A : Type ℓ} (p : A → Bool) (xs : List A) (i : ℕ) (old new : A)
    → get_elem? xs i ≡ some old
    → p new ≡ true
    → any p (set xs i new) ≡ true
any-set p [] i old new e h = cc
any-set p (x ∷ xs) zero old new e h = ground (arith, h)
any-set p (x ∷ xs) (suc i) old new e h = ground (arith, any-set p xs i old new e h)

pub any-get_elem? {ℓ} :
    {A : Type ℓ} (p : A → Bool) (xs : List A) (i : ℕ) (x : A)
    → get_elem? xs i ≡ some x
    → p x ≡ true
    → any p xs ≡ true
any-get_elem? p [] i x e h = cc
any-get_elem? p (y ∷ xs) zero x e h = ground (arith, h)
any-get_elem? p (y ∷ xs) (suc i) x e h = ground (arith, any-get_elem? p xs i x e h)

-- A worker that was not busy leaves the others as they are.
pub any-set_idle :
    (xs : List Phase) (i : ℕ) (old new : Phase)
    → get_elem? xs i ≡ some old
    → is_busy old ≡ false
    → any is_busy xs ≡ true
    → any is_busy (set xs i new) ≡ true
any-set_idle [] i old new e h b = cc
any-set_idle (x ∷ xs) zero old new e h b = ground (arith, h)
any-set_idle (x ∷ xs) (suc i) old new e h b = ground (arith, any-set_idle xs i old new e h)

pub in_progress-set :
    (xs : List Phase) (i : ℕ) (old new : Phase)
    → get_elem? xs i ≡ some old
    → in_progress (set xs i new) + is_judging old ≡ in_progress xs + is_judging new
in_progress-set [] i old new e = cc
in_progress-set (x ∷ xs) zero old new e = ground arith
in_progress-set (x ∷ xs) (suc i) old new e = ground (arith, in_progress-set xs i old new e)
