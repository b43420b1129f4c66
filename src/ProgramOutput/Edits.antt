-- ===== src/ProgramOutput/Edits.antt =====
-- What an edit distance is: edit scripts, and the recursive distance, which is the cost of a cheapest one.
use judge_system.Base.{
  ℕ, suc, ◌+◌, ◌≤◌, ◌≡◌, min, [], ◌∷◌, length, if◌then◌else◌, ◌==◌, arith, ==_iff, ==_refl,
  Bool-cases, inl, inr, ◌⊎◌, sym,
}
use mathlib.Core.List.{reverse, reverse_aux}
use mathlib.Core.Path.{subst}
use judge_system.ProgramOutput.{Bytes}

-- `Edits s t n`: n insertions, deletions and replacements of a byte turn s into t.
pub data Edits : Bytes → Bytes → ℕ → Type 0 where
  nothing : Edits [] [] 0
  keep : (a : ℕ) {s t : Bytes} {n : ℕ} → Edits s t n → Edits (a ∷ s) (a ∷ t) n
  delete : (a : ℕ) {s t : Bytes} {n : ℕ} → Edits s t n → Edits (a ∷ s) t (suc n)
  insert : (b : ℕ) {s t : Bytes} {n : ℕ} → Edits s t n → Edits s (b ∷ t) (suc n)
  change : (a b : ℕ) {s t : Bytes} {n : ℕ} → Edits s t n → Edits (a ∷ s) (b ∷ t) (suc n)

unfoldable pub distance : Bytes → Bytes → ℕ
distance [] t = length t
distance (a ∷ s) [] = suc (distance s [])
distance (a ∷ s) (b ∷ t) =
    min (min (distance s (b ∷ t) + 1) (distance (a ∷ s) t + 1))
      (distance s t + (if a == b then 0 else 1))

deleted : (a : ℕ) (s t : Bytes) → distance (a ∷ s) t ≤ suc (distance s t)
unfolding distance
deleted a s [] = omega arith
deleted a s (b ∷ t) = omega arith

inserted : (b : ℕ) (s t : Bytes) → distance s (b ∷ t) ≤ suc (distance s t)
unfolding distance
inserted b [] t = omega arith
inserted b (a ∷ s) t = omega arith

-- No script is cheaper than the distance.
pub distance-minimal : {s t : Bytes} {n : ℕ} → Edits s t n → distance s t ≤ n
unfolding distance
distance-minimal nothing = omega arith
distance-minimal (keep a e) = rw (==_refl a) (omega (arith, distance-minimal e))
distance-minimal (delete a {s} {t} e) = omega (arith, deleted a s t, distance-minimal e)
distance-minimal (insert b {s} {t} e) = omega (arith, inserted b s t, distance-minimal e)
distance-minimal (change a b e) = ground (arith, distance-minimal e)

at_cost : {s t : Bytes} {n m : ℕ} → n ≡ m → Edits s t n → Edits s t m
at_cost {s} {t} h e = subst (Edits s t) h e

substituted :
    (a b : ℕ) {s t : Bytes} {n : ℕ}
    → Edits s t n
    → Edits (a ∷ s) (b ∷ t) (n + (if a == b then 0 else 1))
substituted a b {s} {t} {n} e = elim (Bool-cases (a == b)) [
  | inl h ↦
      at_cost (ground arith) (subst (λ c. Edits (a ∷ s) (c ∷ t) n) ((==_iff a b).0 h) (keep a e))
  | inr h ↦ at_cost (ground arith) (change a b e)
]

min_cases : (x y z : ℕ) → (min (min x y) z ≡ x) ⊎ ((min (min x y) z ≡ y) ⊎ (min (min x y) z ≡ z))
min_cases x y z = omega arith

-- The distance is the cost of a script.
pub distance-Edits : (s t : Bytes) → Edits s t (distance s t)
unfolding distance
distance-Edits [] [] = nothing
distance-Edits [] (b ∷ t) = insert b (distance-Edits [] t)
distance-Edits (a ∷ s) [] = delete a (distance-Edits s [])
distance-Edits (a ∷ s) (b ∷ t) =
    elim (min_cases (distance s (b ∷ t) + 1) (distance (a ∷ s) t + 1)
      (distance s t + (if a == b then 0 else 1))) [
        | inl h ↦ at_cost (omega (arith, h)) (delete a (distance-Edits s (b ∷ t)))
        | inr (inl h) ↦ at_cost (omega (arith, h)) (insert b (distance-Edits (a ∷ s) t))
        | inr (inr h) ↦ at_cost (sym h) (substituted a b (distance-Edits s t))
      ]

edits_reversed :
    {s s' t t' : Bytes} {n m : ℕ}
    → Edits s t n
    → Edits s' t' m
    → Edits (reverse_aux s s') (reverse_aux t t') (n + m)
edits_reversed nothing f = at_cost (omega arith) f
edits_reversed (keep a e) f = edits_reversed e (keep a f)
edits_reversed (delete a e) f = at_cost (omega arith) (edits_reversed e (delete a f))
edits_reversed (insert b e) f = at_cost (omega arith) (edits_reversed e (insert b f))
edits_reversed (change a b e) f = at_cost (omega arith) (edits_reversed e (change a b f))

-- A script for two strings is one for the strings read backwards.
pub reverse-Edits : {s t : Bytes} {n : ℕ} → Edits s t n → Edits (reverse s) (reverse t) n
reverse-Edits e = at_cost (omega arith) (edits_reversed e nothing)
