-- ===== src/ProgramOutput/Distance.antt =====
-- `calc_edit_distance` computes the edit distance.
use judge_system.Base.{
  ℕ, suc, ◌≤◌, ◌≡◌, refl, List, [], ◌∷◌, length, ltb, arith, sym, ◌∙◌, ap, false,
}
use mathlib.Core.List.{reverse, reverse_aux, reverse-reverse}
use judge_system.ProgramOutput.{Bytes, next_entries, first_row, last_row, last, calc_edit_distance}
use judge_system.ProgramOutput.Edits.{
  Edits, distance, distance-minimal, distance-Edits, reverse-Edits,
}

-- The row of the table for the beginning `reverse p` of the first string, from the column of `reverse q` on.
unfoldable row : Bytes → Bytes → Bytes → List ℕ
row p q [] = distance p q ∷ []
row p q (b ∷ s) = distance p q ∷ row p (b ∷ q) s

first_row_lem : (q s : Bytes) (i : ℕ) → i ≡ length q → first_row i s ≡ row [] q s
unfolding first_row row distance
first_row_lem q [] i h = ap (λ x. x ∷ []) h
first_row_lem q (b ∷ s) i h = rw (h, first_row_lem (b ∷ q) s (suc (length q)) refl) refl

next_entries_lem :
    (a : ℕ) (p q s : Bytes)
    → distance (a ∷ p) q ∷ next_entries a s (distance (a ∷ p) q) (row p q s) ≡ row (a ∷ p) q s
unfolding next_entries row distance
next_entries_lem a p q [] = refl
next_entries_lem a p q (b ∷ []) = refl
next_entries_lem a p q (b ∷ c ∷ s) =
    ap (λ x. distance (a ∷ p) q ∷ x) (next_entries_lem a p (b ∷ q) (c ∷ s))

distance-empty : (p : Bytes) → distance p [] ≡ length p
unfolding distance
distance-empty [] = refl
distance-empty (a ∷ p) = ap suc (distance-empty p)

last_row_lem :
    (p s1 s2 : Bytes) (i : ℕ)
    → i ≡ length p
    → last_row i s1 s2 (row p [] s2) ≡ row (reverse_aux s1 p) [] s2
unfolding last_row
last_row_lem p [] s2 i h = refl
last_row_lem p (a ∷ s1) s2 i h =
    rw (← h', next_entries_lem a p [] s2)
      (last_row_lem (a ∷ p) s1 s2 (distance (a ∷ p) []) (distance-empty (a ∷ p)))
  where
    h' : distance (a ∷ p) [] ≡ suc i
    h' = distance-empty (a ∷ p) ∙ ap suc (sym h)

last-row : (p q s : Bytes) (d : ℕ) → last d (row p q s) ≡ distance p (reverse_aux s q)
unfolding row
last-row p q [] d = refl
last-row p q (b ∷ s) d = last-row p (b ∷ q) s _

table :
    (s1 s2 : Bytes)
    → length s1 ≤ 5000
    → length s2 ≤ 5000
    → calc_edit_distance s1 s2 ≡ distance (reverse s1) (reverse s2)
unfolding calc_edit_distance
table s1 s2 h1 h2 =
    rw (short1, short2, first_row_lem [] s2 0 refl, last_row_lem [] s1 s2 0 refl)
      (last-row (reverse s1) [] s2 0)
  where
    short1 : ltb 5000 (length s1) ≡ false
    short1 = ground arith

    short2 : ltb 5000 (length s2) ≡ false
    short2 = ground arith

-- For strings of at most 5000 bytes, `calc_edit_distance` is the cost of an edit script between them,
-- and no script between them costs less.
pub calc_edit_distance_lem :
    (s1 s2 : Bytes)
    → length s1 ≤ 5000
    → length s2 ≤ 5000
    → Edits s1 s2 (calc_edit_distance s1 s2)
      × ((n : ℕ) → Edits s1 s2 n → calc_edit_distance s1 s2 ≤ n)
unfolding calc_edit_distance
calc_edit_distance_lem s1 s2 h1 h2 =
    rw (table s1 s2 h1 h2) (script, λ n e. distance-minimal (reverse-Edits e))
  where
    script : Edits s1 s2 (distance (reverse s1) (reverse s2))
    script =
        rw (reverse-reverse s1, reverse-reverse s2) at
          (reverse-Edits (distance-Edits (reverse s1) (reverse s2)))
