-- ===== src/IoUtils/SafePath.antt =====
-- Which paths `assert_safe_path` lets through, and how much `read_file_content` returns.
use judge_system.Base.{
  ℕ, ◌≡◌, refl, ◌↔◌, Bool-cases, inl, inr, true, none, some, [], ◌∷◌, arith, ◌==◌, ◌&&◌,
}
use judge_system.IoUtils.{Bytes, finds_parent, assert_safe_path}

-- `s` has "../" somewhere.
pub data HasParent : Bytes → Type 0 where
  here : (s : Bytes) → HasParent (46 ∷ 46 ∷ 47 ∷ s)
  there : (c : ℕ) {s : Bytes} → HasParent s → HasParent (c ∷ s)

found : (s : Bytes) → HasParent s → finds_parent s ≡ true
unfolding finds_parent
found [] h = elim h [ ]
found (a ∷ []) (there _ h) = elim h [ ]
found (a ∷ b ∷ []) (there _ (there _ h)) = elim h [ ]
found (a ∷ b ∷ c ∷ s) (here _) = refl
found (a ∷ b ∷ c ∷ s) (there _ h) = ground (arith, found (b ∷ c ∷ s) h)

starts :
    (a b c : ℕ) (s : Bytes) → (a == 46 && b == 46 && c == 47) ≡ true → HasParent (a ∷ b ∷ c ∷ s)
starts a b c s h =
    let e : a ≡ 46 = ground arith in
    let e' : b ≡ 46 = ground arith in let e'' : c ≡ 47 = ground arith in rw (e, e', e'') (here s)

find : (s : Bytes) → finds_parent s ≡ true → HasParent s
unfolding finds_parent
find [] h = cc
find (a ∷ []) h = cc
find (a ∷ b ∷ []) h = cc
find (a ∷ b ∷ c ∷ s) h = elim (Bool-cases (a == 46 && b == 46 && c == 47)) [
  | inl e ↦ starts a b c s e
  | inr e ↦ there a (find (b ∷ c ∷ s) (ground arith))
]

-- `assert_safe_path` throws for exactly the paths that contain "../", and returns all others unchanged.
assert_safe_path_cases :
    (s : Bytes)
    → ((assert_safe_path s ≡ none) ↔ HasParent s)
      × ((assert_safe_path s ≡ some s) ↔ (¬ HasParent s))
unfolding assert_safe_path
assert_safe_path_cases s = elim (Bool-cases (finds_parent s)) [
  | inl e ↦ rw e ((λ h. find s e, λ h. refl), (λ h. cc, λ h. absurd (h (find s e))))
  | inr e ↦ rw e (
    (λ h. cc, λ h. absurd (ground (arith, found s h))),
    (λ h p. absurd (ground (arith, found s p)), λ h. refl),
  )
]
