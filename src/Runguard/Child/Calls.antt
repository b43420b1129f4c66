-- ===== src/Runguard/Child/Calls.antt =====
-- The calls that the code of the guarded process makes, and how it ends.
use judge_system.Base.{
  ◌≡◌, ◌⊎◌, refl, sym, ap, ◌∙◌, Bool, true, false, List, [], ◌∷◌, ◌++◌, map, Option, none, some,
  if◌then◌else◌, Bool-cases, inl, inr,
}
use mathlib.Core.List.{append_assoc, append-nil, map-append}
use judge_system.Runguard.Child.{Call, Made, Kernel, must, tried, Code}
use judge_system.Runguard.Run.{◌>>=◌, ◌>>◌, done, when}

abbrev pub oks : List Call → List Made
oks = map (λ c. record { call = c; ok = true })

-- An exception right after a call that failed.
abbrev pub Fails : Option (Unit {0}) × List Made → Type 0
Fails r = (c : Call) × (u : List Made) × (r ≡ (none, u ++ record { call = c; ok = false } ∷ []))

-- The code makes these calls, or ends in an exception at the first one that fails.
pub record Makes (k : Kernel) (m : Code (Unit {0})) (cs : List Call) : Type 0 where
  pub from : (t : List Made) → (m k t ≡ (some tt, t ++ oks cs)) ⊎ Fails (m k t)

pub must-Makes : (k : Kernel) (c : Call) → Makes k (must c) (c ∷ [])
unfolding must
must-Makes k c = record {
  from = λ t. elim (Bool-cases (k.succeeds t c)) [
    | inl e ↦ inl (rw (must, e) refl)
    | inr e ↦ inr (c, t, rw (must, e) refl)
  ];
}

pub done-Makes : (k : Kernel) → Makes k done []
unfolding done
done-Makes k = record { from = λ t. inl (λ i. (some tt, sym (append-nil t) i)) }

pub when-Makes :
    (k : Kernel) (b : Bool) (m : Code (Unit {0})) (cs : List Call)
    → Makes k m cs
    → Makes k (when b m) (if b then cs else [])
unfolding when
when-Makes k true m cs h = h
when-Makes k false m cs h = done-Makes k

pub >>-Makes :
    (k : Kernel) (m n : Code (Unit {0})) (cs ds : List Call)
    → Makes k m cs
    → Makes k n ds
    → Makes k (m >> n) (cs ++ ds)
unfolding ◌>>◌ ◌>>=◌
>>-Makes k m n cs ds h g = record {
  from = λ t. elim (h.from t) [
    | inr (c, u, e) ↦ inr (c, u, rw (e, ◌>>=◌) refl)
    | inl e ↦ elim (g.from (t ++ oks cs)) [
      | inl f ↦ inl (rw (e, ◌>>=◌) (f ∙ (λ i. (some tt, joined t i))))
      | inr f ↦ inr (rw (e, ◌>>=◌) f)
    ]
  ];
}
  where
    joined : (t : List Made) → ((t ++ oks cs) ++ oks ds) ≡ (t ++ oks (cs ++ ds))
    joined t = append_assoc t (oks cs) (oks ds) ∙ ap (λ l. t ++ l) (sym (map-append _ cs ds))

-- A part that makes calls, followed by anything.
pub >>-from :
    (k : Kernel) (m n : Code (Unit {0})) (cs : List Call)
    → Makes k m cs
    → (t : List Made) → ((m >> n) k t ≡ n k (t ++ oks cs)) ⊎ Fails ((m >> n) k t)
unfolding ◌>>◌ ◌>>=◌
>>-from k m n cs h t = elim (h.from t) [
  | inl e ↦ inl (rw (e, ◌>>=◌) refl)
  | inr (c, u, e) ↦ inr (c, u, rw (e, ◌>>=◌) refl)
]

-- Code that never ends in an exception.
pub record Returns (m : Code (Unit {0})) : Type 0 where
  pub returns : (k : Kernel) (t : List Made) → (u : List Made) × (m k t ≡ (some tt, u))

pub when-Returns : (b : Bool) (c : Call) → Returns (when b (tried c))
unfolding when done tried
when-Returns true c = record { returns = λ k t. (_, refl) }
when-Returns false c = record { returns = λ k t. (_, refl) }

pub >>-Returns : (m n : Code (Unit {0})) → Returns m → Returns n → Returns (m >> n)
unfolding ◌>>◌ ◌>>=◌
>>-Returns m n h g = record {
  returns = λ k t. let (u, e) = h.returns k t in let (v, f) = g.returns k u in (v, rw (e, ◌>>=◌) f);
}
