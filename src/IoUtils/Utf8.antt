-- ===== src/IoUtils/Utf8.antt =====
-- What `utf8_check_is_valid` accepts.
use judge_system.Base.{
  ℕ, zero, suc, ◌/◌, ◌≤◌, ◌<◌, ◌≡◌, refl, ◌↔◌, inl, inr, Bool-cases, true, false, none, some,
  Option, [], ◌∷◌, arith, ◌&&◌, ◌==◌, leb,
}
use judge_system.IoUtils.{Bytes, is_surrogate, followers, utf8_loop, utf8_check_is_valid}

-- After a lead byte 0xED no second byte from 0xA0 on may come: that would be a surrogate.
abbrev pub NoSurrogate : ℕ → Bytes → Type 0
NoSurrogate c [] = Unit
NoSurrogate c (d ∷ s) = c ≡ 237 → d < 160

-- Characters in UTF-8, after the last n bytes of one: each lead byte has its number of continuation
-- bytes.
pub data Characters : ℕ → Bytes → Type 0 where
  end : Characters 0 []
  one_byte : {c : ℕ} {s : Bytes} → c < 128 → Characters 0 s → Characters 0 (c ∷ s)
  two_bytes : {c : ℕ} {s : Bytes} → 192 ≤ c → c < 224 → Characters 1 s → Characters 0 (c ∷ s)
  three_bytes :
      {c : ℕ} {s : Bytes}
      → 224 ≤ c
      → c < 240
      → NoSurrogate c s
      → Characters 2 s
      → Characters 0 (c ∷ s)
  four_bytes : {c : ℕ} {s : Bytes} → 240 ≤ c → c < 248 → Characters 3 s → Characters 0 (c ∷ s)
  continued :
      {d n : ℕ} {s : Bytes} → 128 ≤ d → d < 192 → Characters n s → Characters (suc n) (d ∷ s)

three_followers : (c : ℕ) (s : Bytes) → 224 ≤ c → c < 240 → NoSurrogate c s → followers c s ≡ some 2
unfolding followers
three_followers c [] l h u = ground arith
three_followers c (d ∷ s) l h u = ground (arith, u)

accepted : {n : ℕ} {s : Bytes} → Characters n s → utf8_loop n s ≡ true
unfolding utf8_loop followers
accepted end = refl
accepted (one_byte h c) = ground (arith, accepted c)
accepted (two_bytes l h c) = ground (arith, accepted c)
accepted (three_bytes {c} {s} l h u cs) = rw (utf8_loop, three_followers c s l h u) (accepted cs)
accepted (four_bytes l h c) = ground (arith, accepted c)
accepted (continued l h c) = ground (arith, accepted c)

no_surrogate :
    (c : ℕ) (s : Bytes) → (c == 237 && is_surrogate s) ≡ false → Characters 2 s → NoSurrogate c s
no_surrogate c [] h cs = tt
no_surrogate c (d ∷ s) h (continued low high cs) = λ e. ground arith

-- What a lead byte can be.
data Lead (c : ℕ) (s : Bytes) : Option ℕ → Type 0 where
  bad : Lead c s none
  one : c < 128 → Lead c s (some 0)
  two : 192 ≤ c → c < 224 → Lead c s (some 1)
  three : 224 ≤ c → c < 240 → (c == 237 && is_surrogate s) ≡ false → Lead c s (some 2)
  four : 240 ≤ c → c < 248 → Lead c s (some 3)

lead : (c : ℕ) (s : Bytes) → Lead c s (followers c s)
unfolding followers
lead c s = elim (Bool-cases (leb c 127)) [
  | inl e1 ↦ rw (followers, e1) (one (ground arith))
  | inr e1 ↦ elim (Bool-cases (c / 32 == 6)) [
    | inl e2 ↦ rw (followers, e1, e2) (two (ground arith) (ground arith))
    | inr e2 ↦ elim (Bool-cases (c == 237 && is_surrogate s)) [
      | inl e3 ↦ rw (followers, e1, e2, e3) bad
      | inr e3 ↦ elim (Bool-cases (c / 16 == 14)) [
        | inl e4 ↦ rw (followers, e1, e2, e3, e4) (three (ground arith) (ground arith) e3)
        | inr e4 ↦ elim (Bool-cases (c / 8 == 30)) [
          | inl e5 ↦ rw (followers, e1, e2, e3, e4, e5) (four (ground arith) (ground arith))
          | inr e5 ↦ rw (followers, e1, e2, e3, e4, e5) bad
        ]
      ]
    ]
  ]
]

by_first_byte :
    (c : ℕ) (s : Bytes) (o : Option ℕ)
    → ((n : ℕ) → utf8_loop n s ≡ true → Characters n s)
    → Lead c s o
    → elim o [ none ↦ false | some n ↦ utf8_loop n s ] ≡ true
    → Characters 0 (c ∷ s)
by_first_byte c s none rest bad h = cc
by_first_byte c s (some _) rest (one u) h = one_byte u (rest 0 h)
by_first_byte c s (some _) rest (two l u) h = two_bytes l u (rest 1 h)
by_first_byte c s (some _) rest (three l u e) h =
    three_bytes l u (no_surrogate c s e (rest 2 h)) (rest 2 h)
by_first_byte c s (some _) rest (four l u) h = four_bytes l u (rest 3 h)

understood : (n : ℕ) (s : Bytes) → utf8_loop n s ≡ true → Characters n s
unfolding utf8_loop
understood zero [] h = end
understood (suc n) [] h = cc
understood zero (c ∷ s) h = by_first_byte c s (followers c s) (λ n e. understood n s e) (lead c s) h
understood (suc n) (d ∷ s) h = elim (Bool-cases (d / 64 == 2)) [
  | inl e ↦ continued (ground arith) (ground arith) (understood n s (ground arith))
  | inr e ↦ absurd (ground arith)
]

-- `utf8_check_is_valid` accepts exactly the strings that consist of characters of one to four bytes, each
-- lead byte followed by its number of continuation bytes, and without surrogates.
pub utf8_check_is_valid_iff : (s : Bytes) → (utf8_check_is_valid s ≡ true) ↔ Characters 0 s
unfolding utf8_check_is_valid
utf8_check_is_valid_iff s = (λ h. understood 0 s h, λ c. accepted c)
