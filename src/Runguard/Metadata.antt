-- ===== src/Runguard/Metadata.antt =====
-- The metadata file: `append_meta` of runguard/src/run.cpp writes it, `read_metadata` of
-- src/runguard.cpp reads it. A line is the list of its bytes, without the line feed.
use judge_system.Base.{
  ℕ, ◌==◌, ==_iff, ==_refl, ◌≡◌, refl, ap, ◌∙◌, Bool, true, false, ◌&&◌, List, [], ◌∷◌, ◌++◌, All,
  any-append, sym, Option, none, some, if◌then◌else◌, Bool-cases, inl, inr, arith, any,
}
use mathlib.Core.List.{append_assoc}

abbrev pub Bytes : Type 0
Bytes = List ℕ

unfoldable pub bytes_eq : Bytes → Bytes → Bool
bytes_eq [] [] = true
bytes_eq [] (b ∷ t) = false
bytes_eq (a ∷ s) [] = false
bytes_eq (a ∷ s) (b ∷ t) = a == b && bytes_eq s t

-- key: value, and a line feed; nothing if there is no metadata file.
unfoldable pub append_meta : Bool → Bytes × Bytes → Bytes
append_meta false entry = []
append_meta true (key, value) = key ++ 58 ∷ 32 ∷ (value ++ 10 ∷ [])

-- The file after the calls.
unfoldable pub append_all : Bool → List (Bytes × Bytes) → Bytes
unfolding append_meta
append_all metafile [] = []
append_all metafile (entry ∷ rest) = append_meta metafile entry ++ append_all metafile rest

-- The lines that `getline` reads; the last one may lack its line feed.
unfoldable pub get_lines : Bytes → List Bytes
get_lines [] = []
get_lines (c ∷ s) =
    let later = get_lines s in
    if c == 10
    then [] ∷ later
    else elim later [ [] ↦ (c ∷ []) ∷ [] | line ∷ rest ↦ (c ∷ line) ∷ rest ]

-- The key and the value of a line, at its first ": "; `none` is a line without.
unfoldable pub split_line : Bytes → Option (Bytes × Bytes)
split_line [] = none
split_line (a ∷ []) = none
split_line (a ∷ b ∷ s) =
    let later = split_line (b ∷ s) in
    if a == 58 && b == 32
    then some ([], s)
    else elim later [ none ↦ none | some (key, value) ↦ some (a ∷ key, value) ]

-- mp[key] = value
unfoldable pub assign : Bytes → Bytes → List (Bytes × Bytes) → List (Bytes × Bytes)
unfolding bytes_eq
assign key value [] = (key, value) ∷ []
assign key value ((k, v) ∷ mp) =
    let later = assign key value mp in if bytes_eq k key then (k, value) ∷ mp else (k, v) ∷ later

unfoldable pub lookup : Bytes → List (Bytes × Bytes) → Option Bytes
unfolding bytes_eq
lookup key [] = none
lookup key ((k, v) ∷ mp) = let later = lookup key mp in if bytes_eq k key then some v else later

-- The loop over the lines.
unfoldable pub read_lines : List (Bytes × Bytes) → List Bytes → List (Bytes × Bytes)
unfolding split_line assign
read_lines mp [] = mp
read_lines mp (line ∷ rest) =
    read_lines (elim (split_line line) [ none ↦ mp | some (key, value) ↦ assign key value mp ]) rest

unfoldable pub read_metadata : Bytes → List (Bytes × Bytes)
unfolding read_lines get_lines
read_metadata file = read_lines [] (get_lines file)

-- The last value that was written for a key.
abbrev pub last_value : Bytes → List (Bytes × Bytes) → Option Bytes → Option Bytes
last_value key [] before = before
last_value key ((k, v) ∷ rest) before =
    last_value key rest (if bytes_eq k key then some v else before)

abbrev pub has_colon : Bytes → Bool
has_colon key = any (λ c. c == 58) key

pub bytes_eq→eq : (s t : Bytes) → bytes_eq s t ≡ true → s ≡ t
unfolding bytes_eq
bytes_eq→eq [] [] h = refl
bytes_eq→eq [] (b ∷ t) h = cc
bytes_eq→eq (a ∷ s) [] h = cc
bytes_eq→eq (a ∷ s) (b ∷ t) h = cc ((==_iff a b).0 (ground arith), bytes_eq→eq s t (ground arith))

bytes_eq_refl : (s : Bytes) → bytes_eq s s ≡ true
unfolding bytes_eq
bytes_eq_refl [] = refl
bytes_eq_refl (a ∷ s) = ground (arith, ==_refl a, bytes_eq_refl s)

different :
    (n k key : Bytes) → bytes_eq n k ≡ false → bytes_eq n key ≡ true → bytes_eq k key ≡ false
different n k key e f = elim (Bool-cases (bytes_eq k key)) [
  | inl g ↦ absurd (cc (e, bytes_eq→eq k key g))
  | inr g ↦ g
]

pub lookup-assign :
    (key k value : Bytes) (mp : List (Bytes × Bytes))
    → lookup key (assign k value mp) ≡ (if bytes_eq k key then some value else lookup key mp)
unfolding lookup assign
lookup-assign key k value [] = refl
lookup-assign key k value ((n, v) ∷ mp) = elim (Bool-cases (bytes_eq n k)) [
  | inl e ↦ rw (assign, e, bytes_eq→eq n k e) (ground arith)
  | inr e ↦ elim (Bool-cases (bytes_eq n key)) [
    | inl f ↦ rw (assign, e, lookup, f, different n k key e f) refl
    | inr f ↦ rw (assign, e, lookup, f) (lookup-assign key k value mp)
  ]
]

-- A key without a colon and a value, both without a line feed.
abbrev pub OnOneLine : Bytes × Bytes → Type 0
OnOneLine (key, value) =
    (has_colon key ≡ false) × (any (λ c. c == 10) key ≡ false) × (any (λ c. c == 10) value ≡ false)

-- The line of an entry, without the line feed.
line_of : Bytes × Bytes → Bytes
line_of (key, value) = key ++ 58 ∷ 32 ∷ value

-- A line is split where it was joined, if the key has no colon.
split_line-line_of :
    (key value : Bytes)
    → has_colon key ≡ false
    → split_line (line_of (key, value)) ≡ some (key, value)
unfolding split_line line_of
split_line-line_of [] value h = refl
split_line-line_of (a ∷ []) value h = ground arith
split_line-line_of (a ∷ b ∷ key) value h =
    ground (arith, split_line-line_of (b ∷ key) value (ground arith))

-- `getline` reads up to the line feed.
get_lines-line :
    (line file : Bytes)
    → any (λ c. c == 10) line ≡ false
    → get_lines (line ++ 10 ∷ file) ≡ line ∷ get_lines file
unfolding get_lines
get_lines-line [] file h = refl
get_lines-line (c ∷ line) file h =
    let other : (c == 10) ≡ false = ground arith in
    rw (get_lines, other, get_lines-line line file (ground arith)) refl

line_of-flat :
    (key value : Bytes)
    → any (λ c. c == 10) key ≡ false
    → any (λ c. c == 10) value ≡ false
    → any (λ c. c == 10) (line_of (key, value)) ≡ false
unfolding line_of
line_of-flat key value h g = any-append (λ c. c == 10) key (58 ∷ 32 ∷ value) ∙ ground (arith, h, g)

append_meta-line :
    (key value file : Bytes)
    → (append_meta true (key, value) ++ file) ≡ (line_of (key, value) ++ 10 ∷ file)
unfolding append_meta line_of
append_meta-line key value file =
    append_assoc key (58 ∷ 32 ∷ (value ++ 10 ∷ [])) file
    ∙ ap (λ l. key ++ 58 ∷ 32 ∷ l) (append_assoc value (10 ∷ []) file)
    ∙ sym (append_assoc key (58 ∷ 32 ∷ value) (10 ∷ file))

lines_lem :
    (entry : Bytes × Bytes) (file : Bytes)
    → OnOneLine entry
    → get_lines (append_meta true entry ++ file) ≡ line_of entry ∷ get_lines file
lines_lem (key, value) file (colon, flat, flat') =
    ap get_lines (append_meta-line key value file)
    ∙ get_lines-line (line_of (key, value)) file (line_of-flat key value flat flat')

read_lines_lem :
    (key : Bytes) (entries mp : List (Bytes × Bytes))
    → All OnOneLine entries
    → lookup key (read_lines mp (get_lines (append_all true entries)))
      ≡ last_value key entries (lookup key mp)
unfolding read_lines append_all get_lines
read_lines_lem key [] mp h = refl
read_lines_lem key ((k, v) ∷ entries) mp (h, hs) =
    rw
      (
        append_all,
        lines_lem (k, v) (append_all true entries) h,
        read_lines,
        split_line-line_of k v h.0,
      )
      (read_lines_lem key entries (assign k v mp) hs
        ∙ ap (last_value key entries) (lookup-assign key k v mp))

unwritten : (entries : List (Bytes × Bytes)) → append_all false entries ≡ []
unfolding append_all append_meta
unwritten [] = refl
unwritten (entry ∷ entries) = unwritten entries

-- From the file that `append_meta` wrote, for entries without a line feed and under keys without a
-- colon, `read_metadata` reads for each key the last value that was written for it, and nothing for a
-- key that was not written; if there was no metadata file, nothing is written.
pub read_metadata-append_all :
    (entries : List (Bytes × Bytes))
    → All OnOneLine entries
    → ((key : Bytes)
        → lookup key (read_metadata (append_all true entries)) ≡ last_value key entries none)
      × (append_all false entries ≡ [])
unfolding read_metadata lookup
read_metadata-append_all entries h = (λ key. read_lines_lem key entries [] h, unwritten entries)
