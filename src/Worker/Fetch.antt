-- ===== src/Worker/Fetch.antt =====
-- What a round of `fetch_submission` distributes.
use judge_system.Base.{
  ℕ, zero, suc, ◌+◌, ◌%◌, ◌^◌, ◌<◌, ◌≡◌, refl, sym, Bool, true, false, List, [], ◌∷◌, ◌++◌, ◌∙◌,
  ◌==◌, if◌then◌else◌, arith, Bool-cases, inl, inr,
}
use mathlib.Core.List.{append_assoc, append-nil}
use judge_system.Worker.{
  Reply, verified, no_submission, fetch_threw, unknown_type, verify_threw, invalid, Workers,
  fetch_from, fetch_all, fetch_submission, stored, insert, failed,
}

-- How many replies are submissions that the judger accepts.
abbrev pub accepted_count : List Reply → ℕ
accepted_count [] = 0
accepted_count (verified _ ∷ rest) = suc (accepted_count rest)
accepted_count (_ ∷ rest) = accepted_count rest

-- Every id is below the next one.
abbrev pub Below : ℕ → List ℕ → Type 0
Below n [] = Unit
Below n (k ∷ rest) = (k < n) × Below n rest

-- The one of them that is distributed, if it gets the id `n`: the first, unless that throws.
abbrev pub first_distributed : ℕ → List Reply → List ℕ
first_distributed n [] = []
first_distributed n (verified distribute_threw ∷ rest) = if distribute_threw then [] else n ∷ []
first_distributed n (_ ∷ rest) = first_distributed n rest

-- `k` ids from `n` on.
abbrev pub ids_from : ℕ → ℕ → List ℕ
ids_from n zero = []
ids_from n (suc k) = n ∷ ids_from (suc n) k

insert-new : (n : ℕ) (l : List ℕ) → Below n l → insert n l ≡ l ++ n ∷ []
unfolding insert
insert-new n [] h = refl
insert-new n (k ∷ l) (lt, h) = elim (Bool-cases (k == n)) [
  | inl e ↦ absurd (ground arith)
  | inr e ↦ rw (insert, e, insert-new n l h) refl
]

Below-suc : (n : ℕ) (l : List ℕ) → Below n l → Below (suc n) l
Below-suc n [] h = tt
Below-suc n (k ∷ l) (lt, h) = (omega arith, Below-suc n l h)

insert-Below : (n : ℕ) (l : List ℕ) → Below n l → Below (suc n) (insert n l)
unfolding insert
insert-Below n [] h = (omega arith, tt)
insert-Below n (k ∷ l) (lt, h) = elim (Bool-cases (k == n)) [
  | inl e ↦ absurd (ground arith)
  | inr e ↦ rw e (omega arith, insert-Below n l h)
]

-- What a round from `w` on changes, with `n` accepted submissions of which `d` are distributed.
record Changed (n : ℕ) (d : List ℕ) (w v : Workers) : Type 0 where
  numbered : v.global_judge_id ≡ w.global_judge_id + n
  kept : v.submissions ≡ w.submissions ++ ids_from w.global_judge_id n
  sent : v.distributed ≡ w.distributed ++ d

-- One accepted submission.
record Taken (d : List ℕ) (w v : Workers) : Type 0 where
  changed : Changed 1 d w v
  released : v.owned ≡ false
  below : Below v.global_judge_id v.submissions

take_one :
    (w : Workers) (t : Bool)
    → Below w.global_judge_id w.submissions
    → w.global_judge_id + 1 < 2 ^ 32
    → Taken
        (if w.owned then (if t then [] else w.global_judge_id ∷ []) else [])
        w
        (fetch_from w (verified t))
unfolding fetch_from
take_one w t below few = go w.owned t refl
  where
    n : ℕ
    n = w.global_judge_id

    s : Workers
    s = stored w

    next : (n + 1) % 2 ^ 32 ≡ suc n
    next = omega arith

    ids : Below ((n + 1) % 2 ^ 32) (insert n w.submissions)
    ids = rw next (insert-Below n w.submissions below)

    size : insert n w.submissions ≡ w.submissions ++ n ∷ []
    size = insert-new n w.submissions below

    go :
        (b t : Bool)
        → w.owned ≡ b
        → Taken (if b then (if t then [] else n ∷ []) else []) w (
            if b
            then (if t then record s { owned = false; success = false } else record s {
              owned = false;
              success = true;
              distributed = s.distributed ++ n ∷ [];
            })
            else failed s)
    go true true e = record {
      changed = record { numbered = omega (arith, next); kept = size; sent = sym (append-nil _) };
      released = refl;
      below = ids;
    }
    go true false e = record {
      changed = record { numbered = omega (arith, next); kept = size; sent = refl };
      released = refl;
      below = ids;
    }
    go false t e = record {
      changed = record { numbered = omega (arith, next); kept = size; sent = sym (append-nil _) };
      released = e;
      below = ids;
    }

round :
    (w : Workers) (rs : List Reply)
    → Below w.global_judge_id w.submissions
    → w.global_judge_id + accepted_count rs < 2 ^ 32
    → Changed
        (accepted_count rs)
        (if w.owned then first_distributed w.global_judge_id rs else [])
        w
        (fetch_all w rs)
unfolding fetch_all fetch_from
round w [] below few = record {
  numbered = omega arith;
  kept = sym (append-nil _);
  sent = sym (either w.owned);
}
  where
    either : (b : Bool) → (w.distributed ++ (if b then [] else [])) ≡ w.distributed
    either true = append-nil _
    either false = append-nil _
round w (no_submission ∷ rs) below few = round w rs below few
round w (fetch_threw ∷ rs) below few =
    let c = round (failed w) rs below few in
    record { numbered = c.numbered; kept = c.kept; sent = c.sent }
round w (unknown_type ∷ rs) below few =
    let c = round (failed w) rs below few in
    record { numbered = c.numbered; kept = c.kept; sent = c.sent }
round w (verify_threw ∷ rs) below few =
    let c = round (failed w) rs below few in
    record { numbered = c.numbered; kept = c.kept; sent = c.sent }
round w (invalid true ∷ rs) below few =
    let c = round (failed w) rs below few in
    record { numbered = c.numbered; kept = c.kept; sent = c.sent }
round w (invalid false ∷ rs) below few =
    let c = round (record w { reported = w.reported + 1 }) rs below few in
    record { numbered = c.numbered; kept = c.kept; sent = c.sent }
round w (verified t ∷ rs) below few =
    let one = take_one w t below (omega arith) in
    let v = fetch_from w (verified t) in
    let c = round v rs one.below (omega (arith, one.changed.numbered)) in
    let n1 : v.global_judge_id ≡ suc w.global_judge_id = omega (arith, one.changed.numbered) in
    record {
      numbered = omega (arith, c.numbered, one.changed.numbered);
      kept =
          c.kept
          ∙ (λ i. one.changed.kept i ++ ids_from (n1 i) (accepted_count rs))
          ∙ append_assoc w.submissions (w.global_judge_id ∷ []) _;
      sent = rw one.released at c.sent ∙ append-nil _ ∙ one.changed.sent;
    }

-- In a round of `fetch_submission`, from a state where each stored id is below the next one and the ids
-- do not run out, the accepted submissions get the next ids in the order of the replies and are stored
-- under them, but only the first of them is distributed, unless its distribution throws.
pub fetch_submission_lem :
    (w : Workers) (replies : List Reply)
    → Below w.global_judge_id w.submissions
    → w.global_judge_id + accepted_count replies < 2 ^ 32
    → ((fetch_submission w replies).1.global_judge_id ≡ w.global_judge_id + accepted_count replies)
      × ((fetch_submission w replies).1.submissions
          ≡ w.submissions ++ ids_from w.global_judge_id (accepted_count replies))
      × ((fetch_submission w replies).1.distributed
          ≡ w.distributed ++ first_distributed w.global_judge_id replies)
unfolding fetch_submission
fetch_submission_lem w replies below few =
    let c = round (record w { owned = true; success = false }) replies below few in
    (c.numbered, c.kept, c.sent)
