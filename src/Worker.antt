-- ===== src/Worker.antt =====
-- `fetch_submission` and `finish_submission` of src/worker/worker.cpp. The judge servers and the judgers
-- are outside: a round is the list of what each server answers, in the order of their categories.
pub mod Fetch
pub mod Finish
pub mod Loop
use judge_system.Base.{
  ℕ, zero, suc, ◌+◌, ◌%◌, ◌^◌, Bool, true, false, List, [], ◌∷◌, ◌++◌, ◌==◌, if◌then◌else◌, Option,
  none, some,
}

-- What a server answers, and what the judger of the submission's type makes of it.
pub data Reply : Type 0 where
  no_submission : Reply
  fetch_threw : Reply
  unknown_type : Reply
  verify_threw : Reply
  invalid : (summarize_threw : Bool) → Reply
  verified : (distribute_threw : Bool) → Reply

-- `submissions` maps judge_ids to submissions, of which only the id matters here; `owned` says whether
-- `guard` holds `server_mutex`; `distributed` are the submissions that were distributed, in order.
pub record Workers : Type 0 where
  pub global_judge_id : ℕ
  pub submissions : List ℕ
  pub finished_submissions : List ℕ
  pub distributed : List ℕ
  pub reported : ℕ
  pub owned : Bool
  pub success : Bool

abbrev pub failed : Workers → Workers
failed w = record w { success = false }

-- submissions[judge_id] = ..., which replaces one that has the id.
unfoldable pub insert : ℕ → List ℕ → List ℕ
insert id [] = id ∷ []
insert id (k ∷ rest) = if k == id then id ∷ rest else k ∷ insert id rest

abbrev pub stored : Workers → Workers
stored w = record w {
  global_judge_id = (w.global_judge_id + 1) % 2 ^ 32;
  submissions = insert w.global_judge_id w.submissions;
}

-- The call of `guard.unlock()` throws if the guard does not hold the mutex.
unfoldable pub fetch_from : Workers → Reply → Workers
unfolding insert
fetch_from w no_submission = w
fetch_from w fetch_threw = failed w
fetch_from w unknown_type = failed w
fetch_from w verify_threw = failed w
fetch_from w (invalid false) = record w { reported = w.reported + 1 }
fetch_from w (invalid true) = failed w
fetch_from w (verified distribute_threw) =
    let s = stored w in
    if w.owned
    then (if distribute_threw then record s { owned = false; success = false } else record s {
      owned = false;
      success = true;
      distributed = s.distributed ++ w.global_judge_id ∷ [];
    })
    else failed s

unfoldable pub fetch_all : Workers → List Reply → Workers
unfolding fetch_from
fetch_all w [] = w
fetch_all w (r ∷ rest) = fetch_all (fetch_from w r) rest

-- `fetch_submission`: the lock is taken at the start and is free at the end.
unfoldable pub fetch_submission : Workers → List Reply → Bool × Workers
unfolding fetch_all
fetch_submission w replies =
    let v = fetch_all (record w { owned = true; success = false }) replies in
    (v.success, record v { owned = false })

unfoldable pub erase : ℕ → List ℕ → List ℕ
erase id [] = []
erase id (k ∷ rest) = if k == id then rest else k ∷ erase id rest

unfoldable pub contains : ℕ → List ℕ → Bool
contains id [] = false
contains id (k ∷ rest) = if k == id then true else contains id rest

-- `finish_submission`: `none` is the exception of `at`.
unfoldable pub finish_submission : Workers → ℕ → Option Workers
unfolding erase contains
finish_submission w judge_id =
    if contains judge_id w.submissions
    then some (record w {
      finished_submissions = w.finished_submissions ++ judge_id ∷ [];
      submissions = erase judge_id w.submissions;
    })
    else none
