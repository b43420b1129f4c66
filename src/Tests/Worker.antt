-- ===== src/Tests/Worker.antt =====
-- A round in which two servers have a submission each.
use judge_system.Base.{◌≡◌, refl, false, List, [], ◌∷◌, arith}
use judge_system.Worker.{
  Reply, verified, no_submission, Workers, fetch_submission, fetch_all, fetch_from, insert,
}
use judge_system.Worker.Fetch.{fetch_submission_lem}

abbrev idle : Workers
idle = record {
  global_judge_id = 3;
  submissions = 2 ∷ [];
  finished_submissions = [];
  distributed = 0 ∷ 1 ∷ 2 ∷ [];
  reported = 0;
  owned = false;
  success = false;
}

abbrev two_replies : List Reply
two_replies = verified false ∷ no_submission ∷ verified false ∷ []

-- Both are stored, and the second is stranded; the round counts as a failure.
second_stranded :
    ((fetch_submission idle two_replies).0 ≡ false)
    × ((fetch_submission idle two_replies).1.submissions ≡ 2 ∷ 3 ∷ 4 ∷ [])
    × ((fetch_submission idle two_replies).1.distributed ≡ 0 ∷ 1 ∷ 2 ∷ 3 ∷ [])
unfolding fetch_submission fetch_all fetch_from insert
second_stranded = (refl, refl, refl)

fetch_submission_lem_example :
    ((fetch_submission idle two_replies).1.global_judge_id ≡ 5)
    × ((fetch_submission idle two_replies).1.submissions ≡ 2 ∷ 3 ∷ 4 ∷ [])
    × ((fetch_submission idle two_replies).1.distributed ≡ 0 ∷ 1 ∷ 2 ∷ 3 ∷ [])
unfolding fetch_submission
fetch_submission_lem_example = fetch_submission_lem idle two_replies (omega arith, tt) (omega arith)
