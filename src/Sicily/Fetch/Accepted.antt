-- ===== src/Sicily/Fetch/Accepted.antt =====
-- What `fetch_queue` builds can be judged, test by test.
use judge_system.Base.{
  ℕ, zero, suc, ◌^◌, ◌≤◌, ◌≡◌, refl, true, false, String, List, [], ◌∷◌, Option, none, some, pos,
  negsuc, any, length, AllAt, AllAt-get_elem?, get_elem?, arith, is_negative, Ensures, thrown,
  given, Ensures-some,
}
use mathlib.Core.Path.{subst}
use judge_system.Submission.{Submission}
use judge_system.Programming.{JudgeTask, JudgeTaskResult, ProgrammingSubmission}
use judge_system.Programming.Verify.{verify, is_null}
use judge_system.Programming.Verify.Accepts.{verify_iff, AllEarlier}
use judge_system.Programming.Process.Invariant.{Earlier}
use judge_system.Programming.Judge.{file_parent}
use judge_system.Programming.Judge.BaseDirs.{FilesEarlier}
use judge_system.Sicily.Fetch.{
  Site, Problem, QueueRow, compile_task, case_tasks, with_problem, from_rows, fetch_queue,
}

-- The task at each index depends on the one just before it, the first on none, and none is random.
abbrev pub Chained : ℕ → JudgeTask → Type 0
Chained zero t = (t.depends_on ≡ negsuc 0) × (t.file_depends_on ≡ negsuc 0) × (t.is_random ≡ false)
Chained (suc i) t = (t.depends_on ≡ pos i) × (t.file_depends_on ≡ negsuc 0) × (t.is_random ≡ false)

case_tasks-Chained :
    (problem : Problem) (i : ℕ) (files : List (String × String))
    → AllAt Chained (suc i) (case_tasks problem i files)
unfolding case_tasks
case_tasks-Chained problem i [] = tt
case_tasks-Chained problem i (f ∷ files) =
    ((refl, refl, refl), case_tasks-Chained problem (suc i) files)

Chained-Earlier :
    (i : ℕ) (t : JudgeTask) → Chained i t → Earlier t.depends_on i × Earlier (file_parent t) i
Chained-Earlier zero t (d, f, r) = rw (d, f) (tt, tt)
Chained-Earlier (suc i) t (d, f, r) = rw (d, f) (omega arith, omega arith)

chain_ordered : (i : ℕ) (ts : List JudgeTask) → AllAt Chained i ts → AllEarlier i ts
chain_ordered i [] h = tt
chain_ordered i (t ∷ ts) (c, h) = ((Chained-Earlier i t c).0, chain_ordered (suc i) ts h)

not_random : (i : ℕ) (ts : List JudgeTask) → AllAt Chained i ts → any (λ t. t.is_random) ts ≡ false
not_random i [] h = refl
not_random zero (t ∷ ts) ((d, f, r), h) = ground (arith, not_random 1 ts h)
not_random (suc i) (t ∷ ts) ((d, f, r), h) = ground (arith, not_random (suc (suc i)) ts h)

record IsFetched (x : ProgrammingSubmission × Option JudgeTaskResult) : Type 0 where
  chained : AllAt Chained 0 x.0.judge_tasks
  entry : any (λ t. is_negative t.depends_on) x.0.judge_tasks ≡ true
  program : is_null x.0.submission ≡ false
  config : x.1 ≡ none

with_problem-IsFetched :
    (site : Site) (sub : Submission) (row : QueueRow) (problem : Option Problem)
    → IsFetched (with_problem site sub row problem, none)
unfolding compile_task
with_problem-IsFetched site sub row none = record {
  chained = ((refl, refl, refl), tt);
  entry = refl;
  program = refl;
  config = refl;
}
with_problem-IsFetched site sub row (some problem) = record {
  chained = ((refl, refl, refl), case_tasks-Chained problem 0 site.cases);
  entry = refl;
  program = refl;
  config = refl;
}

from_rows-IsFetched :
    (site : Site) (base : Submission) (rows : List QueueRow)
    → Ensures IsFetched (from_rows site base rows)
from_rows-IsFetched site base [] = thrown
from_rows-IsFetched site base (row ∷ rest) = given (with_problem-IsFetched site _ row site.problem)

pub fetch_queue-unset :
    (site : Site) (base : Submission) (sub : ProgrammingSubmission)
    (config : Option JudgeTaskResult)
    → fetch_queue site base ≡ some (sub, config)
    → config ≡ none
unfolding fetch_queue
fetch_queue-unset site base sub config came =
    (Ensures-some IsFetched _ (from_rows-IsFetched site base site.queue) came).config

-- A submission that `fetch_queue` finds has no `config`, and is accepted by `verify` if it has at most
-- 2^31 tasks; task i + 1 depends on task i, and no task takes its files from a later one.
pub fetch_queue-verify :
    (site : Site) (base : Submission) (sub : ProgrammingSubmission)
    (config : Option JudgeTaskResult)
    → fetch_queue site base ≡ some (sub, config)
    → length sub.judge_tasks ≤ 2 ^ 31
    → (config ≡ none)
      × (verify (some sub) ≡ true)
      × ((i : ℕ) (t : JudgeTask)
          → get_elem? sub.judge_tasks (suc i) ≡ some t
          → t.depends_on ≡ pos i)
      × FilesEarlier sub.judge_tasks
unfolding fetch_queue
fetch_queue-verify site base sub config came few = (
  b.config,
  (verify_iff sub few).1 (record {
    ordered = chain_ordered 0 sub.judge_tasks b.chained;
    has_submission = b.program;
    has_generator = λ r. absurd (ground (arith, r, not_random 0 sub.judge_tasks b.chained));
    has_entry = b.entry;
  }),
  (λ i t e. (chained_at (suc i) t e).0),
  λ i t e. (Chained-Earlier i t (chained_at i t e)).1,
)
  where
    b : IsFetched (sub, config)
    b = Ensures-some IsFetched _ (from_rows-IsFetched site base site.queue) came

    chained_at : (i : ℕ) (t : JudgeTask) → get_elem? sub.judge_tasks i ≡ some t → Chained i t
    chained_at i t e =
        subst (λ n. Chained n t) (omega arith)
          (AllAt-get_elem? Chained 0 sub.judge_tasks b.chained i t e)
