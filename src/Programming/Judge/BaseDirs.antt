-- ===== src/Programming/Judge/BaseDirs.antt =====
-- The loop of `judge_impl` that collects the run directories of the tasks up from a task.
use judge_system.Base.{
  ℕ, zero, suc, ◌+◌, ◌≤◌, ◌<◌, ◌≡◌, refl, none, some, List, [], ◌∷◌, ℤ, pos, negsuc, length,
  get_elem?, get_elem?-of_lt, get_elem?→lt, Option-cases, inl, inr, Bool-cases, false,
  if◌then◌else◌, arith, All,
}
use judge_system.Status.{pending, status_eq}
use judge_system.Programming.{FilePath, JudgeTask, JudgeTaskResult}
use judge_system.Programming.Judge.{file_parent, base_dirs}
use judge_system.Programming.Process.Invariant.{Earlier}

-- Every task takes its files from an earlier task or from none.
abbrev pub FilesEarlier : List JudgeTask → Type 0
FilesEarlier tasks =
    (i : ℕ) (t : JudgeTask) → get_elem? tasks i ≡ some t → Earlier (file_parent t) i

-- The run directories that a task may build on: those of tasks that are not pending.
abbrev pub IsRunDir : List JudgeTaskResult → FilePath → Type 0
IsRunDir results dir =
    (i : ℕ) × (r : JudgeTaskResult) × (get_elem? results i ≡ some r)
    × (status_eq r.status pending ≡ false)
    × (r.run_dir ≡ dir)

-- How many rounds the loop takes from a task on.
abbrev pub rounds_of : ℤ → ℕ
rounds_of (negsuc n) = 1
rounds_of (pos i) = i + 2

below : (d : ℤ) (i rounds : ℕ) → Earlier d i → i + 1 ≤ rounds → 1 ≤ rounds → rounds_of d ≤ rounds
below (negsuc n) i rounds h le one = omega arith
below (pos j) i rounds h le one = omega arith

pub below_parent : (d : ℤ) (i rounds : ℕ) → Earlier d i → i + 1 ≤ rounds → rounds_of d ≤ rounds
below_parent (negsuc n) i rounds h le = omega arith
below_parent (pos j) i rounds h le = omega arith

extended :
    (results : List JudgeTaskResult) (i : ℕ) (r : JudgeTaskResult) (dirs : List FilePath)
    → get_elem? results i ≡ some r
    → All (IsRunDir results) dirs
    → All (IsRunDir results) (if status_eq r.status pending then dirs else r.run_dir ∷ dirs)
extended results i r dirs e ok = elim (Bool-cases (status_eq r.status pending)) [
  | inl h ↦ rw h ok
  | inr h ↦ rw h ((i, r, e, h, refl), ok)
]

-- If every task takes its files from an earlier one and there is a task for each result, the loop
-- ends within two rounds more than the index that it starts from, and lists run directories of tasks
-- that are not pending.
pub base_dirs_lem :
    (tasks : List JudgeTask) (results : List JudgeTaskResult)
    → FilesEarlier tasks
    → length results ≤ length tasks
    → (rounds : ℕ) (taskid : ℤ) → rounds_of taskid ≤ rounds
    → (dirs : List FilePath) × (base_dirs rounds tasks results taskid ≡ some dirs)
      × All (IsRunDir results) dirs
unfolding base_dirs
base_dirs_lem tasks results up le zero (negsuc n) h = elim h [ ]
base_dirs_lem tasks results up le zero (pos i) h = absurd (omega arith)
base_dirs_lem tasks results up le (suc rounds) (negsuc n) h = ([], refl, tt)
base_dirs_lem tasks results up le (suc rounds) (pos i) h =
    elim (Option-cases (get_elem? results i)) [
      | inl e ↦ ([], rw (base_dirs, e), tt)
      | inr (r, e) ↦
          let (t, et) = get_elem?-of_lt tasks i (omega (arith, get_elem?→lt results i r e)) in
          let (dirs, ed, ok) =
            base_dirs_lem tasks results up le rounds (file_parent t)
              (below_parent (file_parent t) i rounds (up i t et) (omega arith)) in
          (
            if status_eq r.status pending then dirs else r.run_dir ∷ dirs,
            rw (base_dirs, e, et, ed),
            extended results i r dirs e ok,
          )
    ]

-- The loop that starts at a task that has a result and takes its files from itself does not
-- end, however many rounds it is given.
pub base_dirs_stuck :
    (tasks : List JudgeTask) (results : List JudgeTaskResult) (i : ℕ) (t : JudgeTask)
    → get_elem? tasks i ≡ some t
    → t.file_depends_on ≡ pos i
    → i < length results
    → (rounds : ℕ) → base_dirs rounds tasks results (pos i) ≡ none
unfolding base_dirs
base_dirs_stuck tasks results i t et self lt zero = refl
base_dirs_stuck tasks results i t et self lt (suc rounds) =
    let (r, e) = get_elem?-of_lt results i lt in
    rw (base_dirs, e, et, self, base_dirs_stuck tasks results i t et self lt rounds)
