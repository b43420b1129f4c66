-- ===== src/Executable/Deployed.antt =====
-- When an executable is deployed.
use judge_system.Base.{
  ◌≡◌, refl, Bool, true, not, ◌&&◌, ◌||◌, ◌==◌, String, str_eq, Option, none, Bool-cases,
  Option-cases, inl, inr, arith,
}
use judge_system.Programming.Verify.{is_null}
use judge_system.Executable.{Directory, Deployment, FetchError, is_dirty, fetch_executable, built}

-- A directory marked as deployed has its `run`.
abbrev pub IsSound : Directory → Type 0
IsSound d = d.deployed ≡ true → d.run ≡ true

-- A call that deploys: what it leaves.
abbrev Leaves : String → Directory × Option FetchError → Type 0
Leaves md5sum (d, e) =
    IsSound d × (d.deployed ≡ is_null e) × (e ≡ none → is_dirty md5sum d ≡ not (str_eq md5sum ""))

built_lem :
    (md5sum : String) (s : Deployment) (build run : Bool) → Leaves md5sum (built s build run)
unfolding is_dirty
built_lem md5sum s build run = elim (Bool-cases (build && not (s.exit_code == 0))) [
  | inl e ↦ rw e (λ h. cc, refl, λ h. cc)
  | inr e ↦ elim (Bool-cases (run || (build && s.made_run))) [
    | inl f ↦ rw (e, f) (λ h. refl, refl, λ h. ground arith)
    | inr f ↦ rw (e, f) (λ h. cc, refl, λ h. cc)
  ]
]

-- A call keeps a directory sound. After a call that found it dirty both times, it is marked as deployed
-- exactly if the call did not throw; and then it is dirty again exactly if the executable has an MD5
-- sum, since nothing stores that.
pub fetch_executable_lem :
    (md5sum : String) (s : Deployment) (before locked : Directory)
    → IsSound locked
    → IsSound (fetch_executable md5sum s before locked).0
      × ((is_dirty md5sum before && is_dirty md5sum locked) ≡ true
          → ((fetch_executable md5sum s before locked).0.deployed
              ≡ is_null (fetch_executable md5sum s before locked).1)
            × ((fetch_executable md5sum s before locked).1 ≡ none
                → is_dirty md5sum (fetch_executable md5sum s before locked).0
                  ≡ not (str_eq md5sum "")))
unfolding fetch_executable is_dirty
fetch_executable_lem md5sum s before locked sound =
    elim (Bool-cases (is_dirty md5sum before && is_dirty md5sum locked)) [
      | inr e ↦ rw (fetch_executable, e) (sound, λ h. cc)
      | inl e ↦ elim (Option-cases s.brought) [
        | inl f ↦ rw (fetch_executable, e, f) (λ h. cc, λ h. (refl, λ k. cc))
        | inr ((build, run), f) ↦
            let (sound', marked, again) = built_lem md5sum s build run in
            rw (fetch_executable, e, f) (sound', λ h. (marked, again))
      ]
    ]
