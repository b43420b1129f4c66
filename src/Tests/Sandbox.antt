-- ===== src/Tests/Sandbox.antt =====
-- Runs under runguard, and the compilation of programs.
use judge_system.Base.{some, none, ◌≡◌, refl, true, false, ◌&&◌, List, [], ◌∷◌, map, ◌<◌, arith}
use judge_system.Programming.{Program, empty_program}
use judge_system.Programming.Verify.{is_null}
use judge_system.Runguard.{
  Options, WaitStatus, Ended, watch, terminate, exit_code, soft_limits, output_timelimit_str,
}
use judge_system.Runguard.TimeResult.{watch_lem}
use judge_system.Runguard.Metadata.{
  append_meta, append_all, get_lines, read_lines, split_line, assign, read_metadata, lookup,
  bytes_eq, last_value, read_metadata-append_all, Bytes,
}
use judge_system.Executable.{
  Deployment, Compilation, is_dirty, fetch_executable, cleaned, source_code, git_repository,
  compilation_error, fetch_files, fetch_repository, fetch_program, fetch_all,
}
use judge_system.Executable.Deployed.{IsSound, fetch_executable_lem}
use judge_system.Executable.Retried.{fetch_all_lem}

-- One second of wall time.
abbrev options : Options
options = record {
  use_wall_limit = true;
  wall_soft = 1000000000;
  use_cpu_limit = false;
  cpu_soft = 0;
}

abbrev killed : Ended
killed = record { exitcode = 143; signal = some 15; time_result = "hard-timelimit" }

-- The alarm comes, and the command dies of SIGTERM.
watch_lem_example : (143 < 256) × (killed.time_result ≡ "hard-timelimit")
unfolding watch terminate exit_code soft_limits output_timelimit_str
watch_lem_example =
    watch_lem options (some 14) (WaitStatus.signaled 15) 2000000000 500 killed (omega arith) refl

-- "a" is written twice, with the values "x: y" and "".
abbrev entries : List (Bytes × Bytes)
entries = (97 ∷ [], 120 ∷ 58 ∷ 32 ∷ 121 ∷ []) ∷ (98 ∷ [], 122 ∷ []) ∷ (97 ∷ [], []) ∷ []

read_metadata-append_all_example :
    ((key : Bytes)
      → lookup key (read_metadata (append_all true entries)) ≡ last_value key entries none)
    × (append_all false entries ≡ [])
read_metadata-append_all_example =
    read_metadata-append_all entries
      ((refl, refl, refl), ((refl, refl, refl), ((refl, refl, refl), tt)))

last_written : lookup (97 ∷ []) (read_metadata (append_all true entries)) ≡ some []
unfolding lookup read_metadata read_lines split_line assign get_lines append_all append_meta
    bytes_eq
last_written = refl

abbrev deployment : Deployment
deployment = record { brought = some (true, false); exit_code = 0; made_run = true }

-- An executable with an MD5 sum stays dirty.
fetch_executable_lem_example :
    IsSound (fetch_executable "d41d8" deployment cleaned cleaned).0
    × ((is_dirty "d41d8" cleaned && is_dirty "d41d8" cleaned) ≡ true
        → ((fetch_executable "d41d8" deployment cleaned cleaned).0.deployed
            ≡ is_null (fetch_executable "d41d8" deployment cleaned cleaned).1)
          × ((fetch_executable "d41d8" deployment cleaned cleaned).1 ≡ none
              → is_dirty "d41d8" (fetch_executable "d41d8" deployment cleaned cleaned).0 ≡ true))
fetch_executable_lem_example = fetch_executable_lem "d41d8" deployment cleaned cleaned (λ h. cc)

abbrev compilation : Compilation
compilation = record {
  is_safe = λ name. true;
  downloads = λ name. true;
  clone_exit_code = 0;
  script = true;
  exit_code = 45;
}

abbrev source : Program
source = record empty_program { source_files = "main.cpp" ∷ []; language = "cpp" }

-- The compiler fails at first; the third call finds `.compiled`.
abbrev attempts : List Compilation
attempts = compilation ∷ record compilation { exit_code = 0 } ∷ compilation ∷ []

fetch_all_lem_example :
    ((fetch_all (source_code source) attempts false).0 ≡ true)
    × (false ≡ false
        → map is_null (fetch_all (source_code source) attempts false).1 ≡ false ∷ true ∷ true ∷ [])
fetch_all_lem_example = fetch_all_lem (source_code source) attempts false

cloned :
    fetch_all (git_repository ("Makefile" ∷ [])) attempts false
    ≡ (true, some compilation_error ∷ none ∷ none ∷ [])
unfolding fetch_all fetch_program fetch_repository fetch_files
cloned = refl
