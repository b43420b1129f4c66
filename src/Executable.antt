-- ===== src/Executable.antt =====
-- src/program.cpp: the deployment of an executable and the compilation of a submission. The file system
-- is the few facts that the code asks for; downloads and scripts are arguments with their outcomes.
pub mod Deployed
pub mod Compiled
pub mod Retried
use judge_system.Base.{
  ℕ, zero, suc, ◌==◌, Bool, true, false, not, ◌&&◌, ◌||◌, String, str_eq, List, [], ◌∷◌, Option,
  none, some, is_nil, if◌then◌else◌, any,
}
use judge_system.Programming.{Program}

-- The directory of an executable: is it there, is `.deployed`, what does `md5sum` contain, and are
-- `compile/build` and `compile/run` there?
pub record Directory : Type 0 where
  pub is_directory : Bool
  pub deployed : Bool
  pub md5 : Option String
  pub build : Bool
  pub run : Bool

-- `clean_locked_directory`
abbrev pub cleaned : Directory
cleaned = record { is_directory = true; deployed = false; md5 = none; build = false; run = false }

abbrev pub md5_differs : String → Option String → Bool
md5_differs md5sum none = true
md5_differs md5sum (some content) = not (str_eq content md5sum)

unfoldable pub is_dirty : String → Directory → Bool
is_dirty md5sum d =
    not d.is_directory || not d.deployed || (not (str_eq md5sum "") && md5_differs md5sum d.md5)

pub data FetchError : Type 0 where
  asset_error executable_compilation_error internal_error executable_malformed : FetchError

abbrev e_compiler_error : ℕ
e_compiler_error = 45

-- What the asset brings (`none` if it throws), and the exit code of compile_executable.sh with whether
-- it made `compile/run`. An asset writes below `compile` only.
pub record Deployment : Type 0 where
  pub brought : Option (Bool × Bool)
  pub exit_code : ℕ
  pub made_run : Bool

-- From the build on: `run` says whether the asset brought it.
abbrev pub built : Deployment → Bool → Bool → Directory × Option FetchError
built s build run =
    let there : Bool = run || (build && s.made_run) in
    let d : Directory = record {
      is_directory = true;
      deployed = false;
      md5 = none;
      build = build;
      run = there;
    } in
    if build && not (s.exit_code == 0)
    then (
      d,
      some (
          if s.exit_code == e_compiler_error then executable_compilation_error else internal_error),
    )
    else if not there
    then (d, some executable_malformed)
    else (record d { deployed = true }, none)

-- `executable::fetch`: the directory as the first check finds it, and as it is after the lock was taken.
-- The directory after the call, and the exception if there is one.
unfoldable pub fetch_executable :
    String → Deployment → Directory → Directory → Directory × Option FetchError
unfolding is_dirty
fetch_executable md5sum s before locked =
    if is_dirty md5sum before && is_dirty md5sum locked
    then elim s.brought [
      | none ↦ (cleaned, some asset_error)
      | some (build, run) ↦ built s build run
    ]
    else (locked, none)

pub data CompileError : Type 0 where
  unsafe_path fetch_error compilation_error internal : CompileError

-- The environment of a compilation: is a name a safe path, does its download succeed, is the compile
-- script there, and the exit codes of git_clone.sh and of compile.sh.
pub record Compilation : Type 0 where
  pub clone_exit_code : ℕ
  pub is_safe : String → Bool
  pub downloads : String → Bool
  pub script : Bool
  pub exit_code : ℕ

-- The loop over the files: the first failure.
unfoldable pub fetch_files : Compilation → List String → Option CompileError
fetch_files c [] = none
fetch_files c (name ∷ rest) =
    let later = fetch_files c rest in
    if not (c.is_safe name)
    then some unsafe_path
    else if not (c.downloads name)
    then some fetch_error
    else later

-- `source_code::fetch`, from whether `.compiled` is there to whether it is there after the call, with
-- the exception if there is one.
unfoldable pub fetch_source_code : Compilation → Program → Bool → Bool × Option CompileError
unfolding fetch_files
fetch_source_code c program compiled =
    if compiled then (true, none) else elim (fetch_files c program.source_files) [
      | some e ↦ (false, some e)
      | none ↦ elim (fetch_files c program.assist_files) [
        | some e ↦ (false, some e)
        | none ↦
            if is_nil program.source_files
            then (false, none)
            else if not c.script
            then (false, some fetch_error)
            else if c.exit_code == 0
            then (true, none)
            else (
              false,
              some (if c.exit_code == e_compiler_error then compilation_error else internal),
            )
      ]
    ]

-- `git_repository::fetch`; the files replace those of the repository.
unfoldable pub fetch_repository : Compilation → List String → Bool → Bool × Option CompileError
unfolding fetch_files
fetch_repository c overrides compiled =
    if compiled
    then (true, none)
    else if not (c.clone_exit_code == 0)
    then (false, some compilation_error)
    else elim (fetch_files c overrides) [
      | some e ↦ (false, some e)
      | none ↦ if c.exit_code == 0 then (true, none) else (
        false,
        some (if c.exit_code == e_compiler_error then compilation_error else internal),
      )
    ]

-- A program that is compiled by compile.sh.
pub data CompiledProgram : Type 0 where
  source_code : Program → CompiledProgram
  git_repository : List String → CompiledProgram

-- The calls of `program::fetch` for one directory, which its lock puts one after the other: is `.compiled`
-- there in the end, and how does each call end?
unfoldable pub fetch_program : CompiledProgram → Compilation → Bool → Bool × Option CompileError
unfolding fetch_source_code fetch_repository
fetch_program (source_code program) c compiled = fetch_source_code c program compiled
fetch_program (git_repository overrides) c compiled = fetch_repository c overrides compiled

unfoldable pub fetch_all :
    CompiledProgram → List Compilation → Bool → Bool × List (Option CompileError)
unfolding fetch_program
fetch_all p [] compiled = (compiled, [])
fetch_all p (c ∷ rest) compiled =
    let (now, result) = fetch_program p c compiled in
    let (later, results) = fetch_all p rest now in (later, result ∷ results)
