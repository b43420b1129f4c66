-- ===== src/Executable/Retried.antt =====
-- Calls of `program::fetch` one after the other, as the tasks of a submission make them.
use judge_system.Base.{
  ◌==◌, ◌≡◌, refl, sym, ap, ◌∙◌, Bool, true, false, ◌&&◌, ◌||◌, String, List, [], ◌∷◌, is_nil, any,
  map, Option, Option-cases, inl, inr, arith,
}
use judge_system.Programming.{Program}
use judge_system.Programming.Verify.{is_null}
use judge_system.Executable.Compiled.{obtained, fetch_files_lem, compiles, fetch_source_code_lem}
use judge_system.Executable.{
  Compilation, CompiledProgram, source_code, git_repository, CompileError, fetch_files,
  fetch_source_code, fetch_repository, fetch_program, fetch_all,
}

-- The call finds all that it needs, and the compiler succeeds.
abbrev pub succeeds : CompiledProgram → Compilation → Bool
succeeds (source_code program) c = compiles c program
succeeds (git_repository overrides) c =
    (c.clone_exit_code == 0 && obtained c overrides) && c.exit_code == 0

-- A program without source files is never compiled, and no exception says so.
abbrev pub is_empty : CompiledProgram → Bool
is_empty (source_code program) = is_nil program.source_files
is_empty (git_repository overrides) = false

-- Whether each call returns, given whether the program is compiled before them.
abbrev pub returning : CompiledProgram → Bool → List Compilation → List Bool
returning p compiled [] = []
returning p compiled (c ∷ rest) =
    (compiled || succeeds p c) ∷ returning p (compiled || succeeds p c) rest

-- What a call does if the program is not compiled.
abbrev Calls : CompiledProgram → Compilation → Bool → Bool × Option CompileError → Type 0
Calls p c compiled r =
    (r.0 ≡ (compiled || succeeds p c))
    × (is_empty p ≡ false → is_null r.1 ≡ (compiled || succeeds p c))

repository_lem :
    (c : Compilation) (overrides : List String) (compiled : Bool)
    → ((fetch_repository c overrides compiled).0
        ≡ (compiled || succeeds (git_repository overrides) c))
      × (is_null (fetch_repository c overrides compiled).1
          ≡ (compiled || succeeds (git_repository overrides) c))
unfolding fetch_repository
repository_lem c overrides true = (refl, refl)
repository_lem c overrides false = elim (Option-cases (fetch_files c overrides)) [
  | inr (e, f) ↦
      let lacking = sym (fetch_files_lem c overrides) ∙ ap is_null f in
      rw (fetch_repository, f) (ground (arith, lacking), ground (arith, lacking))
  | inl f ↦
      let there = sym (fetch_files_lem c overrides) ∙ ap is_null f in
      rw (fetch_repository, f) (ground (arith, there), ground (arith, there))
]

source_lem :
    (c : Compilation) (program : Program) (compiled : Bool)
    → is_nil program.source_files ≡ false
    → is_null (fetch_source_code c program compiled).1 ≡ (compiled || compiles c program)
unfolding fetch_source_code
source_lem c program true h = refl
source_lem c program false h = elim (Option-cases (fetch_files c program.source_files)) [
  | inr (e, f) ↦
      let lacking = sym (fetch_files_lem c program.source_files) ∙ ap is_null f in
      rw (fetch_source_code, f) (ground (arith, lacking))
  | inl f ↦
      let sources = sym (fetch_files_lem c program.source_files) ∙ ap is_null f in
      elim (Option-cases (fetch_files c program.assist_files)) [
        | inr (e, g) ↦
            let lacking = sym (fetch_files_lem c program.assist_files) ∙ ap is_null g in
            rw (fetch_source_code, f, g) (ground (arith, lacking))
        | inl g ↦
            let assists = sym (fetch_files_lem c program.assist_files) ∙ ap is_null g in
            rw (fetch_source_code, f, g) (ground (arith, sources, assists))
      ]
]

one_call :
    (p : CompiledProgram) (c : Compilation) (compiled : Bool)
    → Calls p c compiled (fetch_program p c compiled)
unfolding fetch_program
one_call (source_code program) c compiled =
    ((fetch_source_code_lem c program compiled).0, source_lem c program compiled)
one_call (git_repository overrides) c compiled =
    let both = repository_lem c overrides compiled in (both.0, λ h. both.1)

-- After any calls, a program is compiled exactly if it was before or one of the calls found all that it
-- needs: each file with a safe name, its download, the clone or the compile script, and a compiler that
-- succeeds. If the program has files, a call returns exactly if it, or one before it, found all; every
-- other call throws.
pub fetch_all_lem :
    (p : CompiledProgram) (cs : List Compilation) (compiled : Bool)
    → ((fetch_all p cs compiled).0 ≡ (compiled || any (succeeds p) cs))
      × (is_empty p ≡ false → map is_null (fetch_all p cs compiled).1 ≡ returning p compiled cs)
unfolding fetch_all
fetch_all_lem p [] compiled = (ground arith, λ h. refl)
fetch_all_lem p (c ∷ rest) compiled =
    let now = one_call p c compiled in
    let later = fetch_all_lem p rest (fetch_program p c compiled).0 in
    (
      later.0 ∙ ground (arith, now.0),
      λ h i. now.1 h i ∷ (later.1 h ∙ ap (λ b. returning p b rest) now.0) i,
    )
