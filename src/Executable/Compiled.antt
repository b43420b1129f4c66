-- ===== src/Executable/Compiled.antt =====
-- When a submission counts as compiled.
use judge_system.Base.{
  ◌==◌, ◌≡◌, refl, sym, ap, ◌∙◌, Bool, true, false, not, ◌&&◌, ◌||◌, String, List, [], ◌∷◌, is_nil,
  all, Option-cases, inl, inr, arith,
}
use judge_system.Programming.{Program}
use judge_system.Programming.Verify.{is_null}
use judge_system.Executable.{Compilation, fetch_files, fetch_source_code}

-- Every file has a safe name and is downloaded.
abbrev pub obtained : Compilation → List String → Bool
obtained c names = all (λ name. c.is_safe name && c.downloads name) names

pub fetch_files_lem :
    (c : Compilation) (names : List String) → is_null (fetch_files c names) ≡ obtained c names
unfolding fetch_files
fetch_files_lem c [] = refl
fetch_files_lem c (name ∷ rest) = ground (arith, fetch_files_lem c rest)

-- Everything that a compilation needs is there and the compiler succeeds.
abbrev pub compiles : Compilation → Program → Bool
compiles c program =
    ((obtained c program.source_files && obtained c program.assist_files)
      && not (is_nil program.source_files))
    && (c.script && c.exit_code == 0)

-- After a call `.compiled` is there exactly if it was before, or if the program has source files, all
-- its files have safe names and are downloaded, the compile script is there and compile.sh ends with 0.
-- A call that leaves it out throws, unless the program has no source files.
pub fetch_source_code_lem :
    (c : Compilation) (program : Program) (compiled : Bool)
    → ((fetch_source_code c program compiled).0 ≡ (compiled || compiles c program))
      × ((fetch_source_code c program compiled).0 ≡ false
          → is_nil program.source_files ≡ false
          → is_null (fetch_source_code c program compiled).1 ≡ false)
unfolding fetch_source_code
fetch_source_code_lem c program true = (refl, λ h. cc)
fetch_source_code_lem c program false = elim (Option-cases (fetch_files c program.source_files)) [
  | inr (e, f) ↦
      let lacking = sym (fetch_files_lem c program.source_files) ∙ ap is_null f in
      rw (fetch_source_code, f) (ground (arith, lacking), λ h k. refl)
  | inl f ↦
      let sources = sym (fetch_files_lem c program.source_files) ∙ ap is_null f in
      elim (Option-cases (fetch_files c program.assist_files)) [
        | inr (e, g) ↦
            let lacking = sym (fetch_files_lem c program.assist_files) ∙ ap is_null g in
            rw (fetch_source_code, f, g) (ground (arith, lacking), λ h k. refl)
        | inl g ↦
            let assists = sym (fetch_files_lem c program.assist_files) ∙ ap is_null g in
            rw (fetch_source_code, f, g) (ground (arith, sources, assists), ground arith)
      ]
]
