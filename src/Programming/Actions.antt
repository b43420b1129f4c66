-- ===== src/Programming/Actions.antt =====
-- `action::act` and `read_action::act` of src/judge/programming.cpp. The file system, the expansion of
-- $DATADIR and $RUNDIR and the upload are outside: `Files`.
use text.Mathlib.Text.{starts_with}
use judge_system.Base.{
  ℕ, Bool, true, false, not, ◌&&◌, ◌||◌, List, [], ◌∷◌, ◌++◌, String, ℤ, pos, negsuc, str_eq, leb,
  ◌-◌, ◌^◌, if◌then◌else◌, Option, none, some, ◌>>=◌,
}
use judge_system.Status.{Status, accepted, partial_correct, status_eq}
use judge_system.Programming.{
  FilePath, Condition, always, accepted_only, non_accepted, partial_correct_only,
  non_partial_correct, ReadAction, ActionResult, JudgeTaskResult,
}

pub record Files : Type 0 where
  -- The text of `path` with the two directories in the place of their names.
  pub expand : String → FilePath → FilePath → String
  pub absolute : String → String
  pub text_of : FilePath → String  -- `path::string`
  pub exists : String → Bool
  pub content : String → ℤ → Option String  -- `read_file_content`; `none` is an exception
  pub size : String → Option ℕ  -- `file_size`; `none` is an exception
  pub upload : String → String → Bool  -- `upload_file` to a URL: does it end without an exception?

-- What an action does: whether it succeeds, the text it returns, and the file it uploads.
pub record Acted : Type 0 where
  pub success : Bool
  pub text : String
  pub uploads : List String

unfoldable pub act : Condition → Status → Bool
act accepted_only s = status_eq s accepted
act non_accepted s = not (status_eq s accepted)
act partial_correct_only s = status_eq s accepted || status_eq s partial_correct
act non_partial_correct s = not (status_eq s accepted) && not (status_eq s partial_correct)
act always s = true

-- `static_cast<uintmax_t>` of an int.
unfoldable pub to_uintmax : ℤ → ℕ
to_uintmax (pos n) = n
to_uintmax (negsuc n) = 2 ^ 64 - 1 - n

abbrev pub refused : Acted
refused = record { success = false; text = ""; uploads = [] }

-- The directory that $RUNDIR names.
abbrev pub run_of : JudgeTaskResult → FilePath
run_of r = r.run_dir ++ "run" ∷ []

-- The result of an action that returns the content of a file; `none` is an exception.
abbrev read_text : Option String → Option Acted
read_text none = none
read_text (some text) = some (record { success = true; text = text; uploads = [] })

-- The result of an action that uploads the file `p`.
abbrev upload_of : Files → ReadAction → String → Option Acted
upload_of files action p =
    if files.upload action.url p
    then some (record { success = true; text = ""; uploads = p ∷ [] })
    else none

-- The part of `read_action::act` after the guards, for the text `path` that is the absolute path `p`.
unfoldable pub hand_out : Files → ReadAction → String → String → Option Acted
unfolding to_uintmax
hand_out files action path p =
    if str_eq action.kind "text"
    then read_text (files.content path action.file_limit)
    else if str_eq action.kind "upload"
    then upload_of files action p
    else if str_eq action.kind "both"
    then elim (files.size path) [
      | none ↦ none
      | some size ↦
          if leb size (to_uintmax action.file_limit)
          then read_text (files.content path action.file_limit)
          else upload_of files action p
    ]
    else some refused

-- `none` is an exception.
unfoldable pub read_act : Files → ReadAction → JudgeTaskResult → Option Acted
unfolding act hand_out
read_act files action r =
    let path : String = files.expand action.path r.data_dir (run_of r) in
    let p : String = files.absolute path in
    if not (act action.cond r.status)
    then some refused
    else if not (starts_with p (files.text_of r.data_dir))
        && not (starts_with p (files.text_of (run_of r)))
    then some refused
    else if not (files.exists p)
    then some refused
    else hand_out files action path p

-- The loop over the actions of a task: the reports, and the files that are uploaded. An exception ends
-- it.
unfoldable pub act_all :
    Files → List ReadAction → JudgeTaskResult → Option (List ActionResult × List String)
unfolding read_act ◌>>=◌
act_all files [] r = some ([], [])
act_all files (a ∷ rest) r = do
  done ← read_act files a r
  later ← act_all files rest r
  some (
    record { tag = a.tag; result = done.text; success = done.success } ∷ later.0,
    done.uploads ++ later.1,
  )
