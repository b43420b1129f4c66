-- ===== src/Mcourse/Request/Acknowledged.antt =====
-- When `fetch_submission` acknowledges a message.
use judge_system.Base.{◌≡◌, Bool, true, false, not, ◌&&◌, String, Option, none, some, ℤ, any}
use judge_system.Submission.{Submission}
use judge_system.Programming.Verify.{is_null}
use judge_system.Mcourse.Summary.Returns.{is_acked}
use judge_system.Mcourse.Request.{
  Message, JudgeRequest, ProblemType, programming, choice, output, program_blank_filling, Received,
  Fetched, from_json,
}

-- No submission is made for this type of problem.
abbrev pub is_blank_type : ProblemType → Bool
is_blank_type program_blank_filling = true
is_blank_type programming = false
is_blank_type choice = false
is_blank_type output = false

abbrev pub asks_blank : Option JudgeRequest → Bool
asks_blank none = false
asks_blank (some request) = is_blank_type request.prob_type

-- The message that is there asks for such a type.
abbrev pub is_blank : (String → Option ℤ) → Option (Option Message) → Bool
is_blank lexical_cast (some (some j)) = asks_blank (from_json lexical_cast j)
is_blank lexical_cast (some none) = false
is_blank lexical_cast none = false

-- Acknowledged or returned, and a submission exactly with true unless there is none for the type.
abbrev pub IsAnswer : Bool → Fetched → Type 0
IsAnswer blank f =
    (any is_acked f.effects ≡ is_null f.returned)
    × (not (is_null f.submit) ≡ (elim f.returned [ none ↦ false | some b ↦ b ] && not blank))

-- Without an exception the pointer is empty exactly for such a type.
Shown : Bool → Option (Option Received) → Type 0
Shown blank none = Unit
Shown blank (some pointer) = not (is_null pointer) ≡ not blank
