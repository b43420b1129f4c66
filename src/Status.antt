-- ===== src/Status.antt =====
-- include/common/status.hpp and src/common/status.cpp: the verdicts and their display texts.
pub mod Lookup
pub mod Phase
use judge_system.Base.{
  ℕ, zero, suc, ◌≡◌, refl, ◌≢◌, Bool, true, false, Option, none, some, List, [], ◌∷◌, String, arith,
  ◌==◌, ==_iff, if◌then◌else◌, ap, ◌↔◌,
}

pub data Status : Type 0 where
  pending : Status
  running : Status
  accepted : Status
  partial_correct : Status
  compilation_error : Status
  executable_compilation_error : Status
  dependency_not_satisfied : Status
  wrong_answer : Status
  runtime_error : Status
  time_limit_exceeded : Status
  memory_limit_exceeded : Status
  output_limit_exceeded : Status
  presentation_error : Status
  restrict_function : Status
  out_of_contest_time : Status
  compiling : Status
  segmentation_fault : Status
  floating_point_error : Status
  random_gen_error : Status
  compare_error : Status
  system_error : Status

-- The enumerators' values.
unfoldable pub code : Status → ℕ
code pending = 0
code running = 1
code accepted = 2
code partial_correct = 3
code compilation_error = 4
code executable_compilation_error = 5
code dependency_not_satisfied = 6
code wrong_answer = 7
code runtime_error = 8
code time_limit_exceeded = 9
code memory_limit_exceeded = 10
code output_limit_exceeded = 11
code presentation_error = 12
code restrict_function = 13
code out_of_contest_time = 14
code compiling = 15
code segmentation_fault = 16
code floating_point_error = 17
code random_gen_error = 18
code compare_error = 19
code system_error = 20

-- `==` on the enumeration compares the values.
unfoldable pub status_eq : Status → Status → Bool
unfolding code
status_eq a b = code a == code b

-- A table as the code writes it, and `at`: `none` is the exception `out_of_range`.
unfoldable pub at : Status → List (Status × String) → Option String
unfolding status_eq
at s [] = none
at s ((k, text) ∷ rest) = if status_eq k s then some text else at s rest

abbrev pub status_string : List (Status × String)
status_string =
    (pending, "Pending")
    ∷ (running, "Running")
    ∷ (accepted, "Accepted")
    ∷ (partial_correct, "Partial Correct")
    ∷ (compilation_error, "Compilation Error")
    ∷ (executable_compilation_error, "Executable Compilation Error")
    ∷ (dependency_not_satisfied, "Dependency Not Satisfied")
    ∷ (wrong_answer, "Wrong Answer")
    ∷ (runtime_error, "Runtime Error")
    ∷ (time_limit_exceeded, "Time Limit Exceeded")
    ∷ (memory_limit_exceeded, "Memory Limit Exceeded")
    ∷ (output_limit_exceeded, "Output Limit Exceeded")
    ∷ (presentation_error, "Presentation Error")
    ∷ (restrict_function, "Restrict Function")
    ∷ (out_of_contest_time, "Out of Contest Time")
    ∷ (compiling, "Compiling")
    ∷ (segmentation_fault, "Segmentation Fault")
    ∷ (floating_point_error, "Floating Point Error")
    ∷ (random_gen_error, "Random Gen Error")
    ∷ (compare_error, "Compare Error")
    ∷ (system_error, "System Error")
    ∷ []

unfoldable pub get_display_message : Status → Option String
unfolding at
get_display_message s = at s status_string

decode : ℕ → Option Status
decode zero = some pending
decode (suc zero) = some running
decode (suc (suc zero)) = some accepted
decode (suc (suc (suc zero))) = some partial_correct
decode (suc (suc (suc (suc zero)))) = some compilation_error
decode (suc (suc (suc (suc (suc zero))))) = some executable_compilation_error
decode (suc (suc (suc (suc (suc (suc zero)))))) = some dependency_not_satisfied
decode (suc (suc (suc (suc (suc (suc (suc zero))))))) = some wrong_answer
decode (suc (suc (suc (suc (suc (suc (suc (suc zero)))))))) = some runtime_error
decode (suc (suc (suc (suc (suc (suc (suc (suc (suc zero))))))))) = some time_limit_exceeded
decode (suc (suc (suc (suc (suc (suc (suc (suc (suc (suc zero)))))))))) = some memory_limit_exceeded
decode (suc (suc (suc (suc (suc (suc (suc (suc (suc (suc (suc zero))))))))))) =
    some output_limit_exceeded
decode (suc (suc (suc (suc (suc (suc (suc (suc (suc (suc (suc (suc zero)))))))))))) =
    some presentation_error
decode (suc (suc (suc (suc (suc (suc (suc (suc (suc (suc (suc (suc (suc zero))))))))))))) =
    some restrict_function
decode (suc (suc (suc (suc (suc (suc (suc (suc (suc (suc (suc (suc (suc (suc zero)))))))))))))) =
    some out_of_contest_time
decode
      (suc
        (suc (suc (suc (suc (suc (suc (suc (suc (suc (suc (suc (suc (suc (suc zero))))))))))))))) =
    some compiling
decode
      (suc (
        suc (
          suc
            (suc (suc (suc (suc (suc (suc (suc (suc (suc (suc (suc (suc (suc zero)))))))))))))))) =
    some segmentation_fault
decode
      (suc (
        suc (
          suc (
            suc (
              suc
                (suc (suc (suc (suc (suc (suc (suc (suc (suc (suc (suc (suc zero))))))))))))))))) =
    some floating_point_error
decode
      (suc (
        suc (
          suc (
            suc (
              suc (
                suc (
                  suc
                    (suc (suc (suc (suc (suc (suc (suc (suc (suc (suc (suc zero)))))))))))))))))) =
    some random_gen_error
decode
      (suc (
        suc (
          suc (
            suc (
              suc (
                suc (
                  suc (
                    suc (
                      suc
                        (suc (suc (suc (suc (suc (suc (suc (suc (suc (suc zero))))))))))))))))))) =
    some compare_error
decode
      (suc (
        suc (
          suc (
            suc (
              suc (
                suc (
                  suc (
                    suc (
                      suc (
                        suc (
                          suc
                            (suc (suc (suc (suc (suc (suc (suc (suc (suc zero)))))))))))))))))))) =
    some system_error
decode _ = none

decode-code : (s : Status) → decode (code s) ≡ some s
unfolding decode code
decode-code pending = refl
decode-code running = refl
decode-code accepted = refl
decode-code partial_correct = refl
decode-code compilation_error = refl
decode-code executable_compilation_error = refl
decode-code dependency_not_satisfied = refl
decode-code wrong_answer = refl
decode-code runtime_error = refl
decode-code time_limit_exceeded = refl
decode-code memory_limit_exceeded = refl
decode-code output_limit_exceeded = refl
decode-code presentation_error = refl
decode-code restrict_function = refl
decode-code out_of_contest_time = refl
decode-code compiling = refl
decode-code segmentation_fault = refl
decode-code floating_point_error = refl
decode-code random_gen_error = refl
decode-code compare_error = refl
decode-code system_error = refl

pub code_injective : (a b : Status) → code a ≡ code b → a ≡ b
code_injective a b e = cc (decode-code a, decode-code b, ap decode e)

pub status_eq_iff : (a b : Status) → (status_eq a b ≡ true) ↔ (a ≡ b)
unfolding status_eq
status_eq_iff a b = (λ h. code_injective a b ((==_iff _ _).0 h), λ e. (==_iff _ _).1 (ap code e))
