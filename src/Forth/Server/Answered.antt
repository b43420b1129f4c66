-- ===== src/Forth/Server/Answered.antt =====
-- What becomes of a message.
use judge_system.Base.{
  ℕ, suc, ◌+◌, ◌≡◌, refl, Bool, true, false, String, List, [], ◌∷◌, length, length-append, Option,
  none, some, if◌then◌else◌, arith, ◌>>=◌,
}
use judge_system.Submission.{Submission}
use judge_system.Queue.{push}
use judge_system.Programming.{Condition, JudgeTaskResult, ProgrammingSubmission}
use judge_system.Programming.Verify.{is_null}
use judge_system.Choice.{ChoiceQuestion}
use judge_system.Rabbitmq.{report_to}
use judge_system.Forth.Server.{
  ForthSubmission, programming, choice, Delivery, fetch_threw, no_message, delivered, ForthServer,
  ack, ProgrammingJudgeReport, fetch_submission, submission_of, Dumps, ChoiceJudgeReport,
  report_to_server, summarize_invalid, summarize_programming, summarize_choice, summarize,
}

-- The reports on one submission: those of `partials` while it is judged, and the last one.
abbrev pub reported :
    Dumps
    → ForthSubmission
    → List (List JudgeTaskResult)
    → List JudgeTaskResult
    → ForthServer
    → Option ForthServer
reported dumps (choice submit qs) partials last s = summarize dumps (choice submit qs) last true s
reported dumps (programming submit) [] last s = summarize dumps (programming submit) last true s
reported dumps (programming submit) (results ∷ partials) last s =
    summarize dumps (programming submit) results false s >>= λ t.
    reported dumps (programming submit) partials last t

-- The way of one message: it is fetched, and if `verify` refuses what it carries then it is answered by
-- `summarize_invalid`, else by the reports.
abbrev pub answered :
    Dumps
    → Bool
    → List (List JudgeTaskResult)
    → List JudgeTaskResult
    → Option (Option ForthSubmission) × ForthServer
    → Option ForthServer
answered dumps verified partials last (none, s) = some s
answered dumps verified partials last (some none, s) = some s
answered dumps true partials last (some (some sub), s) = reported dumps sub partials last s
answered dumps false partials last (some (some sub), s) = some (summarize_invalid s)

-- What goes out for one message: reports, and acknowledgements.
abbrev pub reports : Option (Option ForthSubmission) → Bool → ℕ → ℕ
reports none verified n = 0
reports (some none) verified n = 0
reports (some (some sub)) false n = 0
reports (some (some (programming submit))) true n = suc n
reports (some (some (choice submit qs))) true n = 1

abbrev pub messages : Delivery → ℕ
messages (delivered m) = 1
messages _ = 0

abbrev pub queued : ForthServer → ℕ
queued s = length s.judge_reporter.write_queue.q

-- A call that returns has queued so many reports and acknowledged so many messages.
record Went (o : Option ForthServer) (s : ForthServer) (reports acks : ℕ) : Type 0 where
  after : ForthServer
  returned : o ≡ some after
  sent : queued after ≡ queued s + reports
  told : after.acked ≡ s.acked + acks

module _ (dumps : Dumps)
    (programming_dumps : (r : ProgrammingJudgeReport)
      → is_null (dumps.programming_report r) ≡ false)
    (choice_dumps : (r : ChoiceJudgeReport) → is_null (dumps.choice_report r) ≡ false) where
  queued-report :
      (submit : Submission) (text : String) (s : ForthServer)
      → queued (report_to_server submit text s) ≡ queued s + 1
  unfolding report_to_server report_to push
  queued-report submit text s = length-append s.judge_reporter.write_queue.q _

  acked-report :
      (submit : Submission) (text : String) (s : ForthServer)
      → (report_to_server submit text s).acked ≡ s.acked
  unfolding report_to_server
  acked-report submit text s = refl

  summarize_programming-Went :
      (submit : ProgrammingSubmission) (results : List JudgeTaskResult) (final : Bool)
      (s : ForthServer)
      → Went (summarize_programming dumps submit results final s) s 1 (if final then 1 else 0)
  unfolding summarize_programming ◌>>=◌
  summarize_programming-Went submit results final s = by_text _ (programming_dumps _) final
    where
      by_text :
          (o : Option String)
          → is_null o ≡ false
          → (final : Bool)
          → Went
              (o >>= λ text. some (
                if final
                then ack (report_to_server submit.base text s)
                else report_to_server submit.base text s))
              s
              1
              (if final then 1 else 0)
      by_text none e final = cc
      by_text (some text) e true = record {
        after = ack (report_to_server submit.base text s);
        returned = refl;
        sent = queued-report submit.base text s;
        told = omega (arith, acked-report submit.base text s);
      }
      by_text (some text) e false = record {
        after = report_to_server submit.base text s;
        returned = refl;
        sent = queued-report submit.base text s;
        told = omega (arith, acked-report submit.base text s);
      }

  summarize_choice-Went :
      (submit : Submission) (qs : List ChoiceQuestion) (s : ForthServer)
      → Went (summarize_choice dumps submit qs s) s 1 1
  unfolding summarize_choice ◌>>=◌
  summarize_choice-Went submit qs s = by_text _ (choice_dumps _)
    where
      by_text :
          (o : Option String)
          → is_null o ≡ false
          → Went (o >>= λ text. some (ack (report_to_server submit text s))) s 1 1
      by_text none e = cc
      by_text (some text) e = record {
        after = ack (report_to_server submit text s);
        returned = refl;
        sent = queued-report submit text s;
        told = omega (arith, acked-report submit text s);
      }

  reported-Went :
      (sub : ForthSubmission) (partials : List (List JudgeTaskResult)) (last : List JudgeTaskResult)
      (s : ForthServer)
      → Went
          (reported dumps sub partials last s)
          s
          (reports (some (some sub)) true (length partials))
          1
  unfolding summarize ◌>>=◌
  reported-Went (choice submit qs) partials last s = summarize_choice-Went submit qs s
  reported-Went (programming submit) [] last s = summarize_programming-Went submit last true s
  reported-Went (programming submit) (results ∷ partials) last s =
      let first = summarize_programming-Went submit results false s in
      let rest = reported-Went (programming submit) partials last first.after in
      record {
        after = rest.after;
        returned = rw first.returned rest.returned;
        sent = omega (arith, first.sent, rest.sent);
        told = omega (arith, first.told, rest.told);
      }

-- If every report has a text, the server acknowledges exactly the messages that it was given, each once,
-- whether they can be read or not, whether `verify` accepts what they carry or not, and however often a
-- submission is reported while it is judged. For an accepted programming submission it queues those
-- reports and the last one, for an accepted choice submission one, and for all else none.
pub answered_lem :
    (dumps : Dumps)
    → ((r : ProgrammingJudgeReport) → is_null (dumps.programming_report r) ≡ false)
    → ((r : ChoiceJudgeReport) → is_null (dumps.choice_report r) ≡ false)
    → (junk : Condition) (fresh : ProgrammingSubmission) (delivery : Delivery) (s : ForthServer)
      (verified : Bool) (partials : List (List JudgeTaskResult)) (last : List JudgeTaskResult)
    → (t : ForthServer) × (answered dumps verified partials last
          (fetch_submission junk fresh delivery s)
        ≡ some t)
      × (queued t
          ≡ queued s
            + reports (fetch_submission junk fresh delivery s).0 verified (length partials))
      × (t.acked ≡ s.acked + messages delivery)
unfolding fetch_submission summarize_invalid
answered_lem dumps p c junk fresh fetch_threw s verified partials last =
    (s, refl, omega arith, omega arith)
answered_lem dumps p c junk fresh no_message s verified partials last =
    (s, refl, omega arith, omega arith)
answered_lem dumps p c junk fresh (delivered none) s verified partials last =
    (ack s, refl, omega arith, omega arith)
answered_lem dumps p c junk fresh (delivered (some j)) s verified partials last =
    by_read (submission_of junk fresh j) verified
  where
    by_read :
        (o : Option ForthSubmission) (verified : Bool)
        → (let f : Option (Option ForthSubmission) × ForthServer = elim o [
          | none ↦ (none, ack s)
          | some sub ↦ (some (some sub), s)
        ] in
            (t : ForthServer) × (answered dumps verified partials last f ≡ some t)
            × (queued t ≡ queued s + reports f.0 verified (length partials))
            × (t.acked ≡ s.acked + 1))
    by_read none verified = (ack s, refl, omega arith, refl)
    by_read (some sub) false = (ack s, refl, omega arith, refl)
    by_read (some sub) true =
        let w = reported-Went dumps p c sub partials last s in (w.after, w.returned, w.sent, w.told)
