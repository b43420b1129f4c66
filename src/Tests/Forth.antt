-- ===== src/Tests/Forth.antt =====
-- A submission in a message of the Forth server, and its reports.
use judge_system.Base.{◌≡◌, ◌≤◌, refl, true, false, some, none, [], ◌∷◌, map, ℤ, pos, arith, ◌>>=◌}
use judge_system.Programming.{
  Condition, JudgeTask, ProgrammingSubmission, default_task, empty_program,
}
use judge_system.Forth.{programming_submission_of, read_all, asset_of, local_asset}
use judge_system.Forth.Message.{submission_entry, asset_entry}
use judge_system.Forth.Read.{programming_submission_of-entry}
use judge_system.Rabbitmq.{new_channel}
use judge_system.Choice.{Word, ChoiceQuestion, judge_choices}
use judge_system.Forth.Server.{
  MessageEntry, ChoiceEntry, delivered, ForthServer, fetch_submission, submission_of,
  choice_question_of, base_of, Dumps, choice_report_of,
}
use judge_system.Forth.Server.Answered.{answered, queued, answered_lem}
use judge_system.Forth.Server.Totals.{total, grade_of, choice_report_lem}
use judge_system.Tests.Programming.{sample, base}

abbrev watched_task : JudgeTask
watched_task = record default_task {
  tag = "1";
  check_script = "standard";
  depends_on = pos 0;
  actions =
      record {
        tag = "output";
        cond = Condition.non_accepted;
        kind = "read";
        url = "";
        path = "$RUNDIR/run/testdata.out";
        file_limit = pos 1024;
      }
      ∷ [];
}

abbrev sent : ProgrammingSubmission
sent = record {
  base = base;
  judge_tasks = default_task ∷ watched_task ∷ [];
  test_data = record { inputs = "testdata.in" ∷ []; outputs = "testdata.out" ∷ [] } ∷ [];
  submission = some (record empty_program {
    source_files = "Makefile" ∷ [];
    repository = some (record {
      url = "https://git/prob";
      commit = "9a1";
      username = "u";
      password = "p";
      overrides = [];
    });
  });
  standard = some (record empty_program { source_files = "main.cpp" ∷ []; language = "cpp" });
  random = none;
  compare = none;
}

-- A submission that is about to be read.
abbrev fresh : ProgrammingSubmission
fresh = record sample { judge_tasks = []; test_data = []; submission = none }

programming_submission_of-entry_example :
    (programming_submission_of Condition.always fresh (submission_entry sent) ≡ some sent)
    × (asset_of (asset_entry (local_asset "spjudge" "1001/spjudge"))
        ≡ some (local_asset "spjudge" "1001/spjudge"))
programming_submission_of-entry_example =
    programming_submission_of-entry Condition.always fresh sent
      (local_asset "spjudge" "1001/spjudge") (refl, refl, refl, refl, refl)
      (record {
        tasks = ((refl, refl, refl, refl, refl), ((refl, refl, refl, refl, refl), tt));
        submission = (refl, refl, refl);
        standard = tt;
        compare = tt;
        random = tt;
      })

abbrev question : ChoiceEntry
question = record {
  kind = some "multi";
  grade = some 0;
  full_grade = some 10;
  half_grade = some 5;
  student_answer = some (pos 1 ∷ []);
  standard_answer = some (pos 1 ∷ pos 2 ∷ []);
}

abbrev choice_message : MessageEntry
choice_message = record {
  kind = some "choice";
  category = some "soj";
  prob_id = none;
  sub_id = some "42";
  updated_at = none;
  programming = submission_entry sent;
  questions = some (question ∷ []);
}

abbrev dumps : Dumps
dumps = record { programming_report = λ r. some "{}"; choice_report = λ r. some "{}" }

abbrev forth_server : ForthServer
forth_server = record { judge_reporter = new_channel "reports"; acked = 0 }

answered_lem_example :
    (t : ForthServer) × (answered dumps true [] []
        (fetch_submission Condition.always sample (delivered (some choice_message)) forth_server)
      ≡ some t)
    × (queued t ≡ 1)
    × (t.acked ≡ 1)
unfolding fetch_submission submission_of choice_question_of base_of read_all ◌>>=◌
answered_lem_example =
    answered_lem dumps (λ r. refl) (λ r. refl) Condition.always sample
      (delivered (some choice_message)) forth_server true [] []

abbrev half_question : ChoiceQuestion
half_question = record {
  kind = "multi";
  grade = 0;
  full_grade = 10;
  half_grade = 5;
  student_answer = pos 1 ∷ [];
  standard_answer = pos 1 ∷ pos 2 ∷ [];
}

abbrev nothing_shifted : ℤ → Word
nothing_shifted z i = false

choice_report_lem_example :
    ((choice_report_of base (judge_choices nothing_shifted (half_question ∷ []))).results
      ≡ map grade_of (judge_choices nothing_shifted (half_question ∷ [])))
    × ((choice_report_of base (judge_choices nothing_shifted (half_question ∷ []))).grade
        ≡ total (map grade_of (judge_choices nothing_shifted (half_question ∷ []))))
    × ((choice_report_of base (judge_choices nothing_shifted (half_question ∷ []))).full_grade ≡ 10)
    × ((choice_report_of base (judge_choices nothing_shifted (half_question ∷ []))).grade
        ≤ (choice_report_of base (judge_choices nothing_shifted (half_question ∷ []))).full_grade)
choice_report_lem_example =
    choice_report_lem nothing_shifted base (half_question ∷ []) (omega arith, tt)
