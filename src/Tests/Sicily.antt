-- ===== src/Tests/Sicily.antt =====
-- A contest's submission with two tests, judged by the Sicily server.
use judge_system.Base.{
  pos, some, none, ◌≡◌, refl, true, false, List, [], ◌∷◌, length, arith, any, ℕ, suc, Option,
  get_elem?,
}
use judge_system.Status.{accepted, wrong_answer}
use judge_system.Programming.{ProgrammingSubmission, JudgeTask, JudgeTaskResult, new_result}
use judge_system.Programming.Verify.{verify}
use judge_system.Programming.Judge.BaseDirs.{FilesEarlier}
use judge_system.Sicily.Fetch.{Site, fetch_queue, case_tasks}
use judge_system.Sicily.Fetch.Accepted.{fetch_queue-verify}
use judge_system.Sicily.Summary.{Found}
use judge_system.Sicily.Summary.Unset.{Call, gives_verdict, summarize_all, fetched_without_verdict}
use judge_system.Tests.Programming.{base, sample}

abbrev site : Site
site = record {
  queue =
      record {
        qid = "5";
        sid = "12";
        uid = "3";
        pid = "1001";
        language = "cpp";
        time = "";
        cid = "8";
        cpid = "2";
        sourcecode = "int main() {}";
      }
      ∷ [];
  contest = some ("", pos 5);
  problem = some (record {
    time_limit = pos 1000;
    memory_limit = pos 32768;
    special_judge = pos 0;
    has_framework = pos 0;
  });
  cases = ("1.in", "1.out") ∷ ("2.in", "2.out") ∷ [];
  time_stamp = λ text. pos 0;
  script_time_limit = pos 10000;
  script_mem_limit = pos 1048576;
  script_file_limit = pos 1048576;
}

abbrev or_sample : Option (ProgrammingSubmission × Option JudgeTaskResult) → ProgrammingSubmission
or_sample none = sample
or_sample (some x) = x.0

abbrev submit : ProgrammingSubmission
submit = or_sample (fetch_queue site base)

abbrev no_config : Option JudgeTaskResult
no_config = none

fetch_queue-verify_example :
    (no_config ≡ none)
    × (verify (some submit) ≡ true)
    × ((i : ℕ) (t : JudgeTask)
        → get_elem? submit.judge_tasks (suc i) ≡ some t
        → t.depends_on ≡ pos i)
    × FilesEarlier submit.judge_tasks
unfolding fetch_queue case_tasks
fetch_queue-verify_example = fetch_queue-verify site base submit none refl (omega arith)

abbrev results : List JudgeTaskResult
results =
    new_result accepted "Compile" 0 ∷ new_result accepted "" 1 ∷ new_result wrong_answer "" 2 ∷ []

abbrev found : Found
found = record { solved_before = false; in_stock = true; rank = none }

abbrev calls : List Call
calls =
    record { found = found; results = results; finished = 1 }
    ∷ record { found = found; results = results; finished = 2 }
    ∷ record { found = found; results = results; finished = 3 }
    ∷ []

fetched_without_verdict_example :
    any gives_verdict (summarize_all submit.base (length submit.test_data) none calls) ≡ false
unfolding fetch_queue
fetched_without_verdict_example = fetched_without_verdict site base submit none refl calls
