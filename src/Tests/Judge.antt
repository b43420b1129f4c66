-- ===== src/Tests/Judge.antt =====
-- The compilation of the submission of Tests.Programming by a worker.
use mathlib.Core.Option.{some-injective}
use mathlib.Core.Path.{subst}
use judge_system.Base.{
  false, negsuc, ℕ, zero, suc, ◌<◌, ◌≡◌, refl, true, false, none, some, List, [], ◌∷◌, pos, arith,
}
use judge_system.Status.{Status, status_eq}
use judge_system.Programming.Process.Invariant.{Earlier}
use judge_system.Programming.{
  ReadAction, Condition, JudgeTask, JudgeTaskResult, default_task, new_result,
}
use judge_system.Programming.Actions.{act, read_act, hand_out, Files, act_all}
use judge_system.Programming.Process.{Progress, process}
use judge_system.Programming.Data.{World, select_standard, done}
use judge_system.Programming.Judge.{
  judge, judge_impl, judge_data, checked, filed, with_actions, verdict, base_dirs, file_parent,
}
use judge_system.Programming.Judge.BaseDirs.{FilesEarlier}
use judge_system.Programming.Judge.Answered.{judge-process}
use judge_system.Programming.Judge.Verdict.{HasData, DataNamed}
use judge_system.Tests.Programming.{
  sample, sample-verify, compile_task, standard_task, s1, r1, message,
}

abbrev files : Files
files = record {
  expand = λ text data_at run_at. text;
  absolute = λ path. path;
  text_of = λ path. "/run";
  exists = λ path. true;
  content = λ path limit. some "ok";
  size = λ path. some 2;
  upload = λ url path. true;
}

-- Every check fails with the exit code of a wrong answer.
abbrev world : World
world = record {
  files = files;
  ratio = λ n d. none;
  decimal = λ n. "0";
  work_dir = "run" ∷ [];
  cache_dir = "cache" ∷ [];
  run_name = "0-test";
  standard_data = λ n. true;
  copy_dir = none;
  max_random_data_num = 100;
  random_count = 0;
  failed_before = λ n. false;
  drawn = 5;
  generated = pos 0;
  system_out = "";
  check = λ dir bases. record {
    ret = pos 43;
    report = "";
    error_log = "";
    numerator = pos 0;
    denominator = pos 1;
    wall_time = pos 10;
    memory = pos 20;
  };
  fetch = λ program. done;
  compile_time = pos 1;
  compile_memory = pos 2;
}

sample-FilesEarlier : FilesEarlier sample.judge_tasks
sample-FilesEarlier zero t e = subst (λ x. Earlier (file_parent x) 0) (some-injective _ _ e) tt
sample-FilesEarlier (suc zero) t e =
    subst (λ x. Earlier (file_parent x) 1) (some-injective _ _ e) (omega arith)
sample-FilesEarlier (suc (suc zero)) t e =
    subst (λ x. Earlier (file_parent x) 2) (some-injective _ _ e) (omega arith)
sample-FilesEarlier (suc (suc (suc i))) t e = cc

sample-DataNamed : DataNamed sample
sample-DataNamed zero t e = subst (HasData 1) (some-injective _ _ e) (λ named n h. cc)
sample-DataNamed (suc zero) t e =
    subst (HasData 1) (some-injective _ _ e) (λ named n h. ground (arith, h))
sample-DataNamed (suc (suc zero)) t e = subst (HasData 1) (some-injective _ _ e) (λ named n h. cc)
sample-DataNamed (suc (suc (suc i))) t e = cc

abbrev result_of : ℕ → Status → JudgeTaskResult
result_of i s = record (new_result s "" i) { status = s; run_dir = "run" ∷ "0-test" ∷ [] }

abbrev seen : List JudgeTaskResult
seen = result_of 0 Status.accepted ∷ result_of 1 Status.running ∷ result_of 2 Status.pending ∷ []

-- The standard test gets the exit code of a wrong answer.
judge_run :
    elim (judge 4 world Status.pending 1 "" sample seen standard_task) [
      | none ↦ Status.pending
      | some r ↦ r.status
    ]
    ≡ Status.wrong_answer
unfolding judge judge_impl judge_data base_dirs checked filed with_actions verdict select_standard
    act_all status_eq
judge_run = refl

judge-process_example :
    (r : JudgeTaskResult) × (q : Progress) × (judge 4 world Status.pending 0 "" sample seen
        compile_task
      ≡ some r)
    × (process 3 7 false sample.judge_tasks true r s1.progress ≡ some q)
    × (s1.progress.finished < q.finished)
judge-process_example =
    judge-process sample (omega arith) sample-verify sample-FilesEarlier sample-DataNamed false
      Status.pending [] s1 r1 [] [] (message 0 compile_task) refl compile_task refl seen refl world
      Status.pending "" (omega arith)

-- A test that takes its files from itself.
abbrev own_task : JudgeTask
own_task = record default_task { file_depends_on = pos 0 }

abbrev read_log : ReadAction
read_log = record {
  tag = "log";
  cond = Condition.always;
  kind = "upload";
  url = "";
  path = "/run/log";
  file_limit = negsuc 0;
}

-- The upload of a log file in the run directory.
log_uploaded :
    read_act files read_log (result_of 0 Status.accepted)
    ≡ some (record { success = true; text = ""; uploads = "/run/log" ∷ [] })
unfolding read_act act hand_out
log_uploaded = refl
