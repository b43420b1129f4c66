-- ===== src/Tests/Start.antt =====
-- The judge system from its start to the end of its workers.
use judge_system.Base.{
  ℕ, ◌≡◌, refl, true, false, List, [], ◌∷◌, none, some, pos, all, length, arith,
}
use judge_system.Queue.{try_pop, push}
use judge_system.Submission.{ClientTask}
use judge_system.Settings.{MainOptions, Host}
use judge_system.Worker.Loop.{
  Event, steps, pushes, signalled, new_pool, run, happen, worker_step, worker_push, sigint_handler,
}
use judge_system.Worker.Loop.Counts.{is_stopped}
use judge_system.Worker.Loop.Drained.{drained_lem}

abbrev host : Host
host = record {
  getenv = λ name. some "4";
  privileged = true;
  repo_dir = "/judge";
  exists = λ path. true;
  is_directory = λ path. true;
  create_directories = λ path. some true;
  lexical_cast = λ text. some 4;
}

abbrev options : MainOptions
options = record {
  help = false;
  version = false;
  debug = false;
  exec_dir = some "/exec";
  script_dir = none;
  cache_dir = none;
  data_dir = none;
  run_dir = some "/run";
  chroot_dir = none;
  script_mem_limit = some 65536;
  script_time_limit = none;
  script_file_limit = none;
  cache_random_data = none;
  max_io_size = none;
}

abbrev task : ℕ → ClientTask
task id = record { submit = 0; id = id; name = "Test"; cores = 1; expect_runtime = pos 1000 }

-- The first worker fetches a submission with one task, which pushes another one; then both stop.
abbrev events : List Event
events =
    steps 0
    ∷ steps 0
    ∷ steps 0
    ∷ pushes 0 (task 1)
    ∷ steps 0
    ∷ signalled
    ∷ steps 1
    ∷ steps 1
    ∷ pushes 1 (task 2)
    ∷ steps 1
    ∷ steps 0
    ∷ steps 0
    ∷ steps 0
    ∷ steps 0
    ∷ steps 0
    ∷ steps 0
    ∷ steps 1
    ∷ steps 1
    ∷ steps 1
    ∷ []

all_stop : all is_stopped (run (task 0) events (new_pool 2)).workers ≡ true
unfolding run happen worker_step worker_push sigint_handler try_pop push
all_stop = refl

drained_lem_example :
    ((run (task 0) events (new_pool 2)).task_queue.q ≡ [])
    × ((run (task 0) events (new_pool 2)).taken ≡ (run (task 0) events (new_pool 2)).pushed)
    × ((run (task 0) events (new_pool 2)).judged ≡ length (run (task 0) events (new_pool 2)).pushed)
drained_lem_example = drained_lem (task 0) 2 events (omega arith) all_stop
