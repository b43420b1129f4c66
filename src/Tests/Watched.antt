-- ===== src/Tests/Watched.antt =====
-- A command under the watchdog of runguard, from `fork` to the metadata file.
use judge_system.Base.{◌≡◌, ◌⊎◌, refl, Bool, true, false, [], ◌∷◌, none, some, pos}
use judge_system.Runguard.CommandLine.{TimeLimit, RunguardOptions, initial_options}
use judge_system.Runguard.{
  exited, signaled, exit_code, terminate, soft_limits, output_timelimit_str,
}
use judge_system.Runguard.Run.{◌>>=◌, ◌>>◌, done, throw, ask, when}
use judge_system.Runguard.Watchdog.{
  Step, read_cgroup, uid_dropped, root_dropped, handler_installed, timer_started, group_signalled,
  task_killed, cgroup_deleted, written, memory_bytes, memory_result, exitcode, signal, wall_time,
  user_time, sys_time, cpu_time, time_result, internal_error, text, count, Outside, found, attempt,
  emit, act, set_restrictions_parent, interrupted, oom_of, cgroup_kill, cgroup_delete, end_lines,
  summarize_found, summarize_cgroup, watch_found, watchdog, terminate_handler, run,
}
use judge_system.Runguard.Watchdog.Cleaned.{Completed, Aborted, run_lem}

abbrev two_seconds : TimeLimit
two_seconds = record { soft = 2000000000; hard = 2500000000 }

-- No user, and two seconds on the wall clock.
abbrev walled : RunguardOptions
walled = record (initial_options two_seconds) { use_wall_limit = true; wall_limit = two_seconds }

-- A command that the alarm ends, with a task that is left in the group.
abbrev late_command : Outside
late_command = record {
  succeeds = λ step. true;
  metafile = true;
  interrupt = some 14;
  status = signaled 15;
  max_usage_in_bytes = pos 4096;
  oom_control = text "oom_kill_disable" ∷ count 0 ∷ text "oom_kill" ∷ count 1 ∷ [];
  tasks = 77 ∷ [];
  walldiff = 2600000000;
  userdiff = 30;
  sysdiff = 20;
  cpudiff = 50;
}

run_lem_example :
    Completed walled late_command (run walled late_command)
    ⊎ Aborted walled late_command (run walled late_command)
run_lem_example = run_lem walled late_command

late_command_run : run walled late_command ≡ (
  143,
  uid_dropped
      ∷ handler_installed 15
      ∷ handler_installed 14
      ∷ timer_started 2 500000
      ∷ group_signalled 15
      ∷ group_signalled 9
      ∷ root_dropped
      ∷ written (memory_bytes (pos 4096))
      ∷ written (memory_result true)
      ∷ task_killed 77
      ∷ cgroup_deleted
      ∷ written (exitcode 143)
      ∷ written (signal 15)
      ∷ written (wall_time 2600000000)
      ∷ written (user_time 30)
      ∷ written (sys_time 20)
      ∷ written (cpu_time 50)
      ∷ written (time_result "hard-timelimit")
      ∷ [],
)
unfolding run watchdog watch_found found ask attempt emit act set_restrictions_parent interrupted
    exit_code terminate summarize_cgroup summarize_found oom_of cgroup_kill cgroup_delete end_lines
    soft_limits output_timelimit_str terminate_handler when done throw ◌>>=◌ ◌>>◌ initial_options
late_command_run = refl

-- The control group cannot be read.
abbrev unread : Step → Bool
unread read_cgroup = false
unread _ = true

unread_run :
    run walled (record late_command { succeeds = unread; interrupt = none; status = exited 0 }) ≡ (
      1,
      uid_dropped
          ∷ handler_installed 15
          ∷ handler_installed 14
          ∷ timer_started 2 500000
          ∷ root_dropped
          ∷ written internal_error
          ∷ group_signalled 9
          ∷ [],
    )
unfolding run watchdog watch_found found ask attempt emit act set_restrictions_parent interrupted
    exit_code terminate summarize_cgroup summarize_found oom_of cgroup_kill cgroup_delete end_lines
    soft_limits output_timelimit_str terminate_handler when done throw ◌>>=◌ ◌>>◌ initial_options
unread_run = refl

-- Without a metadata file nothing is written.
unwritten_run :
    run walled (record late_command {
      metafile = false;
      succeeds = unread;
      interrupt = none;
      status = exited 0;
    })
    ≡ (
      1,
      uid_dropped
          ∷ handler_installed 15
          ∷ handler_installed 14
          ∷ timer_started 2 500000
          ∷ root_dropped
          ∷ group_signalled 9
          ∷ [],
    )
unfolding run watchdog watch_found found ask attempt emit act set_restrictions_parent interrupted
    exit_code terminate summarize_cgroup summarize_found oom_of cgroup_kill cgroup_delete end_lines
    soft_limits output_timelimit_str terminate_handler when done throw ◌>>=◌ ◌>>◌ initial_options
unwritten_run = refl
