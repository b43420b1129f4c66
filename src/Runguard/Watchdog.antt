-- ===== src/Runguard/Watchdog.antt =====
-- The watchdog of runguard/src/run.cpp after `fork`: `set_restrictions_parent`, the parents of
-- `run_unshare` and `run_seccomp`, `summarize_cgroup` and `runguard_terminate_handler`, with
-- `cgroup_kill` and `cgroup_delete` of runguard/src/limits.cpp. The kernel and libcgroup are outside.
-- Times are numbers of nanoseconds.
pub mod Cleaned
pub mod Emits
use judge_system.Base.{
  ℕ, ◌+◌, ◌*◌, ◌/◌, ◌%◌, ◌==◌, Bool, true, false, not, String, str_eq, List, [], ◌∷◌, ◌++◌, Option,
  none, some, ℤ, is_negative, ltb, if◌then◌else◌,
}
use judge_system.Runguard.CommandLine.{RunguardOptions}
use judge_system.Runguard.{
  Options, Watch, fresh_watch, WaitStatus, terminate, exit_code, soft_limits, output_timelimit_str,
  both, sigalrm,
}
use judge_system.Runguard.Run.{M, ◌>>=◌, ◌>>◌, done, throw, ask, when}

-- The calls whose failure is an exception; each is made at most once.
pub data Step : Type 0 where
  set_watchdog_uid empty_mask signal_mask set_timer : Step
  handle_signal : ℕ → Step
  start_ticks start_time wait_command end_ticks end_time drop_root : Step
  signal_command : ℕ → Step
  new_cgroup read_cgroup memory_controller max_usage cpuacct_controller cpu_usage : Step
  new_deleted add_cpuacct add_memory add_cpuset delete_cgroup : Step

-- A line of the metadata file.
pub data Meta : Type 0 where
  memory_bytes : ℤ → Meta
  memory_result : (oom : Bool) → Meta
  exitcode signal wall_time user_time sys_time cpu_time : ℕ → Meta
  time_result : String → Meta
  internal_error : Meta

-- What the watchdog does to the world. A signal goes to the process group of the command.
pub data Event : Type 0 where
  uid_dropped root_dropped : Event
  handler_installed : ℕ → Event
  timer_started : (seconds microseconds : ℕ) → Event
  group_signalled : ℕ → Event
  task_killed : ℕ → Event
  cgroup_deleted : Event
  written : Meta → Event

-- A token of memory.oom_control.
pub data Token : Type 0 where
  text : String → Token
  count : ℕ → Token

-- What the watchdog finds. `metafile` says whether there is a metadata file that can be written;
-- `interrupt` is the signal that it gets while it waits, if any, and a second one, which would end it at
-- once, does not come; `tasks` are the
-- numbers that `cgroup_get_task_begin` answers, with or without an error, until it says ECGEOF.
pub record Outside : Type 0 where
  pub succeeds : Step → Bool
  pub metafile : Bool
  pub interrupt : Option ℕ
  pub status : WaitStatus
  pub max_usage_in_bytes : ℤ
  pub oom_control : List Token
  pub tasks : List ℕ
  pub walldiff : ℕ
  pub userdiff : ℕ
  pub sysdiff : ℕ
  pub cpudiff : ℕ

abbrev pub Code : Type 0 → Type 0
Code A = M Outside Event A

unfoldable pub found : Code Outside
unfolding ask
found = ask (λ o t. o)

-- `append_meta`: nothing without a metadata file.
abbrev pub meta_line : Bool → Meta → List Event
meta_line true line = written line ∷ []
meta_line false line = []

unfoldable pub attempt : Step → Code (Unit {0})
attempt step o t = (if o.succeeds step then some tt else none, t)

unfoldable pub emit : List Event → Code (Unit {0})
emit es o t = (some tt, t ++ es)

-- A call that, if it succeeds, changes the world.
unfoldable pub act : Step → Event → Code (Unit {0})
unfolding attempt emit ◌>>◌
act step e = attempt step >> emit (e ∷ [])

abbrev pub sigkill : ℕ
sigkill = 9

abbrev pub sigterm : ℕ
sigterm = 15

-- The alarm of the wall clock, in whole microseconds.
abbrev pub timer : ℕ → Event
timer hard = timer_started (hard / 1000000000) (hard % 1000000000 / 1000)

unfoldable pub set_restrictions_parent : RunguardOptions → Code (Unit {0})
unfolding attempt act when ◌>>◌
set_restrictions_parent opt = do
  when (is_negative opt.user_id) (act set_watchdog_uid uid_dropped)
  attempt empty_mask
  attempt signal_mask
  act (handle_signal sigterm) (handler_installed sigterm)
  when opt.use_wall_limit do
    act (handle_signal sigalrm) (handler_installed sigalrm)
    act set_timer (timer opt.wall_limit.hard)

-- What `terminate` does to the command; an exception in it is taken for one of the watchdog.
unfoldable pub interrupted : Option ℕ → Code (Unit {0})
unfolding act done ◌>>◌
interrupted none = done
interrupted (some sig) = do
  act (signal_command sigterm) (group_signalled sigterm)
  act (signal_command sigkill) (group_signalled sigkill)

abbrev pub watch_of : Option ℕ → Watch
watch_of none = fresh_watch
watch_of (some sig) = terminate sig fresh_watch

-- `fin >> is_oom` takes 0 and 1, makes true of a larger number and false of another word, and ends the
-- loop in both cases.
unfoldable pub oom_of : Bool → List Token → Bool
oom_of is_oom [] = is_oom
oom_of is_oom (count n ∷ rest) = oom_of is_oom rest
oom_of is_oom (text s ∷ []) = is_oom
oom_of is_oom (text s ∷ count n ∷ rest) =
    let found = oom_of (n == 1) rest in
    let later = oom_of is_oom rest in
    if str_eq s "oom_kill" then (if ltb 1 n then true else found) else later
oom_of is_oom (text s ∷ text s' ∷ rest) =
    let later = oom_of is_oom (text s' ∷ rest) in if str_eq s "oom_kill" then false else later

unfoldable pub cgroup_kill : List ℕ → Code (Unit {0})
unfolding emit ◌>>◌ done
cgroup_kill [] = done
cgroup_kill (pid ∷ rest) = emit (task_killed pid ∷ []) >> cgroup_kill rest

unfoldable pub cgroup_delete : RunguardOptions → Code (Unit {0})
unfolding attempt act when ◌>>◌
cgroup_delete opt = do
  attempt new_deleted
  attempt add_cpuacct
  attempt add_memory
  when (not (str_eq opt.cpuset "")) (attempt add_cpuset)
  act delete_cgroup cgroup_deleted

abbrev pub limits_of : RunguardOptions → Options
limits_of opt = record {
  use_wall_limit = opt.use_wall_limit;
  wall_soft = opt.wall_limit.soft;
  use_cpu_limit = opt.use_cpu_limit;
  cpu_soft = opt.cpu_limit.soft;
}

abbrev pub signal_line : Bool → Option ℕ → List Event
signal_line metafile none = []
signal_line metafile (some sig) = meta_line metafile (signal sig)

-- The lines that are written when the group is gone.
unfoldable pub end_lines : RunguardOptions → Outside → ℕ → Watch → List Event
unfolding soft_limits output_timelimit_str
end_lines opt o code w =
    let late : Watch = soft_limits (limits_of opt) o.walldiff o.cpudiff w in
    meta_line o.metafile (exitcode code)
    ++ (signal_line o.metafile w.received_signal
        ++ (meta_line o.metafile (wall_time o.walldiff)
            ++ (meta_line o.metafile (user_time o.userdiff)
                ++ (meta_line o.metafile (sys_time o.sysdiff)
                    ++ (meta_line o.metafile (cpu_time o.cpudiff)
                        ++ meta_line o.metafile (
                            time_result
                              (output_timelimit_str (both late.walllimit late.cpulimit))))))))

-- `summarize_cgroup`, with what it finds.
unfoldable pub summarize_found : RunguardOptions → ℕ → Watch → Outside → Code (Unit {0})
unfolding attempt emit oom_of cgroup_kill cgroup_delete end_lines ◌>>◌
summarize_found opt code w o = do
  attempt new_cgroup
  attempt read_cgroup
  attempt memory_controller
  attempt max_usage
  emit (meta_line o.metafile (memory_bytes o.max_usage_in_bytes))
  attempt cpuacct_controller
  attempt cpu_usage
  emit (meta_line o.metafile (memory_result (oom_of false o.oom_control)))
  cgroup_kill o.tasks
  cgroup_delete opt
  emit (end_lines opt o code w)

unfoldable pub summarize_cgroup : RunguardOptions → ℕ → Watch → Code (Unit {0})
unfolding found summarize_found ◌>>=◌
summarize_cgroup opt code w = found >>= summarize_found opt code w

-- The exit code of a command; the exception is for an unknown status.
abbrev pub decoded : Option (ℕ × Watch) → Code (ℕ × Watch)
decoded none = throw
decoded (some cw) = λ o t. (some cw, t)

abbrev pub returned : ℕ → Code ℕ
returned code = λ o t. (some code, t)

unfoldable pub watch_found : RunguardOptions → Outside → Code ℕ
unfolding set_restrictions_parent interrupted exit_code terminate summarize_cgroup attempt act throw
    ◌>>=◌ ◌>>◌
watch_found opt o = do
  set_restrictions_parent opt
  attempt start_ticks
  attempt start_time
  interrupted o.interrupt
  attempt wait_command
  attempt end_ticks
  attempt end_time
  (code, w) ← decoded (exit_code o.status (watch_of o.interrupt))
  act drop_root root_dropped
  summarize_cgroup opt code w
  returned code

-- What follows in the parent of `run_unshare` and of `run_seccomp`.
unfoldable pub watchdog : RunguardOptions → Code ℕ
unfolding found watch_found ◌>>=◌
watchdog opt = found >>= watch_found opt

-- `runguard_terminate_handler` runs at an exception, and does not look at the result of `kill`.
unfoldable pub terminate_handler : Bool → Option ℕ × List Event → ℕ × List Event
terminate_handler metafile (some code, t) = (code, t)
terminate_handler metafile (none, t) =
    (1, t ++ (meta_line metafile internal_error ++ group_signalled sigkill ∷ []))

-- The exit code of runguard, and what happened since the `fork`.
unfoldable pub run : RunguardOptions → Outside → ℕ × List Event
unfolding watchdog terminate_handler
run opt o = terminate_handler o.metafile (watchdog opt o [])
