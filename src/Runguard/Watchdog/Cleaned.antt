-- ===== src/Runguard/Watchdog/Cleaned.antt =====
-- How the watchdog leaves the world, whatever fails.
use judge_system.Base.{
  ℕ, ◌≡◌, ◌⊎◌, refl, false, not, str_eq, List, [], ◌∷◌, ◌++◌, map, Option, none, some, is_negative,
  if◌then◌else◌, inl, inr,
}
use judge_system.Runguard.CommandLine.{RunguardOptions}
use judge_system.Runguard.{
  Watch, WaitStatus, exited, signaled, stopped, unknown, exit_code, sigalrm,
}
use judge_system.Runguard.Run.{◌>>=◌, ◌>>◌, throw}
use judge_system.Runguard.Watchdog.{
  Event, uid_dropped, root_dropped, handler_installed, group_signalled, task_killed, cgroup_deleted,
  meta_line, memory_bytes, memory_result, internal_error, Outside, sigkill, sigterm, timer,
  drop_root, act, set_restrictions_parent, interrupted, watch_of, oom_of, cgroup_delete, end_lines,
  summarize_found, summarize_cgroup, decoded, returned, watch_found, watchdog, terminate_handler,
  run,
}
use judge_system.Runguard.Watchdog.Emits.{
  Cause, Stops, Emits, Finishes, Ends, attempt-Emits, emit-Emits, done-Emits, when-Emits,
  when-attempt-Emits, >>-Emits, >>-Ends, throw-Ends, found-Ends, emit-Ends, returned-Ends,
  act-Emits, cgroup_kill-Emits,
}

abbrev pub parent_events : RunguardOptions → List Event
parent_events opt =
    (if is_negative opt.user_id then uid_dropped ∷ [] else [])
    ++ handler_installed sigterm
      ∷ (if opt.use_wall_limit
          then handler_installed sigalrm ∷ timer opt.wall_limit.hard ∷ []
          else [])

abbrev pub interrupt_events : Option ℕ → List Event
interrupt_events none = []
interrupt_events (some sig) = group_signalled sigterm ∷ group_signalled sigkill ∷ []

-- Up to the end of the control group.
abbrev pub group_events : Outside → List Event
group_events o =
    meta_line o.metafile (memory_bytes o.max_usage_in_bytes)
    ++ (meta_line o.metafile (memory_result (oom_of false o.oom_control))
        ++ (map task_killed o.tasks ++ cgroup_deleted ∷ []))

-- All that happens until the control group is gone.
abbrev pub cleanup : RunguardOptions → Outside → List Event
cleanup opt o = parent_events opt ++ (interrupt_events o.interrupt ++ root_dropped ∷ group_events o)

exit_code-unknown : (status : WaitStatus) (w : Watch) → exit_code status w ≡ none → status ≡ unknown
unfolding exit_code
exit_code-unknown unknown w h = refl
exit_code-unknown (exited code) w h = cc
exit_code-unknown (signaled sig) w h = cc
exit_code-unknown (stopped sig) w h = cc

module _ (opt : RunguardOptions) (o : Outside) where
  parent-Emits : Emits o (set_restrictions_parent opt) (parent_events opt)
  unfolding set_restrictions_parent
  parent-Emits = >>-Emits o _ _ _ _ (when-Emits o (is_negative opt.user_id) _ _ (act-Emits o _ _)) (
      >>-Emits o _ _ [] _ (attempt-Emits o _) (
        >>-Emits o _ _ [] _ (attempt-Emits o _) (
          >>-Emits o _ _ (_ ∷ []) _ (act-Emits o _ _) (
            when-Emits o opt.use_wall_limit _ _
              (>>-Emits o _ _ (_ ∷ []) (_ ∷ []) (act-Emits o _ _) (act-Emits o _ _))))))

  interrupted-Emits : (sig : Option ℕ) → Emits o (interrupted sig) (interrupt_events sig)
  unfolding interrupted
  interrupted-Emits none = done-Emits o
  interrupted-Emits (some sig) =
      >>-Emits o _ _ (_ ∷ []) (_ ∷ []) (act-Emits o _ _) (act-Emits o _ _)

  delete-Emits : Emits o (cgroup_delete opt) (cgroup_deleted ∷ [])
  unfolding cgroup_delete
  delete-Emits = >>-Emits o _ _ [] _ (attempt-Emits o _) (
      >>-Emits o _ _ [] _ (attempt-Emits o _) (
        >>-Emits o _ _ [] _ (attempt-Emits o _) (
          >>-Emits o _ _ [] _ (when-attempt-Emits o (not (str_eq opt.cpuset "")) _)
            (act-Emits o _ _))))

  group-Ends :
      (code : ℕ) (w : Watch)
      → Ends o (summarize_cgroup opt code w) (some (tt, end_lines opt o code w)) (group_events o)
  unfolding summarize_cgroup summarize_found
  group-Ends code w = found-Ends o (summarize_found opt code w) _ _ (
      >>-Ends o _ _ _ [] _ (attempt-Emits o _) (
        >>-Ends o _ _ _ [] _ (attempt-Emits o _) (
          >>-Ends o _ _ _ [] _ (attempt-Emits o _) (
            >>-Ends o _ _ _ [] _ (attempt-Emits o _) (
              >>-Ends o _ _ _ _ _ (emit-Emits o _) (
                >>-Ends o _ _ _ [] _ (attempt-Emits o _) (
                  >>-Ends o _ _ _ [] _ (attempt-Emits o _) (
                    >>-Ends o _ _ _ _ _ (emit-Emits o _) (
                      >>-Ends o _ _ _ _ _ (cgroup_kill-Emits o o.tasks)
                        (>>-Ends o _ _ _ (_ ∷ []) [] delete-Emits (emit-Ends o _)))))))))))

  -- The result and the last lines, if the status of the command is known.
  abbrev pub final : Option (ℕ × Watch) → Option (ℕ × List Event)
  final none = none
  final (some (code, w)) = some (code, end_lines opt o code w)

  status-Ends :
      (cw : Option (ℕ × Watch))
      → exit_code o.status (watch_of o.interrupt) ≡ cw
      → Ends o
          (decoded cw >>= λ x.
            act drop_root root_dropped >> (summarize_cgroup opt x.0 x.1 >> returned x.0))
          (final cw)
          (root_dropped ∷ group_events o)
  unfolding ◌>>=◌ throw
  status-Ends none h =
      let unknown_status = exit_code-unknown o.status (watch_of o.interrupt) h in
      record { from = (throw-Ends {A = ℕ} o (root_dropped ∷ group_events o) unknown_status).from }
  status-Ends (some (code, w)) h = record { from = known.from }
    where
      known :
          Ends o
            (act drop_root root_dropped >> (summarize_cgroup opt code w >> returned code))
            (some (code, end_lines opt o code w))
            (root_dropped ∷ group_events o)
      known =
          >>-Ends o _ _ _ (_ ∷ []) _ (act-Emits o _ _) (returned-Ends o _ _ _ _ (group-Ends code w))

  watchdog-Ends :
      Ends o (watchdog opt) (final (exit_code o.status (watch_of o.interrupt))) (cleanup opt o)
  unfolding watchdog watch_found
  watchdog-Ends = found-Ends o (watch_found opt) _ _ (
      >>-Ends o _ _ _ _ _ parent-Emits (
        >>-Ends o _ _ _ [] _ (attempt-Emits o _) (
          >>-Ends o _ _ _ [] _ (attempt-Emits o _) (
            >>-Ends o _ _ _ _ _ (interrupted-Emits o.interrupt) (
              >>-Ends o _ _ _ [] _ (attempt-Emits o _) (
                >>-Ends o _ _ _ [] _ (attempt-Emits o _) (
                  >>-Ends o _ _ _ [] _ (attempt-Emits o _)
                    (status-Ends (exit_code o.status (watch_of o.interrupt)) refl))))))))

  -- All went well: the result, and the events with the last lines.
  abbrev pub Completed : ℕ × List Event → Type 0
  Completed r =
      (code : ℕ) × (w : Watch) × (exit_code o.status (watch_of o.interrupt) ≡ some (code, w))
      × (r ≡ (code, cleanup opt o ++ end_lines opt o code w))

  -- An exception: a first part of the events, and then those of the handler.
  abbrev pub Aborted : ℕ × List Event → Type 0
  Aborted r =
      (u v : List Event) × (r
        ≡ (1, u ++ (meta_line o.metafile internal_error ++ group_signalled sigkill ∷ [])))
      × (u ++ v ≡ cleanup opt o)
      × Cause o

  handled :
      (cw : Option (ℕ × Watch)) (r : Option ℕ × List Event)
      → exit_code o.status (watch_of o.interrupt) ≡ cw
      → Finishes (final cw) (cleanup opt o) r ⊎ Stops o [] (cleanup opt o) r
      → Completed (terminate_handler o.metafile r) ⊎ Aborted (terminate_handler o.metafile r)
  unfolding terminate_handler
  handled cw r h (inr (u, v, e, p, c)) = inr (u, v, rw e refl, p, c)
  handled none r h (inl e) = elim e [ ]
  handled (some (code, w)) r h (inl e) = inl (code, w, h, rw e refl)

-- A watchdog that gets at most one signal ends in one of two ways. Either it answers the exit code of
-- the command, and in this order: it gave up its user if the command has none of its own, installed its
-- handlers, started the alarm of the wall clock if there is a limit, signalled the command if it was
-- interrupted, gave up root, wrote how much memory was used, killed all tasks of the control group,
-- deleted the group, and only then wrote the exit code, the times and the time result. Or a call failed,
-- or the status of the command was none: then only a first part of this happened, at most up to the end
-- of the group, and after it the watchdog writes an internal error, kills the process group of the
-- command and answers 1. It writes only if there is a metadata file.
pub run_lem :
    (opt : RunguardOptions) (o : Outside) → Completed opt o (run opt o) ⊎ Aborted opt o (run opt o)
unfolding run
run_lem opt o = handled opt o _ _ refl ((watchdog-Ends opt o).from [])
