-- ===== src/Runguard/Child/Restricted.antt =====
-- Under which restrictions the guarded process starts its command.
use judge_system.Base.{
  ◌+◌, ◌≡◌, ◌⊎◌, refl, Bool, true, false, not, ◌||◌, List, [], ◌∷◌, ◌++◌, Option, none, some, ℤ,
  pos, is_negative, is_positive, to_count, ltb, is_nil, if◌then◌else◌, ◌==◌, Bool-cases, inl, inr,
}
use judge_system.Runguard.CommandLine.{RunguardOptions}
use judge_system.Runguard.Child.Calls.{
  oks, Fails, Makes, must-Makes, when-Makes, >>-Makes, >>-from, Returns, when-Returns, >>-Returns,
}
use judge_system.Runguard.Child.{
  Resource, infinity, bounded, Call, setrlimit, cgroup_new_cgroup, cgroup_get_cgroup,
  cgroup_attach_task, setsid, chroot, chdir, setgid, setgroups, setuid, seccomp_load, execvp, Made,
  Kernel, must, tried, ceil, is_empty, set_limits, separate, change_root, set_group, set_user,
  check_user, drop_privileges, set_restrictions, redirect, set_seccomp, child, Code,
}
use judge_system.Runguard.Run.{◌>>=◌, ◌>>◌, done, throw, when, ask}

-- The calls of the parts of `set_restrictions`.
abbrev pub limit_calls : RunguardOptions → List Call
limit_calls opt =
    (if opt.use_cpu_limit
      then setrlimit Resource.cpu (bounded (ceil opt.cpu_limit.hard))
          (bounded (ceil opt.cpu_limit.hard + 1))
        ∷ []
      else [])
    ++ setrlimit Resource.address_space infinity infinity
      ∷ setrlimit Resource.data_segment infinity infinity
      ∷ setrlimit Resource.stack infinity infinity
      ∷ ((if is_positive opt.file_limit
            then setrlimit Resource.fsize (bounded (to_count opt.file_limit))
                (bounded (to_count opt.file_limit + 1))
              ∷ []
            else [])
          ++ ((if ltb 0 opt.nproc
                then setrlimit Resource.nproc (bounded opt.nproc) (bounded opt.nproc) ∷ []
                else [])
              ++ (if opt.no_core_dumps
                  then setrlimit Resource.core (bounded 0) (bounded 0) ∷ []
                  else [])))

abbrev pub separate_calls : List Call
separate_calls = cgroup_new_cgroup ∷ cgroup_get_cgroup ∷ cgroup_attach_task ∷ setsid ∷ []

abbrev pub root_calls : RunguardOptions → List Call
root_calls opt =
    if not (is_empty opt.chroot_dir)
    then chroot opt.chroot_dir
      ∷ chdir "/"
      ∷ (if not (is_empty opt.work_dir) then chdir opt.work_dir ∷ [] else [])
    else []

module _ (k : Kernel) (opt : RunguardOptions) where
  limit-Makes : Makes k (set_limits opt) (limit_calls opt)
  unfolding set_limits
  limit-Makes = >>-Makes k _ _ _ _ (when-Makes k opt.use_cpu_limit _ _ (must-Makes k _)) (
      >>-Makes k _ _ (_ ∷ []) _ (must-Makes k _) (
        >>-Makes k _ _ (_ ∷ []) _ (must-Makes k _) (
          >>-Makes k _ _ (_ ∷ []) _ (must-Makes k _) (
            >>-Makes k _ _ _ _ (when-Makes k (is_positive opt.file_limit) _ _ (must-Makes k _)) (
              >>-Makes k _ _ _ _ (when-Makes k (ltb 0 opt.nproc) _ _ (must-Makes k _))
                (when-Makes k opt.no_core_dumps _ _ (must-Makes k _)))))))

  separate-Makes : Makes k separate separate_calls
  unfolding separate
  separate-Makes = >>-Makes k _ _ (_ ∷ []) (_ ∷ _ ∷ _ ∷ []) (must-Makes k _) (
      >>-Makes k _ _ (_ ∷ []) (_ ∷ _ ∷ []) (must-Makes k _)
        (>>-Makes k _ _ (_ ∷ []) (_ ∷ []) (must-Makes k _) (must-Makes k _)))

  root-Makes : Makes k (change_root opt) (root_calls opt)
  unfolding change_root
  root-Makes = when-Makes k (not (is_empty opt.chroot_dir)) _ _ (
      >>-Makes k _ _ (_ ∷ []) _ (must-Makes k _) (
        >>-Makes k _ _ (_ ∷ []) _ (must-Makes k _)
          (when-Makes k (not (is_empty opt.work_dir)) _ _ (must-Makes k _))))

module _ (k : Kernel) (opt : RunguardOptions) (opened : List Made) where
  -- When the ids are looked up, when the user is set, and when the ids of the process are checked.
  abbrev pub asked : List Made
  asked = ((opened ++ oks (limit_calls opt)) ++ oks separate_calls) ++ oks (root_calls opt)

  abbrev pub group_id : ℤ
  group_id = k.get_groupid asked opt.group

  abbrev pub user_id : ℤ
  user_id = k.get_userid asked opt.user

  abbrev pub group_calls : List Call
  group_calls =
      if not (is_negative group_id) then setgid group_id ∷ setgroups (group_id ∷ []) ∷ [] else []

  abbrev pub grouped : List Made
  grouped = asked ++ oks group_calls

  abbrev pub user_call : Call
  user_call = setuid (if is_negative user_id then pos (k.getuid grouped) else user_id)

  abbrev pub dropped : List Made
  dropped = grouped ++ oks (user_call ∷ [])

  abbrev pub is_root : Bool
  is_root = k.geteuid dropped == 0 || k.getuid dropped == 0

  -- How `set_restrictions` ends, and with what calls.
  abbrev pub Ends : Option (Unit {0}) × List Made → Type 0
  Ends r =
      ((r ≡ (some tt, dropped)) × (is_root ≡ false))
      ⊎ (Fails r ⊎ ((r ≡ (none, dropped)) × (is_root ≡ true)))

  continue :
      (m n : Code (Unit {0})) (cs : List Call) (t : List Made)
      → Makes k m cs
      → Ends (n k (t ++ oks cs))
      → Ends ((m >> n) k t)
  continue m n cs t h e = elim (>>-from k m n cs h t) [ inl f ↦ rw f e | inr f ↦ inr (inl f) ]

  group-Makes : Makes k (set_group group_id) group_calls
  unfolding set_group
  group-Makes =
      when-Makes k (not (is_negative group_id)) _ _
        (>>-Makes k _ _ (_ ∷ []) (_ ∷ []) (must-Makes k _) (must-Makes k _))

  user_lem : set_user user_id k grouped ≡ must user_call k grouped
  unfolding set_user must ask ◌>>=◌
  user_lem = elim (Bool-cases (is_negative user_id)) [ inl e ↦ rw e refl | inr e ↦ rw e refl ]

  check_lem : Ends (check_user k dropped)
  unfolding check_user ask ◌>>=◌ done throw
  check_lem = elim (Bool-cases is_root) [
    | inl e ↦ inr (inr (rw e refl, e))
    | inr e ↦ inl (rw e refl, e)
  ]

  user_then : Ends ((set_user user_id >> check_user) k grouped)
  unfolding ◌>>◌ ◌>>=◌
  user_then = rw user_lem (elim ((must-Makes k user_call).from grouped) [
    | inl e ↦ rw e check_lem
    | inr (c, u, e) ↦ inr (inl (c, u, rw e refl))
  ])

  drop_lem : Ends (drop_privileges opt k asked)
  unfolding drop_privileges ask ◌>>=◌
  drop_lem = continue _ _ _ _ group-Makes user_then

  set_restrictions_lem : Ends (set_restrictions opt k opened)
  unfolding set_restrictions
  set_restrictions_lem =
      continue _ _ _ _ (limit-Makes k opt)
        (continue _ _ _ _ (separate-Makes k opt) (continue _ _ _ _ (root-Makes k opt) drop_lem))

redirect-Returns : (opt : RunguardOptions) → Returns (redirect opt)
unfolding redirect
redirect-Returns opt = >>-Returns _ _ (when-Returns (not (is_empty opt.stdout_filename)) _) (
    >>-Returns _ _ (when-Returns (not (is_empty opt.stderr_filename)) _)
      (when-Returns (not (is_empty opt.stdin_filename)) _))

module _ (k : Kernel) (opt : RunguardOptions) (opened : List Made) where
  -- What has been called when the command starts.
  abbrev pub filtered : List Made
  filtered =
      if is_nil opt.syscalls
      then dropped k opt opened
      else dropped k opt opened
        ++ record {
          call = seccomp_load opt.syscalls;
          ok = k.succeeds (dropped k opt opened) (seccomp_load opt.syscalls);
        }
          ∷ []

  -- How the child ends: it starts the command, or an exception stops it.
  abbrev pub ChildEnds : Option (Unit {0}) × List Made → Type 0
  ChildEnds r =
      ((r ≡ (some tt, filtered ++ oks (execvp opt.command ∷ []))) × (is_root k opt opened ≡ false))
      ⊎ (Fails r ⊎ ((r ≡ (none, dropped k opt opened)) × (is_root k opt opened ≡ true)))

  filter_lem :
      is_root k opt opened ≡ false
      → ChildEnds (
          (when (not (is_nil opt.syscalls)) (set_seccomp opt) >> must (execvp opt.command)) k
            (dropped k opt opened))
  unfolding set_seccomp tried when done ◌>>◌ ◌>>=◌
  filter_lem h = elim (Bool-cases (is_nil opt.syscalls)) [
    | inl e ↦ rw e (started (dropped k opt opened))
    | inr e ↦ rw e (started _)
  ]
    where
      started :
          (t : List Made)
          → ((must (execvp opt.command) k t ≡ (some tt, t ++ oks (execvp opt.command ∷ [])))
              × (is_root k opt opened ≡ false))
            ⊎ (Fails (must (execvp opt.command) k t)
                ⊎ ((must (execvp opt.command) k t ≡ (none, dropped k opt opened))
                    × (is_root k opt opened ≡ true)))
      started t = elim ((must-Makes k (execvp opt.command)).from t) [
        | inl e ↦ inl (e, h)
        | inr f ↦ inr (inl f)
      ]

  restricted_then : ChildEnds (
      (set_restrictions opt
          >> (when (not (is_nil opt.syscalls)) (set_seccomp opt) >> must (execvp opt.command)))
        k opened)
  unfolding ◌>>◌ ◌>>=◌
  restricted_then = elim (set_restrictions_lem k opt opened) [
    | inl (e, h) ↦ rw (e, ◌>>=◌) (filter_lem h)
    | inr (inl (c, u, e)) ↦ rw (e, ◌>>=◌) (inr (inl (c, u, refl)))
    | inr (inr (e, h)) ↦ rw (e, ◌>>=◌) (inr (inr (refl, h)))
  ]

-- The child ends in exactly one of three ways. It starts the command: then, after the redirections, the
-- limits were set that the options ask for, the process was put into the control group and into a
-- session of its own, it went into the new root directory if there is one, and only then gave up its
-- group, if the user database has the one of the options, and its user, all with success and in this
-- order; the process is not root, and at most the filter of system calls was loaded since. Or a call
-- failed and the child stops there. Or all succeeded, but the process is still root, and it stops.
pub child_lem :
    (k : Kernel) (opt : RunguardOptions) (t : List Made)
    → ChildEnds k opt (redirect opt k t).1 (child opt k t)
unfolding child ◌>>◌ ◌>>=◌
child_lem k opt t =
    let (u, e) = (redirect-Returns opt).returns k t in rw e (restricted_then k opt u)
