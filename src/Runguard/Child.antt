-- ===== src/Runguard/Child.antt =====
-- The guarded process between `fork` and `execvp`: `set_restrictions` and `set_seccomp` of
-- runguard/src/limits.cpp, and the children of `run_unshare` and `run_seccomp` in runguard/src/run.cpp.
-- The kernel and libcgroup are outside: what a call answers may depend on all calls before it.
pub mod Calls
pub mod Group
pub mod Restricted
use judge_system.Base.{
  ℕ, ◌+◌, ◌/◌, Bool, true, false, not, ◌||◌, String, str_eq, is_nil, List, [], ◌∷◌, ◌++◌, Option,
  none, some, ℤ, pos, negsuc, is_negative, is_positive, to_count, ltb, if◌then◌else◌, ◌==◌,
}
use judge_system.Runguard.CommandLine.{RunguardOptions}
use judge_system.Runguard.Run.{M, ◌>>=◌, ◌>>◌, done, throw, ask, when}

pub data Resource : Type 0 where
  cpu address_space data_segment stack fsize nproc core : Resource

-- RLIM_INFINITY, or a number.
pub data Limit : Type 0 where
  infinity : Limit
  bounded : ℕ → Limit

pub data Stream : Type 0 where
  standard_input standard_output standard_error : Stream

pub data Call : Type 0 where
  freopen : Stream → String → Call
  setrlimit : Resource → (cur max : Limit) → Call
  cgroup_new_cgroup : Call
  cgroup_get_cgroup : Call
  cgroup_attach_task : Call
  setsid : Call
  chroot : String → Call
  chdir : String → Call
  setgid : ℤ → Call
  setgroups : List ℤ → Call
  setuid : ℤ → Call
  seccomp_load : List ℤ → Call
  execvp : List String → Call

-- A call with its outcome.
pub record Made : Type 0 where
  pub call : Call
  pub ok : Bool

-- The answers of the system after the calls so far: does a call succeed, what are the ids of the
-- process, and which ids does the user database have for a name, -1 for none?
pub record Kernel : Type 0 where
  pub succeeds : List Made → Call → Bool
  pub getuid : List Made → ℕ
  pub geteuid : List Made → ℕ
  pub get_userid : List Made → String → ℤ
  pub get_groupid : List Made → String → ℤ

-- Code of this process.
abbrev pub Code : Type 0 → Type 0
Code A = M Kernel Made A

abbrev pub made : Kernel → Call → List Made → List Made
made k c t = t ++ record { call = c; ok = k.succeeds t c } ∷ []

-- A call whose failure is an exception, and one whose outcome is not looked at.
unfoldable pub must : Call → Code (Unit {0})
must c k t = (if k.succeeds t c then some tt else none, made k c t)

unfoldable pub tried : Call → Code (Unit {0})
tried c k t = (some tt, made k c t)

-- `ceil` of nanoseconds in seconds.
abbrev pub ceil : ℕ → ℕ
ceil n = (n + 999999999) / 1000000000

abbrev pub is_empty : String → Bool
is_empty s = str_eq s ""

unfoldable pub set_limits : RunguardOptions → Code (Unit {0})
unfolding when must ◌>>◌
set_limits opt = do
  when opt.use_cpu_limit (
      must
        (setrlimit cpu (bounded (ceil opt.cpu_limit.hard)) (bounded (ceil opt.cpu_limit.hard + 1))))
  must (setrlimit address_space infinity infinity)
  must (setrlimit data_segment infinity infinity)
  must (setrlimit stack infinity infinity)
  when (is_positive opt.file_limit) (
      must (
        setrlimit fsize (bounded (to_count opt.file_limit))
          (bounded (to_count opt.file_limit + 1))))
  when (ltb 0 opt.nproc) (must (setrlimit nproc (bounded opt.nproc) (bounded opt.nproc)))
  when opt.no_core_dumps (must (setrlimit core (bounded 0) (bounded 0)))

-- Into the control group and a session of its own.
unfoldable pub separate : Code (Unit {0})
unfolding must ◌>>◌
separate = do must cgroup_new_cgroup; must cgroup_get_cgroup; must cgroup_attach_task; must setsid

unfoldable pub change_root : RunguardOptions → Code (Unit {0})
unfolding when must ◌>>◌
change_root opt = when (not (is_empty opt.chroot_dir)) do
  must (chroot opt.chroot_dir)
  must (chdir "/")
  when (not (is_empty opt.work_dir)) (must (chdir opt.work_dir))

unfoldable pub set_group : ℤ → Code (Unit {0})
unfolding when must ◌>>◌
set_group group_id =
    when (not (is_negative group_id)) do must (setgid group_id); must (setgroups (group_id ∷ []))

unfoldable pub set_user : ℤ → Code (Unit {0})
unfolding must ask ◌>>=◌
set_user user_id =
    if is_negative user_id
    then (do uid ← ask (λ k t. k.getuid t); must (setuid (pos uid)))
    else must (setuid user_id)

unfoldable pub check_user : Code (Unit {0})
unfolding ask ◌>>=◌ done throw
check_user = do
  euid ← ask (λ k t. k.geteuid t)
  uid ← ask (λ k t. k.getuid t)
  if euid == 0 || uid == 0 then throw else done

-- Out of the privileges: the names are looked up now, in the new root directory.
unfoldable pub drop_privileges : RunguardOptions → Code (Unit {0})
unfolding set_group set_user check_user ask ◌>>=◌ ◌>>◌
drop_privileges opt = do
  group_id ← ask (λ k t. k.get_groupid t opt.group)
  user_id ← ask (λ k t. k.get_userid t opt.user)
  set_group group_id
  set_user user_id
  check_user

-- `set_restrictions`, but for the environment, which is in the memory of the process.
unfoldable pub set_restrictions : RunguardOptions → Code (Unit {0})
unfolding set_limits separate change_root drop_privileges ◌>>◌
set_restrictions opt = do set_limits opt; separate; change_root opt; drop_privileges opt

unfoldable pub redirect : RunguardOptions → Code (Unit {0})
unfolding when tried ◌>>◌
redirect opt = do
  when (not (is_empty opt.stdout_filename)) (tried (freopen standard_output opt.stdout_filename))
  when (not (is_empty opt.stderr_filename)) (tried (freopen standard_error opt.stderr_filename))
  when (not (is_empty opt.stdin_filename)) (tried (freopen standard_input opt.stdin_filename))

-- `set_seccomp`: the filter allows the listed calls and kills at any other one.
unfoldable pub set_seccomp : RunguardOptions → Code (Unit {0})
unfolding tried
set_seccomp opt = tried (seccomp_load opt.syscalls)

-- The child after `fork`: of `run_seccomp` if there are syscalls, else of `run_unshare`.
unfoldable pub child : RunguardOptions → Code (Unit {0})
unfolding redirect set_restrictions set_seccomp must when ◌>>◌
child opt = do
  redirect opt
  set_restrictions opt
  when (not (is_nil opt.syscalls)) (set_seccomp opt)
  must (execvp opt.command)
