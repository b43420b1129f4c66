-- ===== src/Tests/Guarded.antt =====
-- A command under runguard, from the command line to `execvp`.
use judge_system.Base.{
  ℕ, ◌≡◌, refl, ◌≤◌, ◌<◌, ◌*◌, ◌^◌, true, false, List, [], ◌∷◌, Option, none, some, pos, negsuc,
  any,
}
use judge_system.Runguard.Metadata.{Bytes, bytes_eq, lookup}
use judge_system.Runguard.CommandLine.{
  TimeLimit, Double, finite, System, CommandLine, read_options, validate_time_limit, split_colon,
}
use judge_system.Runguard.CommandLine.Limits.{read_options_lem}
use judge_system.Runguard.Child.{
  Kernel, redirect, child, set_limits, separate, change_root, drop_privileges, set_group, set_user,
  check_user, set_restrictions, must, tried,
}
use judge_system.Runguard.Run.{when, ask, done, throw, ◌>>=◌, ◌>>◌}
use judge_system.Runguard.Child.Restricted.{ChildEnds, child_lem}
use judge_system.Runguard.Child.Group.{is_group_change, user_only_lem}
use judge_system.Runguard.Environment.{
  Environment, child_environment, child_environment_lem, path_name, split_equals,
}

abbrev system : System
system = record {
  get_userid = λ name. pos 1000;
  get_groupid = λ name. pos 1000;
  overflow = λ bits x. x;
}

abbrev junk : TimeLimit
junk = record { soft = 7; hard = 3 }

abbrev bare : CommandLine
bare = record {
  root = some "/chroot";
  user = some "judge";
  group = none;
  netns = none;
  preexecute = none;
  work = none;
  variable = none;
  wall_time = none;
  cpu_time = some (record { soft = 1000000000; hard = 1000000000 });
  memory_limit = some 262144;
  file_limit = none;
  nproc = none;
  no_core_dumps = true;
  allowed_syscall = [];
  cpuset = none;
  standard_input_file = none;
  standard_output_file = some "run/testdata.out";
  standard_error_file = none;
  environment = false;
  out_meta = none;
  cmd = "./main" ∷ [];
}

-- Every text is read as one second.
abbrev one_second : Bytes → Option Double
one_second s = some (finite (pos 1000000000))

read_options_lem_example :
    ((read_options system junk bare).use_wall_limit ≡ true)
    × ((read_options system junk bare).use_cpu_limit ≡ true)
    × (true ≡ true
        → (read_options system junk bare).cpu_limit.soft
          ≤ (read_options system junk bare).cpu_limit.hard)
    × (true ≡ true
        → (read_options system junk bare).wall_limit.soft
          ≤ (read_options system junk bare).wall_limit.hard)
    × (true ≡ true
        → (read_options system junk bare).wall_limit.hard
          ≡ 3 * (read_options system junk bare).cpu_limit.hard)
    × ((n : ℕ)
        → n * 1024 < 2 ^ 63
        → bare.memory_limit ≡ some n
        → (read_options system junk bare).memory_limit ≡ pos (n * 1024))
    × ((n : ℕ)
        → n * 1024 < 2 ^ 31
        → bare.file_limit ≡ some n
        → (read_options system junk bare).file_limit ≡ pos (n * 1024))
unfolding validate_time_limit split_colon
read_options_lem_example =
    read_options_lem system junk one_second bare none (some (b'1' ∷ [])) refl refl

-- Every call succeeds. The only name in the user database is that of the user.
abbrev kernel : Kernel
kernel = record {
  succeeds = λ t c. true;
  getuid = λ t. 1000;
  geteuid = λ t. 1000;
  get_userid = λ t name. pos 1000;
  get_groupid = λ t name. negsuc 0;
}

child_lem_example :
    ChildEnds kernel
      (read_options system junk bare)
      (redirect (read_options system junk bare) kernel []).1
      (child (read_options system junk bare) kernel [])
child_lem_example = child_lem kernel (read_options system junk bare) []

bare_starts : (child (read_options system junk bare) kernel []).0 ≡ some tt
unfolding child redirect set_restrictions set_limits separate change_root drop_privileges set_group
    set_user check_user must tried when ask done throw ◌>>=◌ ◌>>◌ read_options
bare_starts = refl

user_only_lem_example :
    ((read_options system junk bare).group_id ≡ pos 1000)
    × (any is_group_change (child (read_options system junk bare) kernel []).1 ≡ false)
user_only_lem_example =
    user_only_lem system junk bare kernel "judge" refl refl (λ t. refl) bare_starts

-- HOME=x and A=1.
abbrev given_variables : List Bytes
given_variables = (b'H' ∷ b'O' ∷ b'M' ∷ b'E' ∷ b'=' ∷ b'x' ∷ []) ∷ (b'A' ∷ b'=' ∷ b'1' ∷ []) ∷ []

abbrev own : Environment
own = (path_name, b'/' ∷ []) ∷ (b'B' ∷ [], b'2' ∷ []) ∷ []

child_environment_lem_example :
    lookup (b'A' ∷ []) (child_environment false given_variables (b'j' ∷ []) own) ≡ some (b'1' ∷ [])
unfolding bytes_eq split_equals lookup
child_environment_lem_example =
    child_environment_lem false given_variables (b'j' ∷ []) own (b'A' ∷ [])
