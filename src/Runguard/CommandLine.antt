-- ===== src/Runguard/CommandLine.antt =====
-- runguard/include/runguard_options.hpp, and how runguard/src/runguard.cpp fills it from the command
-- line. The option parser is outside: an option is `none` if it was not given. Times are numbers of
-- nanoseconds.
pub mod Limits
use judge_system.Base.{
  ℕ, ◌+◌, ◌-◌, ◌*◌, ◌/◌, ◌%◌, ◌^◌, Bool, true, false, String, List, [], ◌∷◌, Option, none, some, ℤ,
  pos, negsuc, eq_ℤ, quot_ℤ, ltb, leb, if◌then◌else◌, ◌==◌, ◌>>=◌,
}
use judge_system.Runguard.Metadata.{Bytes}

pub record TimeLimit : Type 0 where
  pub soft : ℕ
  pub hard : ℕ

-- The `double` that `lexical_cast` makes of a text.
pub data Double : Type 0 where
  finite : ℤ → Double
  not_finite : Double

-- The text before the first colon, and the one after it, which is empty without a colon.
unfoldable pub split_colon : Bytes → Bytes × Bytes
split_colon [] = ([], [])
split_colon (c ∷ s) =
    let (left, right) = split_colon s in if c == b':' then ([], s) else (c ∷ left, right)

-- The guard of `validate`.
abbrev pub in_order : Double → Double → Option TimeLimit
in_order (finite (pos soft)) (finite (pos hard)) =
    if ltb hard soft then none else some (record { soft = soft; hard = hard })
in_order soft hard = none

-- The hard limit is the soft one if nothing stands after the colon.
abbrev pub hard_value : (Bytes → Option Double) → Double → Bytes → Option Double
hard_value cast soft [] = some soft
hard_value cast soft (c ∷ cs) = cast (c ∷ cs)

-- `validate` of a time limit; `none` is an exception, also of `lexical_cast`.
unfoldable pub validate_time_limit : (Bytes → Option Double) → Bytes → Option TimeLimit
unfolding split_colon ◌>>=◌
validate_time_limit cast s = do
  soft ← cast (split_colon s).0
  hard ← hard_value cast soft (split_colon s).1
  in_order soft hard

pub record RunguardOptions : Type 0 where
  pub chroot_dir : String
  pub work_dir : String
  pub nproc : ℕ
  pub preexecute : String
  pub user : String
  pub group : String
  pub user_id : ℤ
  pub group_id : ℤ
  pub netns : String
  pub cpuset : String
  pub use_wall_limit : Bool
  pub wall_limit : TimeLimit
  pub use_cpu_limit : Bool
  pub cpu_limit : TimeLimit
  pub memory_limit : ℤ
  pub file_limit : ℤ
  pub no_core_dumps : Bool
  pub syscalls : List ℤ
  pub stdin_filename : String
  pub stdout_filename : String
  pub stderr_filename : String
  pub preserve_sys_env : Bool
  pub env : List Bytes
  pub metafile_path : String
  pub command : List String

-- The initialisers of `runguard_options`; `junk` is in a limit that nothing has set.
unfoldable pub initial_options : TimeLimit → RunguardOptions
initial_options junk = record {
  chroot_dir = "";
  work_dir = "";
  nproc = 2 ^ 64 - 1;
  preexecute = "";
  user = "";
  group = "";
  user_id = negsuc 0;
  group_id = negsuc 0;
  netns = "";
  cpuset = "";
  use_wall_limit = false;
  wall_limit = junk;
  use_cpu_limit = false;
  cpu_limit = junk;
  memory_limit = negsuc 0;
  file_limit = negsuc 0;
  no_core_dumps = false;
  syscalls = [];
  stdin_filename = "";
  stdout_filename = "";
  stderr_filename = "";
  preserve_sys_env = false;
  env = [];
  metafile_path = "";
  command = [];
}

-- What was given on the command line. `allowed_syscall` are the numbers in the file of that name, none
-- if there is no such file.
pub record CommandLine : Type 0 where
  pub root : Option String
  pub user : Option String
  pub group : Option String
  pub netns : Option String
  pub preexecute : Option String
  pub work : Option String
  pub variable : Option (List Bytes)
  pub wall_time : Option TimeLimit
  pub cpu_time : Option TimeLimit
  pub memory_limit : Option ℕ
  pub file_limit : Option ℕ
  pub nproc : Option ℕ
  pub no_core_dumps : Bool
  pub allowed_syscall : List ℤ
  pub cpuset : Option String
  pub standard_input_file : Option String
  pub standard_output_file : Option String
  pub standard_error_file : Option String
  pub environment : Bool
  pub out_meta : Option String
  pub cmd : List String

-- if (vm.count(...)) field = vm[...]
abbrev pub given_or {ℓ} : {A : Type ℓ} → A → Option A → A
given_or a none = a
given_or a (some b) = b

-- The user database, and what an int64_t or an int is after a product out of its range, which is
-- undefined.
pub record System : Type 0 where
  pub get_userid : String → ℤ
  pub get_groupid : String → ℤ
  pub overflow : ℕ → ℤ → ℤ

-- A `size_t` that is stored in a signed integer of so many bits.
abbrev stored : ℕ → ℕ → ℤ
stored bits n =
    let low = n % 2 ^ bits in
    if ltb low (2 ^ bits / 2) then pos low else negsuc (2 ^ bits - 1 - low)

-- x * 1024
abbrev times_1024 : System → ℕ → ℤ → ℤ
times_1024 s bits (pos n) =
    if ltb (n * 1024) (2 ^ bits / 2) then pos (n * 1024) else s.overflow bits (pos n)
times_1024 s bits (negsuc n) =
    if leb ((n + 1) * 1024) (2 ^ bits / 2)
    then negsuc ((n + 1) * 1024 - 1)
    else s.overflow bits (negsuc n)

-- A limit in KB becomes one in bytes, or -1.
abbrev pub in_bytes : System → ℕ → ℕ → ℤ
in_bytes s bits n =
    let x = stored bits n in
    let y = times_1024 s bits x in if eq_ℤ x (quot_ℤ y 1024) then y else negsuc 0

abbrev three_times : TimeLimit → TimeLimit
three_times t = record { soft = 3 * t.soft; hard = 3 * t.hard }

-- The wall limit that is given, or is made from the CPU limit.
abbrev pub wall_from : (wall cpu : Option TimeLimit) → Option TimeLimit
wall_from (some wall) cpu = some wall
wall_from none (some cpu) = some (three_times cpu)
wall_from none none = none

abbrev pub wall_of : CommandLine → Option TimeLimit
wall_of c = wall_from c.wall_time c.cpu_time

abbrev pub given {ℓ} : {A : Type ℓ} → Option A → Bool
given none = false
given (some a) = true

-- The ids of the options --user and --group.
abbrev group_of : System → CommandLine → ℤ
group_of s c = elim c.group [
  | some group ↦ s.get_groupid group
  | none ↦ elim c.user [ none ↦ negsuc 0 | some user ↦ s.get_groupid user ]
]

-- What `main` makes of the command line.
unfoldable pub read_options : System → TimeLimit → CommandLine → RunguardOptions
unfolding initial_options
read_options s junk c = record (initial_options junk) {
  chroot_dir = given_or "" c.root;
  work_dir = given_or "" c.work;
  nproc = given_or (2 ^ 64 - 1) c.nproc;
  preexecute = given_or "" c.preexecute;
  user = given_or "" c.user;
  group = given_or "" c.group;
  user_id = elim c.user [ none ↦ negsuc 0 | some user ↦ s.get_userid user ];
  group_id = group_of s c;
  netns = given_or "" c.netns;
  cpuset = given_or "" c.cpuset;
  use_wall_limit = given (wall_of c);
  wall_limit = given_or junk (wall_of c);
  use_cpu_limit = given c.cpu_time;
  cpu_limit = given_or junk c.cpu_time;
  memory_limit = elim c.memory_limit [ none ↦ negsuc 0 | some n ↦ in_bytes s 64 n ];
  file_limit = elim c.file_limit [ none ↦ negsuc 0 | some n ↦ in_bytes s 32 n ];
  no_core_dumps = c.no_core_dumps;
  syscalls = c.allowed_syscall;
  stdin_filename = given_or "" c.standard_input_file;
  stdout_filename = given_or "" c.standard_output_file;
  stderr_filename = given_or "" c.standard_error_file;
  preserve_sys_env = c.environment;
  env = given_or [] c.variable;
  metafile_path = given_or "" c.out_meta;
  command = c.cmd;
}
