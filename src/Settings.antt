-- ===== src/Settings.antt =====
-- The start of `main` in src/main.cpp: what the options and the environment variables make of the
-- settings of include/config.hpp. The option parser, the environment and the file system are
-- outside; a path is its text.
pub mod Chosen
use judge_system.Base.{
  ℕ, zero, suc, ◌^◌, Bool, true, false, not, ◌&&◌, ◌||◌, String, List, [], ◌∷◌, Option, none, some,
  ℤ, pos, to_int, if◌then◌else◌,
}
use Prim.Native.String.{◌++◌ as str_append}

-- The options, as the parser reads them.
pub record MainOptions : Type 0 where
  pub help : Bool
  pub version : Bool
  pub debug : Bool
  pub exec_dir : Option String
  pub script_dir : Option String
  pub cache_dir : Option String
  pub data_dir : Option String
  pub run_dir : Option String
  pub chroot_dir : Option String
  pub script_mem_limit : Option ℕ
  pub script_time_limit : Option ℕ
  pub script_file_limit : Option ℕ
  pub cache_random_data : Option ℕ
  pub max_io_size : Option ℕ

-- The environment variables, the user, and the file system: `create_directories` answers or throws.
-- `lexical_cast` reads an `unsigned` or throws.
pub record Host : Type 0 where
  pub getenv : String → Option String
  pub privileged : Bool
  pub repo_dir : String
  pub exists : String → Bool
  pub is_directory : String → Bool
  pub create_directories : String → Option Bool
  pub lexical_cast : String → Option ℕ

pub record Settings : Type 0 where
  pub debug : Bool
  pub exec_dir : String
  pub script_dir : String
  pub cache_dir : String
  pub data_dir : String
  pub use_data_dir : Bool
  pub run_dir : String
  pub chroot_dir : String
  pub script_mem_limit : ℤ
  pub script_time_limit : ℤ
  pub script_file_limit : ℤ
  pub max_random_data_num : ℤ
  pub max_io_size : ℤ

-- The values in src/config.cpp.
abbrev pub default_settings : Settings
default_settings = record {
  debug = false;
  exec_dir = "";
  script_dir = "";
  cache_dir = "";
  data_dir = "";
  use_data_dir = false;
  run_dir = "";
  chroot_dir = "";
  script_mem_limit = pos (2 ^ 18);
  script_time_limit = pos 10;
  script_file_limit = pos (2 ^ 19);
  max_random_data_num = pos 100;
  max_io_size = pos 10240;
}

-- A step of `main`: it goes on, it ends the program with a code, or it throws.
pub data Outcome {ℓ} (A : Type ℓ) : Type ℓ where
  goes_on : A → Outcome A
  exits : ℕ → Outcome A
  thrown : Outcome A

infixl 5 ◌>>=◌ ◌>>◌
unfoldable pub ◌>>=◌ {ℓ κ} : {A : Type ℓ} {B : Type κ} → Outcome A → (A → Outcome B) → Outcome B
goes_on a >>= f = f a
exits code >>= f = exits code
thrown >>= f = thrown

unfoldable pub ◌>>◌ {ℓ} : {B : Type ℓ} → Outcome (Unit {0}) → Outcome B → Outcome B
unfolding ◌>>=◌
m >> k = m >>= λ _. k

abbrev pub exit_if : Bool → ℕ → Outcome (Unit {0})
exit_if true code = exits code
exit_if false code = goes_on tt

abbrev pub is_given {ℓ} : {A : Type ℓ} → Option A → Bool
is_given none = false
is_given (some a) = true

-- The option, else the environment variable, else what there was before.
abbrev pub chosen {ℓ} : {A : Type ℓ} → Option A → Option A → A → A
chosen (some a) env before = a
chosen none (some a) before = a
chosen none none before = before

-- dir / name
abbrev pub below : String → String → String
below dir name = str_append dir (str_append "/" name)

-- The directory of the repository, if it is there.
abbrev pub in_repo : Host → String → String
in_repo w name = if w.exists (below w.repo_dir name) then below w.repo_dir name else ""

-- A directory that is missing is created; that this fails is only logged, unless it throws.
unfoldable pub made_directory : Host → String → Outcome (Unit {0})
made_directory w dir =
    if w.exists dir
    then goes_on tt
    else elim (w.create_directories dir) [ none ↦ thrown | some done ↦ goes_on tt ]

-- An `unsigned` that is stored in an int, from the option, else from the variable's text.
unfoldable pub unsigned_setting : Host → Option ℕ → String → ℤ → Outcome ℤ
unsigned_setting w (some n) name before = goes_on (to_int n)
unsigned_setting w none name before = elim (w.getenv name) [
  | none ↦ goes_on before
  | some text ↦ elim (w.lexical_cast text) [ none ↦ thrown | some n ↦ goes_on (to_int n) ]
]

-- --max-io-size is declared as a `size_t` and read as a `long`, for which `as` throws.
unfoldable pub max_io_setting : Host → Option ℕ → Outcome ℤ
max_io_setting w (some n) = thrown
max_io_setting w none = elim (w.getenv "MAXIOSIZE") [
  | none ↦ goes_on default_settings.max_io_size
  | some text ↦ elim (w.lexical_cast text) [ none ↦ thrown | some n ↦ goes_on (pos n) ]
]

-- Is there a runguard? Else the variable RUNGUARD has to say where.
abbrev pub has_runguard : Host → Bool
has_runguard w =
    is_given (w.getenv "RUNGUARD") || w.exists (below w.repo_dir "runguard/bin/runguard")

-- `main` up to the servers.
unfoldable pub read_settings : Host → MainOptions → Outcome Settings
unfolding made_directory unsigned_setting max_io_setting
read_settings w o = do
  exit_if (not (is_given (w.getenv "BOOST_log_dir"))) 1
  exit_if (not (has_runguard w)) 1
  exit_if o.help 0
  exit_if o.version 0
  let debug = o.debug || is_given (w.getenv "DEBUG")
  exit_if (not w.privileged && not debug) 1
  let exec_dir = chosen o.exec_dir (w.getenv "EXECDIR") (in_repo w "exec")
  exit_if (not (w.is_directory exec_dir)) 1
  let script_dir = chosen o.script_dir (w.getenv "SCRIPTDIR") (in_repo w "script")
  let cache_dir = chosen o.cache_dir (w.getenv "CACHEDIR") ""
  made_directory w cache_dir
  let data_dir = chosen o.data_dir (w.getenv "DATADIR") ""
  let use_data_dir = is_given o.data_dir || is_given (w.getenv "DATADIR")
  if use_data_dir then made_directory w data_dir else goes_on tt
  let run_dir = chosen o.run_dir (w.getenv "RUNDIR") ""
  made_directory w run_dir
  let chroot_dir = chosen o.chroot_dir (w.getenv "CHROOTDIR") ""
  exit_if (not (w.is_directory chroot_dir)) 1
  mem ← unsigned_setting w o.script_mem_limit "SCRIPTMEMLIMIT" default_settings.script_mem_limit
  time ← unsigned_setting w o.script_time_limit "SCRIPTTIMELIMIT" default_settings.script_time_limit
  file ← unsigned_setting w o.script_file_limit "SCRIPTFILELIMIT" default_settings.script_file_limit
  random ←
      unsigned_setting w o.cache_random_data "CACHERANDOMDATA" default_settings.max_random_data_num
  max_io ← max_io_setting w o.max_io_size
  goes_on (record {
    debug = debug;
    exec_dir = exec_dir;
    script_dir = script_dir;
    cache_dir = cache_dir;
    data_dir = data_dir;
    use_data_dir = use_data_dir;
    run_dir = run_dir;
    chroot_dir = chroot_dir;
    script_mem_limit = mem;
    script_time_limit = time;
    script_file_limit = file;
    max_random_data_num = random;
    max_io_size = max_io;
  })
