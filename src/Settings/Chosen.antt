-- ===== src/Settings/Chosen.antt =====
-- Where the settings of a judge system that starts come from.
use judge_system.Base.{
  ℕ, ◌≡◌, Bool, true, false, ◌||◌, String, Option, none, some, ℤ, pos, to_int, ◌⊎◌,
}
use judge_system.Settings.{
  MainOptions, Host, Settings, Outcome, goes_on, exits, thrown, is_given, chosen, in_repo,
  has_runguard,
}

-- What holds of the settings if the program goes on.
pub data Ensures {ℓ κ} {A : Type ℓ} (P : A → Type κ) : Outcome A → Type (ℓ ⊔ κ) where
  given : {a : A} → P a → Ensures P (goes_on a)
  ended : {code : ℕ} → Ensures P (exits code)
  threw : Ensures P thrown

-- The number that a setting of type int has: from the option, from the text of the variable, or the
-- default.
abbrev pub number : Host → Option ℕ → Option String → ℤ → Option ℤ
number w (some n) text before = some (to_int n)
number w none none before = some before
number w none (some text) before = elim (w.lexical_cast text) [
  | none ↦ none
  | some n ↦ some (to_int n)
]

-- The number that --max-io-size has: from the text of the variable, or the default.
abbrev pub long_number : Host → Option String → Option ℤ
long_number w none = some (pos 10240)
long_number w (some text) = elim (w.lexical_cast text) [ none ↦ none | some n ↦ some (pos n) ]

-- A path was there, or its creation was tried and did not throw.
abbrev pub Made : Host → String → Type 0
Made w dir = (w.exists dir ≡ true) ⊎ ((done : Bool) × (w.create_directories dir ≡ some done))

-- The settings of a program that goes on.
pub record Started (w : Host) (o : MainOptions) (s : Settings) : Type 0 where
  pub no_help : (o.help || o.version) ≡ false
  pub runguard : has_runguard w ≡ true
  pub debug : s.debug ≡ (o.debug || is_given (w.getenv "DEBUG"))
  pub privileged : (w.privileged || s.debug) ≡ true
  pub exec_dir : s.exec_dir ≡ chosen o.exec_dir (w.getenv "EXECDIR") (in_repo w "exec")
  pub has_exec_dir : w.is_directory s.exec_dir ≡ true
  pub script_dir : s.script_dir ≡ chosen o.script_dir (w.getenv "SCRIPTDIR") (in_repo w "script")
  pub cache_dir : s.cache_dir ≡ chosen o.cache_dir (w.getenv "CACHEDIR") ""
  pub data_dir : s.data_dir ≡ chosen o.data_dir (w.getenv "DATADIR") ""
  pub use_data_dir : s.use_data_dir ≡ (is_given o.data_dir || is_given (w.getenv "DATADIR"))
  pub run_dir : s.run_dir ≡ chosen o.run_dir (w.getenv "RUNDIR") ""
  pub chroot_dir : s.chroot_dir ≡ chosen o.chroot_dir (w.getenv "CHROOTDIR") ""
  pub has_chroot_dir : w.is_directory s.chroot_dir ≡ true
  pub script_mem_limit :
      number w o.script_mem_limit (w.getenv "SCRIPTMEMLIMIT") (pos 262144) ≡ some s.script_mem_limit
  pub script_time_limit :
      number w o.script_time_limit (w.getenv "SCRIPTTIMELIMIT") (pos 10) ≡ some s.script_time_limit
  pub script_file_limit :
      number w o.script_file_limit (w.getenv "SCRIPTFILELIMIT") (pos 524288)
      ≡ some s.script_file_limit
  pub max_random_data_num :
      number w o.cache_random_data (w.getenv "CACHERANDOMDATA") (pos 100)
      ≡ some s.max_random_data_num
  pub made_cache_dir : Made w s.cache_dir
  pub made_data_dir : s.use_data_dir ≡ true → Made w s.data_dir
  pub made_run_dir : Made w s.run_dir
  pub no_max_io_size : o.max_io_size ≡ none
  pub max_io_size : long_number w (w.getenv "MAXIOSIZE") ≡ some s.max_io_size
