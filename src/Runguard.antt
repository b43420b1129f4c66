-- ===== src/Runguard.antt =====
-- runguard/src/run.cpp: what the watchdog makes of the end of the command that it guards. Times are
-- numbers of nanoseconds. The signals, the end of the command and the times are arguments.
pub mod Child
pub mod Environment
pub mod Metadata
pub mod CommandLine
pub mod Run
pub mod TimeResult
pub mod Watchdog
use judge_system.Base.{
  ℕ, zero, suc, ◌+◌, ◌==◌, Bool, true, false, not, ◌&&◌, ◌||◌, String, List, [], ◌∷◌, Option, none,
  some, ltb, if◌then◌else◌,
}

-- The limits of `runguard_options`.
pub record Options : Type 0 where
  pub use_wall_limit : Bool
  pub wall_soft : ℕ
  pub use_cpu_limit : Bool
  pub cpu_soft : ℕ

-- The bits of `walllimit` and of `cpulimit`: TIMELIMIT_SOFT and TIMELIMIT_HARD.
pub record LimitBits : Type 0 where
  pub soft : Bool
  pub hard : Bool

abbrev no_bits : LimitBits
no_bits = record { soft = false; hard = false }

-- The variables of run.cpp; `received_signal` is `none` for -1.
pub record Watch : Type 0 where
  pub walllimit : LimitBits
  pub cpulimit : LimitBits
  pub received_signal : Option ℕ

abbrev pub fresh_watch : Watch
fresh_watch = record { walllimit = no_bits; cpulimit = no_bits; received_signal = none }

abbrev pub sigalrm : ℕ
sigalrm = 14

abbrev pub sigxcpu : ℕ
sigxcpu = 24

-- What `waitpid` says of the command.
pub data WaitStatus : Type 0 where
  exited : (code : ℕ) → WaitStatus
  signaled : (signal : ℕ) → WaitStatus
  stopped : (signal : ℕ) → WaitStatus
  unknown : WaitStatus

-- What `terminate` sets when the watchdog gets a signal.
unfoldable pub terminate : ℕ → Watch → Watch
terminate sig w = record w {
  walllimit = record {
    soft = w.walllimit.soft;
    hard = if sig == sigalrm then true else w.walllimit.hard;
  };
  received_signal = some sig;
}

-- The exit code of the watchdog; `none` is the exception for a status that is none of the three.
unfoldable pub exit_code : WaitStatus → Watch → Option (ℕ × Watch)
exit_code (exited code) w = some (code, w)
exit_code (signaled signal) w = some (
  signal + 128,
  record w {
    received_signal = some signal;
    cpulimit = record {
      soft = w.cpulimit.soft;
      hard = if signal == sigxcpu then true else w.cpulimit.hard;
    };
  },
)
exit_code (stopped signal) w = some (signal + 128, record w { received_signal = some signal })
exit_code unknown w = none

-- The checks of the soft limits.
unfoldable pub soft_limits : Options → ℕ → ℕ → Watch → Watch
soft_limits opt walldiff cpudiff w = record w {
  walllimit = record {
    soft = if opt.use_wall_limit && ltb opt.wall_soft walldiff then true else w.walllimit.soft;
    hard = w.walllimit.hard;
  };
  cpulimit = record {
    soft = if opt.use_cpu_limit && ltb opt.cpu_soft cpudiff then true else w.cpulimit.soft;
    hard = w.cpulimit.hard;
  };
}

-- output_timelimit_str[bits]
unfoldable pub output_timelimit_str : LimitBits → String
output_timelimit_str bits =
    if bits.hard then "hard-timelimit" else if bits.soft then "soft-timelimit" else ""

-- walllimit | cpulimit
abbrev pub both : LimitBits → LimitBits → LimitBits
both a b = record { soft = a.soft || b.soft; hard = a.hard || b.hard }

-- The end of a run: its entries in the metadata that are no measurements.
pub record Ended : Type 0 where
  pub exitcode : ℕ
  pub signal : Option ℕ
  pub time_result : String

-- The watchdog after the command ended: the signal that it got meanwhile, if any, the status, and the
-- wall and CPU times. `terminate` puts the handlers back, so that it runs at most once.
unfoldable pub watch : Options → Option ℕ → WaitStatus → ℕ → ℕ → Option Ended
unfolding terminate exit_code soft_limits output_timelimit_str
watch opt interrupt status walldiff cpudiff =
    elim (exit_code status
      (elim interrupt [ none ↦ fresh_watch | some sig ↦ terminate sig fresh_watch ])) [
        | none ↦ none
        | some (code, w) ↦
            let v : Watch = soft_limits opt walldiff cpudiff w in
            some (record {
              exitcode = code;
              signal = v.received_signal;
              time_result = output_timelimit_str (both v.walllimit v.cpulimit);
            })
      ]
