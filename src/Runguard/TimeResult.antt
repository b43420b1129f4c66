-- ===== src/Runguard/TimeResult.antt =====
-- When runguard reports that a time limit was exceeded.
use judge_system.Base.{
  ℕ, ◌<◌, ◌==◌, ◌≡◌, Bool, false, ◌&&◌, ◌||◌, Option, none, some, ltb, if◌then◌else◌, arith,
  Ensures, given, thrown, Ensures-some,
}
use judge_system.Runguard.{
  Options, WaitStatus, exited, signaled, stopped, unknown, Ended, watch, sigalrm, sigxcpu,
  terminate, exit_code, soft_limits, output_timelimit_str,
}

-- The wall clock's alarm came, or the kernel stopped the command for its CPU time.
abbrev pub alarmed : Option ℕ → WaitStatus → Bool
alarmed (some sig) (signaled signal) = sig == sigalrm || signal == sigxcpu
alarmed none (signaled signal) = signal == sigxcpu
alarmed (some sig) _ = sig == sigalrm
alarmed none _ = false

-- A time is above its soft limit.
abbrev pub late : Options → ℕ → ℕ → Bool
late opt walldiff cpudiff =
    (opt.use_wall_limit && ltb opt.wall_soft walldiff)
    || (opt.use_cpu_limit && ltb opt.cpu_soft cpudiff)

-- The codes and signals that an operating system gives.
abbrev pub InRange : WaitStatus → Type 0
InRange (exited code) = code < 256
InRange (signaled signal) = signal < 128
InRange (stopped signal) = signal < 128
InRange unknown = Unit

-- How the end of a run is to be told.
abbrev pub Tells : Bool → Bool → Ended → Type 0
Tells hard soft e =
    (e.exitcode < 256)
    × (e.time_result ≡ (if hard then "hard-timelimit" else if soft then "soft-timelimit" else ""))

ended :
    (opt : Options) (interrupt : Option ℕ) (status : WaitStatus) (walldiff cpudiff : ℕ)
    → InRange status
    → Ensures
        (Tells (alarmed interrupt status) (late opt walldiff cpudiff))
        (watch opt interrupt status walldiff cpudiff)
unfolding watch terminate exit_code soft_limits output_timelimit_str
ended opt none (exited code) walldiff cpudiff h = given (h, ground arith)
ended opt none (signaled signal) walldiff cpudiff h = given (omega arith, ground arith)
ended opt none (stopped signal) walldiff cpudiff h = given (omega arith, ground arith)
ended opt none unknown walldiff cpudiff h = thrown
ended opt (some sig) (exited code) walldiff cpudiff h = given (h, ground arith)
ended opt (some sig) (signaled signal) walldiff cpudiff h = given (omega arith, ground arith)
ended opt (some sig) (stopped signal) walldiff cpudiff h = given (omega arith, ground arith)
ended opt (some sig) unknown walldiff cpudiff h = thrown

-- Of a command that ended with a code below 256 or by a signal below 128, the watchdog's exit code is
-- below 256 and the time result is "hard-timelimit" exactly if the alarm of the wall clock came or the
-- CPU time was used up; otherwise it is "soft-timelimit" if a time is above its soft limit, and empty if
-- not.
pub watch_lem :
    (opt : Options) (interrupt : Option ℕ) (status : WaitStatus) (walldiff cpudiff : ℕ) (e : Ended)
    → InRange status
    → watch opt interrupt status walldiff cpudiff ≡ some e
    → (e.exitcode < 256)
      × (e.time_result ≡ (
          if alarmed interrupt status
          then "hard-timelimit"
          else if late opt walldiff cpudiff
          then "soft-timelimit"
          else ""))
watch_lem opt interrupt status walldiff cpudiff e h came =
    Ensures-some (Tells (alarmed interrupt status) (late opt walldiff cpudiff)) _
      (ended opt interrupt status walldiff cpudiff h) came
