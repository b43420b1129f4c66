-- ===== src/Runguard/CommandLine/Limits.antt =====
-- Which limits the command line of runguard sets.
use judge_system.Base.{
  ℕ, ◌*◌, ◌^◌, ◌≤◌, ◌<◌, ◌≡◌, refl, ◌∙◌, true, not, ◌&&◌, ◌||◌, Option, none, some, pos, negsuc,
  arith, ◌>>=◌, >>=-eq-some,
}
use mathlib.Core.Path.{subst}
use mathlib.Core.Option.{some-injective}
use judge_system.Runguard.Metadata.{Bytes}
use judge_system.Runguard.CommandLine.{
  TimeLimit, Double, finite, not_finite, split_colon, hard_value, in_order, validate_time_limit,
  System, CommandLine, given, given_or, wall_from, in_bytes, read_options,
}

-- An option whose text is a time limit; `none` is an exception.
abbrev pub parsed : (Bytes → Option Double) → Option Bytes → Option (Option TimeLimit)
parsed cast none = some none
parsed cast (some text) = elim (validate_time_limit cast text) [
  | none ↦ none
  | some t ↦ some (some t)
]

in_order_lem : (a b : Double) (t : TimeLimit) → in_order a b ≡ some t → t.soft ≤ t.hard
in_order_lem (finite (pos a)) (finite (pos b)) t e = ground arith
in_order_lem (finite (pos a)) (finite (negsuc b)) t e = cc
in_order_lem (finite (pos a)) not_finite t e = cc
in_order_lem (finite (negsuc a)) b t e = cc
in_order_lem not_finite b t e = cc

validate_lem :
    (cast : Bytes → Option Double) (text : Bytes) (t : TimeLimit)
    → validate_time_limit cast text ≡ some t
    → t.soft ≤ t.hard
unfolding validate_time_limit
validate_lem cast text t e =
    let (soft, e1, h) =
      >>=-eq-some (cast (split_colon text).0)
        (λ soft. hard_value cast soft (split_colon text).1 >>= λ hard. in_order soft hard) e in
    let (hard, e2, g) = >>=-eq-some (hard_value cast soft (split_colon text).1) (in_order soft) h in
    in_order_lem soft hard t g

-- A limit that is there is in order.
abbrev Ordered : Option TimeLimit → Type 0
Ordered none = Unit
Ordered (some t) = t.soft ≤ t.hard

some_path : {a b : TimeLimit} → some (some a) ≡ some (some b) → a ≡ b
some_path e = some-injective _ _ (some-injective _ _ e)

parsed_lem :
    (cast : Bytes → Option Double) (text : Option Bytes) (t : Option TimeLimit)
    → parsed cast text ≡ some t
    → Ordered t × (given t ≡ given text)
parsed_lem cast none none e = (tt, refl)
parsed_lem cast none (some t) e = cc
parsed_lem cast (some text) t e = by_value (validate_time_limit cast text) refl t e
  where
    by_value :
        (v : Option TimeLimit)
        → validate_time_limit cast text ≡ v
        → (t : Option TimeLimit) → elim v [ none ↦ none | some t ↦ some (some t) ] ≡ some t
        → Ordered t × (given t ≡ true)
    by_value none v t e = cc
    by_value (some x) v none e = cc
    by_value (some x) v (some t) e =
        (subst (λ u. u.soft ≤ u.hard) (some_path e) (validate_lem cast text x v), refl)

memory_lem : (s : System) (n : ℕ) → n * 1024 < 2 ^ 63 → in_bytes s 64 n ≡ pos (n * 1024)
memory_lem s n h = ground arith

file_lem : (s : System) (n : ℕ) → n * 1024 < 2 ^ 31 → in_bytes s 32 n ≡ pos (n * 1024)
file_lem s n h = ground arith

-- From texts that `validate` takes, `main` makes time limits in order: the wall limit is used exactly if
-- one of the two is given, the CPU limit if it is given itself, each that is used has its soft limit at
-- most at the hard one, and with a CPU limit alone the wall limit is three times as long. Memory and
-- file limits in KB become bytes as long as these fit in 64 and in 32 bits with a sign, and without the
-- options they are -1, which stands for no limit.
pub read_options_lem :
    (s : System) (junk : TimeLimit) (cast : Bytes → Option Double) (c : CommandLine)
    (wall cpu : Option Bytes)
    → parsed cast wall ≡ some c.wall_time
    → parsed cast cpu ≡ some c.cpu_time
    → ((read_options s junk c).use_wall_limit ≡ (given wall || given cpu))
      × ((read_options s junk c).use_cpu_limit ≡ given cpu)
      × (given cpu ≡ true
          → (read_options s junk c).cpu_limit.soft ≤ (read_options s junk c).cpu_limit.hard)
      × ((given wall || given cpu) ≡ true
          → (read_options s junk c).wall_limit.soft ≤ (read_options s junk c).wall_limit.hard)
      × ((given cpu && not (given wall)) ≡ true
          → (read_options s junk c).wall_limit.hard ≡ 3 * (read_options s junk c).cpu_limit.hard)
      × ((n : ℕ)
          → n * 1024 < 2 ^ 63
          → c.memory_limit ≡ some n
          → (read_options s junk c).memory_limit ≡ pos (n * 1024))
      × ((n : ℕ)
          → n * 1024 < 2 ^ 31
          → c.file_limit ≡ some n
          → (read_options s junk c).file_limit ≡ pos (n * 1024))
unfolding read_options
read_options_lem s junk cast c wall cpu w p =
    let (ow, gw) = parsed_lem cast wall c.wall_time w in
    let (op, gp) = parsed_lem cast cpu c.cpu_time p in
    (
      rw⁻¹ (gw, gp) (used c.wall_time c.cpu_time),
      gp,
      λ h. cpu_lem c.cpu_time op (gp ∙ h),
      λ h. wall_lem c.wall_time c.cpu_time ow op (rw (gw, gp) h),
      λ h. three_lem c.wall_time c.cpu_time (rw (gw, gp) h),
      λ n h e. rw e (memory_lem s n h),
      λ n h e. rw e (file_lem s n h),
    )
  where
    used : (w p : Option TimeLimit) → given (wall_from w p) ≡ (given w || given p)
    used (some w) p = refl
    used none (some p) = refl
    used none none = refl

    cpu_lem :
        (p : Option TimeLimit)
        → Ordered p
        → given p ≡ true
        → (given_or junk p).soft ≤ (given_or junk p).hard
    cpu_lem none o h = cc
    cpu_lem (some p) o h = o

    wall_lem :
        (w p : Option TimeLimit)
        → Ordered w
        → Ordered p
        → (given w || given p) ≡ true
        → (given_or junk (wall_from w p)).soft ≤ (given_or junk (wall_from w p)).hard
    wall_lem (some w) p o q h = o
    wall_lem none (some p) o q h = omega arith
    wall_lem none none o q h = cc

    three_lem :
        (w p : Option TimeLimit)
        → (given p && not (given w)) ≡ true
        → (given_or junk (wall_from w p)).hard ≡ 3 * (given_or junk p).hard
    three_lem none (some p) h = refl
    three_lem (some w) (some p) h = cc
    three_lem (some w) none h = cc
    three_lem none none h = cc
