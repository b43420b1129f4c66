-- ===== src/Runguard/Child/Group.antt =====
-- The option --user without --group.
use judge_system.Base.{
  ◌≡◌, refl, ap, ◌∙◌, Bool, true, false, not, String, List, [], ◌∷◌, ◌++◌, Option, none, some,
  negsuc, is_negative, is_nil, if◌then◌else◌, any, any-append, Bool-cases, inl, inr, arith,
}
use judge_system.Runguard.CommandLine.{
  TimeLimit, System, CommandLine, RunguardOptions, read_options,
}
use judge_system.Runguard.Child.{
  Stream, Call, setgid, setgroups, freopen, execvp, Made, Kernel, tried, is_empty, redirect, child,
  Code,
}
use judge_system.Runguard.Run.{when, done, ◌>>◌, ◌>>=◌}
use judge_system.Runguard.Child.Calls.{oks}
use judge_system.Runguard.Child.Restricted.{
  limit_calls, root_calls, asked, group_id, dropped, filtered, child_lem,
}

-- Does the call change a group?
abbrev pub is_group_change : Made → Bool
is_group_change m = elim m.call [ setgid g ↦ true | setgroups g ↦ true | _ ↦ false ]

abbrev changes : List Made → Bool
changes = any is_group_change

if_lem :
    (b : Bool) (cs : List Call)
    → changes (oks cs) ≡ false
    → changes (oks (if b then cs else [])) ≡ false
if_lem true cs h = h
if_lem false cs h = refl

limit_lem : (opt : RunguardOptions) → changes (oks (limit_calls opt)) ≡ false
limit_lem opt = ground arith

root_lem : (opt : RunguardOptions) → changes (oks (root_calls opt)) ≡ false
root_lem opt = ground arith

record Untouched (t : List Made) : Type 0 where
  untouched : changes t ≡ false

quiet_append : (xs ys : List Made) → Untouched xs → Untouched ys → Untouched (xs ++ ys)
quiet_append xs ys h g = record {
  untouched = any-append is_group_change xs ys ∙ rw (h.untouched) g.untouched;
}

-- Code that never throws and changes no group.
record Quiet (m : Code (Unit {0})) : Type 0 where
  quiet :
      (k : Kernel) (t : List Made)
      → Untouched t
      → (u : List Made) × (m k t ≡ (some tt, u)) × Untouched u

freopen-Quiet :
    (b : Bool) (stream : Stream) (file : String) → Quiet (when b (tried (freopen stream file)))
unfolding when tried done
freopen-Quiet true stream file = record {
  quiet = λ k t h. (_, refl, quiet_append t _ h (record { untouched = refl }));
}
freopen-Quiet false stream file = record { quiet = λ k t h. (t, refl, h) }

>>-Quiet : (m n : Code (Unit {0})) → Quiet m → Quiet n → Quiet (m >> n)
unfolding ◌>>◌ ◌>>=◌
>>-Quiet m n h g = record {
  quiet = λ k t q.
      let (u, e, r) = h.quiet k t q in let (v, f, o) = g.quiet k u r in (v, rw (e, ◌>>=◌) f, o);
}

redirect-Quiet : (opt : RunguardOptions) → Quiet (redirect opt)
unfolding redirect
redirect-Quiet opt = >>-Quiet _ _ (freopen-Quiet (not (is_empty opt.stdout_filename)) _ _) (
    >>-Quiet _ _ (freopen-Quiet (not (is_empty opt.stderr_filename)) _ _)
      (freopen-Quiet (not (is_empty opt.stdin_filename)) _ _))

module _ (k : Kernel) (opt : RunguardOptions) (opened : List Made) where
  asked_lem : Untouched opened → Untouched (asked k opt opened)
  asked_lem o =
      quiet_append _ _
        (quiet_append _ _ (quiet_append _ _ o (record { untouched = limit_lem opt }))
          (record { untouched = refl }))
        (record { untouched = root_lem opt })

  dropped_lem :
      Untouched opened
      → is_negative (group_id k opt opened) ≡ true
      → Untouched (dropped k opt opened)
  dropped_lem o g =
      quiet_append _ _ (quiet_append _ _ (asked_lem o) (record { untouched = rw g refl }))
        (record { untouched = refl })

  filtered_lem :
      Untouched opened
      → is_negative (group_id k opt opened) ≡ true
      → Untouched (filtered k opt opened)
  filtered_lem o g = elim (Bool-cases (is_nil opt.syscalls)) [
    | inl e ↦ rw e (dropped_lem o g)
    | inr e ↦ rw e (quiet_append _ _ (dropped_lem o g) (record { untouched = refl }))
  ]

  started_lem :
      Untouched opened
      → is_negative (group_id k opt opened) ≡ true
      → Untouched (filtered k opt opened ++ oks (execvp opt.command ∷ []))
  started_lem o g = quiet_append _ _ (filtered_lem o g) (record { untouched = refl })

no_group_lem :
    (k : Kernel) (opt : RunguardOptions)
    → opt.group ≡ ""
    → ((t : List Made) → k.get_groupid t "" ≡ negsuc 0)
    → (child opt k []).0 ≡ some tt
    → changes (child opt k []).1 ≡ false
no_group_lem k opt g nameless started =
    let (opened, e, q) = (redirect-Quiet opt).quiet k [] (record { untouched = refl }) in
    ended opened (ap (λ r. r.1) e) q
  where
    impossible :
        (r : Option (Unit {0}) × List Made) (t : List Made) → r ≡ (none, t) → r.0 ≡ some tt → ⊥
    impossible r t e h = cc

    negative : (t : List Made) → is_negative (k.get_groupid t opt.group) ≡ true
    negative t = ap is_negative (ap (k.get_groupid t) g ∙ nameless t)

    ended :
        (opened : List Made)
        → (redirect opt k []).1 ≡ opened
        → Untouched opened
        → changes (child opt k []).1 ≡ false
    ended opened e q = elim (child_lem k opt []) [
      | inl (f, r) ↦
          ap (λ r. changes r.1) f
          ∙ (started_lem k opt (redirect opt k []).1 (rw e q)
              (negative (asked k opt (redirect opt k []).1))).untouched
      | inr (inl (call, t, f)) ↦ absurd (impossible _ _ f started)
      | inr (inr (f, r)) ↦ absurd (impossible _ _ f started)
    ]

-- With --user, but not --group, runguard takes the user's group as `group_id`, as it says in its help. But
-- the child looks up the group again, by the empty name: if the user database has no group of that
-- name, a command that starts has all the groups that runguard itself has.
pub user_only_lem :
    (s : System) (junk : TimeLimit) (c : CommandLine) (k : Kernel) (name : String)
    → c.user ≡ some name
    → c.group ≡ none
    → ((t : List Made) → k.get_groupid t "" ≡ negsuc 0)
    → (child (read_options s junk c) k []).0 ≡ some tt
    → ((read_options s junk c).group_id ≡ s.get_groupid name)
      × (any is_group_change (child (read_options s junk c) k []).1 ≡ false)
unfolding read_options
user_only_lem s junk c k name u g nameless started =
    (rw (g, u) refl, no_group_lem k (read_options s junk c) (rw g refl) nameless started)
