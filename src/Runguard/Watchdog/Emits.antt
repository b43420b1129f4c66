-- ===== src/Runguard/Watchdog/Emits.antt =====
-- What happens while a part of the watchdog runs, and how much of it if the part throws.
use judge_system.Base.{
  ℕ, ◌≡◌, ◌⊎◌, refl, sym, ap, ◌∙◌, Bool, true, false, List, [], ◌∷◌, ◌++◌, map, Option, none, some,
  if◌then◌else◌, Bool-cases, inl, inr,
}
use mathlib.Core.List.{append_assoc, append-nil}
use judge_system.Runguard.{unknown}
use judge_system.Runguard.Run.{◌>>=◌, ◌>>◌, done, throw, ask, when}
use judge_system.Runguard.Watchdog.{
  Step, Event, task_killed, Outside, Code, found, attempt, emit, act, cgroup_kill, returned,
}

-- What makes an exception: a call that fails, or a status of the command that is none.
abbrev pub Cause : Outside → Type 0
Cause o = ((step : Step) × (o.succeeds step ≡ false)) ⊎ (o.status ≡ unknown)

-- An exception after a first part of the events `es`, for a cause.
abbrev pub Stops : {A : Type 0} → Outside → List Event → List Event → Option A × List Event → Type 0
Stops o t es r = (u v : List Event) × (r ≡ (none, t ++ u)) × (u ++ v ≡ es) × Cause o

-- The events happen, or an exception ends them.
pub record Emits (o : Outside) (m : Code (Unit {0})) (es : List Event) : Type 0 where
  pub from : (t : List Event) → (m o t ≡ (some tt, t ++ es)) ⊎ Stops o t es (m o t)

-- After `t`, the end of code that is to give a result with some last events, or that cannot end well.
abbrev pub Finishes :
    {A : Type 0} → Option (A × List Event) → List Event → Option A × List Event → Type 0
Finishes none t r = ⊥
Finishes (some (a, fs)) t r = r ≡ (some a, t ++ fs)

-- The events `es` happen, and then the last ones, with no exception among these.
pub record Ends {A : Type 0} (o : Outside) (m : Code A) (final : Option (A × List Event))
    (es : List Event) : Type 0 where
  pub from : (t : List Event) → Finishes final (t ++ es) (m o t) ⊎ Stops o t es (m o t)

-- An exception before anything happens.
at_once :
    {A : Type 0} (o : Outside) (t es : List Event) (r : Option A × List Event)
    → r ≡ (none, t)
    → Cause o
    → Stops o t es r
at_once o t es r e c = ([], es, e ∙ (λ i. (none, sym (append-nil t) i)), refl, c)

pub attempt-Emits : (o : Outside) (step : Step) → Emits o (attempt step) []
unfolding attempt
attempt-Emits o step = record {
  from = λ t. elim (Bool-cases (o.succeeds step)) [
    | inl e ↦ inl (rw e (λ i. (some tt, sym (append-nil t) i)))
    | inr e ↦ inr (at_once o t [] _ (rw e refl) (inl (step, e)))
  ];
}

pub emit-Emits : (o : Outside) (es : List Event) → Emits o (emit es) es
unfolding emit
emit-Emits o es = record { from = λ t. inl refl }

pub done-Emits : (o : Outside) → Emits o done []
unfolding done
done-Emits o = record { from = λ t. inl (λ i. (some tt, sym (append-nil t) i)) }

pub when-Emits :
    (o : Outside) (b : Bool) (m : Code (Unit {0})) (es : List Event)
    → Emits o m es
    → Emits o (when b m) (if b then es else [])
unfolding when
when-Emits o true m es h = h
when-Emits o false m es h = done-Emits o

pub when-attempt-Emits : (o : Outside) (b : Bool) (step : Step) → Emits o (when b (attempt step)) []
when-attempt-Emits o true step = when-Emits o true (attempt step) [] (attempt-Emits o step)
when-attempt-Emits o false step = when-Emits o false (attempt step) [] (attempt-Emits o step)

-- A first part ends well, and the exception comes in a second one.
later :
    {A : Type 0} (o : Outside) (t es fs : List Event) (r : Option A × List Event)
    → Stops o (t ++ es) fs r
    → Stops o t (es ++ fs) r
later o t es fs r (u, v, e, p, c) = (
  es ++ u,
  v,
  e ∙ (λ i. (none, append_assoc t es u i)),
  append_assoc es u v ∙ ap (λ l. es ++ l) p,
  c,
)

-- The exception comes in the first of two parts.
sooner :
    {A B : Type 0} (o : Outside) (t es fs : List Event) (r : Option A × List Event)
    (r' : Option B × List Event)
    → ((u : List Event) → r ≡ (none, u) → r' ≡ (none, u))
    → Stops o t es r
    → Stops o t (es ++ fs) r'
sooner o t es fs r r' same (u, v, e, p, c) =
    (u, v ++ fs, same (t ++ u) e, sym (append_assoc u v fs) ∙ ap (λ l. l ++ fs) p, c)

pub >>-Emits :
    (o : Outside) (m n : Code (Unit {0})) (es fs : List Event)
    → Emits o m es
    → Emits o n fs
    → Emits o (m >> n) (es ++ fs)
unfolding ◌>>◌ ◌>>=◌
>>-Emits o m n es fs h g = record {
  from = λ t. elim (h.from t) [
    | inr f ↦ inr (sooner o t es fs _ _ (λ u e. rw (e, ◌>>=◌) refl) f)
    | inl e ↦ elim (g.from (t ++ es)) [
      | inl f ↦ inl (rw (e, ◌>>=◌) (f ∙ (λ i. (some tt, append_assoc t es fs i))))
      | inr f ↦ inr (rw (e, ◌>>=◌) (later o t es fs _ f))
    ]
  ];
}

pub >>-Ends :
    {A : Type 0} (o : Outside) (m : Code (Unit {0})) (n : Code A) (final : Option (A × List Event))
    (es fs : List Event)
    → Emits o m es
    → Ends o n final fs
    → Ends o (m >> n) final (es ++ fs)
unfolding ◌>>◌ ◌>>=◌
>>-Ends o m n final es fs h g = record {
  from = λ t. elim (h.from t) [
    | inr f ↦ inr (sooner o t es fs _ _ (λ u e. rw (e, ◌>>=◌) refl) f)
    | inl e ↦ elim (g.from (t ++ es)) [
      | inl f ↦ inl (rw (e, ◌>>=◌, sym (append_assoc t es fs)) f)
      | inr f ↦ inr (rw (e, ◌>>=◌) (later o t es fs _ f))
    ]
  ];
}

pub found-Ends :
    {A : Type 0} (o : Outside) (f : Outside → Code A) (final : Option (A × List Event))
    (es : List Event)
    → Ends o (f o) final es
    → Ends o (found >>= f) final es
unfolding found ask ◌>>=◌
found-Ends o f final es h = record { from = h.from }

pub throw-Ends :
    {A : Type 0} (o : Outside) (es : List Event) → o.status ≡ unknown → Ends {A = A} o throw none es
unfolding throw
throw-Ends o es h = record { from = λ t. inr (at_once o t es _ refl (inr h)) }

-- Last events, which cannot fail.
pub emit-Ends : (o : Outside) (fs : List Event) → Ends o (emit fs) (some (tt, fs)) []
unfolding emit
emit-Ends o fs = record { from = λ t. inl (rw (append-nil t) refl) }

pub returned-Ends :
    (o : Outside) (m : Code (Unit {0})) (code : ℕ) (es fs : List Event)
    → Ends o m (some (tt, fs)) es
    → Ends o (m >> returned code) (some (code, fs)) es
unfolding ◌>>◌ ◌>>=◌
returned-Ends o m code es fs h = record {
  from = λ t. elim (h.from t) [
    | inl e ↦ inl (rw (e, ◌>>=◌) refl)
    | inr (u, v, e, p, c) ↦ inr (u, v, rw (e, ◌>>=◌) refl, p, c)
  ];
}

pub act-Emits : (o : Outside) (step : Step) (e : Event) → Emits o (act step e) (e ∷ [])
unfolding act
act-Emits o step e = >>-Emits o _ _ [] (e ∷ []) (attempt-Emits o step) (emit-Emits o (e ∷ []))

pub cgroup_kill-Emits :
    (o : Outside) (pids : List ℕ) → Emits o (cgroup_kill pids) (map task_killed pids)
unfolding cgroup_kill
cgroup_kill-Emits o [] = done-Emits o
cgroup_kill-Emits o (pid ∷ rest) =
    >>-Emits o _ _ (task_killed pid ∷ []) (map task_killed rest)
      (emit-Emits o (task_killed pid ∷ [])) (cgroup_kill-Emits o rest)
