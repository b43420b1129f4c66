-- ===== src/Programming/Process/Visit.antt =====
-- One step of the loop of `process` over the tasks keeps the invariant.
use judge_system.Base.{
  ℕ, zero, suc, ◌+◌, ◌≤◌, ◌<◌, ◌≡◌, refl, Bool, true, false, not, ◌&&◌, none, some, List, [], ◌∷◌,
  ℤ, pos, negsuc, if◌then◌else◌, length, get_elem?, eq_ℤ, leb, arith, ◌==◌, Bool-cases, inl, inr,
  ap, ==_iff,
}
use judge_system.Status.{running}
use judge_system.Status.Phase.{active, is_waiting}
use judge_system.Submission.{ClientTask}
use judge_system.Programming.{JudgeTask}
use judge_system.Programming.Process.{set_status, Progress, dispatch, finish, client_task}
use judge_system.Programming.Process.Phases.{
  phase_at, phase_at-set_status, open_count-set_status, length-set_status, sent-push,
}
use judge_system.Programming.Process.Invariant.{
  IsForest, depends, awaits, Settled, Inv, nobody, visiting,
}

pub get_elem?-lt {ℓ} :
    {A : Type ℓ} (xs : List A) (i : ℕ) {a : A} → get_elem? xs i ≡ some a → i < length xs
get_elem?-lt [] i e = cc
get_elem?-lt (x ∷ xs) zero e = omega arith
get_elem?-lt (x ∷ xs) (suc i) e = omega (arith, get_elem?-lt xs i e)

get_elem?-length {ℓ} : {A : Type ℓ} (xs : List A) (i : ℕ) → length xs ≤ i → get_elem? xs i ≡ none
get_elem?-length [] i h = refl
get_elem?-length (x ∷ xs) zero h = absurd (omega arith)
get_elem?-length (x ∷ xs) (suc i) h = get_elem?-length xs i (omega arith)

module _ (tasks : List JudgeTask) where
  pub visiting-skip :
      (orphan : ℕ → Bool) (k i : ℕ)
      → depends tasks k i ≡ false
      → (j : ℕ) → visiting tasks orphan k i j ≡ visiting tasks orphan k (suc i) j
  visiting-skip orphan k i other j = elim (Bool-cases (i == j)) [
    | inl e ↦ let same : i ≡ j = (==_iff i j).0 e in ground (arith, ap (depends tasks k) same)
    | inr e ↦ ground arith
  ]

  pub visiting-child :
      (orphan : ℕ → Bool) (k i : ℕ)
      → orphan i ≡ false
      → (j : ℕ) → (visiting tasks orphan k i j && not (j == i)) ≡ visiting tasks orphan k (suc i) j
  visiting-child orphan k i old j = elim (Bool-cases (i == j)) [
    | inl e ↦ let same : i ≡ j = (==_iff i j).0 e in ground (arith, ap orphan same)
    | inr e ↦ ground arith
  ]

  pub visiting-end :
      (orphan : ℕ → Bool) (k : ℕ) (j : ℕ)
      → visiting tasks orphan k (length tasks) j ≡ (orphan j && not (j == k))
  visiting-end orphan k j = elim (Bool-cases (leb (length tasks) j)) [
    | inl e ↦ ground (arith, get_elem?-length tasks j)
    | inr e ↦ rw e (ground arith)
  ]

module _ {tasks : List JudgeTask} {busy : List ClientTask} (forest : IsForest tasks) where
  module _ (orphan : ℕ → Bool) (due k i judge_id : ℕ) (t : JudgeTask) (p : Progress)
      (here : get_elem? tasks i ≡ some t) (dep : eq_ℤ t.depends_on (pos k) ≡ true)
      (fresh : (j : ℕ) → depends tasks k j ≡ true → orphan j ≡ false)
      (inv : Inv tasks busy (visiting tasks orphan k i) nobody due p) where
    pub depends_here : depends tasks k i ≡ true
    depends_here = rw (here, depends) dep

    pub waits : is_waiting (phase_at p.results i) ≡ true
    waits = go t.depends_on refl
      where
        go : (d : ℤ) → t.depends_on ≡ d → is_waiting (phase_at p.results i) ≡ true
        go (negsuc _) q = ground arith
        go (pos d) q = ground (arith, inv.linked i t here, depends_here)

    pub dispatch-Inv :
        Inv tasks busy (visiting tasks orphan k (suc i)) nobody due (dispatch judge_id i t p)
    unfolding dispatch
    dispatch-Inv = record {
      sized = omega (arith, length-set_status p.results i running, inv.sized);
      counted = ground (arith, open_count-set_status p.results i running lt, inv.counted, waits);
      linked = λ j u e. linked j u e u.depends_on refl;
      orphaned = λ j u e o. orphaned j u e o u.depends_on refl;
      flying = λ j.
          ground
            (arith, at_ j, inv.flying j, sent-push j p.queue (client_task judge_id i t), waits);
    }
      where
        lt : i < length p.results
        lt = omega (arith, get_elem?-lt tasks i here, inv.sized)

        at_ :
            (j : ℕ)
            → phase_at (set_status p.results i running) j
              ≡ (if i == j then active else phase_at p.results j)
        at_ j = phase_at-set_status p.results i running j lt

        linked :
            (j : ℕ) (u : JudgeTask)
            → get_elem? tasks j ≡ some u
            → (d : ℤ) → u.depends_on ≡ d
            → is_waiting (phase_at (set_status p.results i running) j)
              ≡ awaits
                  (set_status p.results i running)
                  (visiting tasks orphan k (suc i))
                  u.depends_on
                  j
        linked j u e (negsuc d) q = ground (arith, at_ j, inv.linked j u e)
        linked j u e (pos d) q = ground (
          arith,
          at_ j,
          at_ d,
          inv.linked j u e,
          inv.orphaned j u e,
          fresh j,
          depends_here,
          forest.earlier j u e,
          waits,
        )

        orphaned :
            (j : ℕ) (u : JudgeTask)
            → get_elem? tasks j ≡ some u
            → visiting tasks orphan k (suc i) j ≡ true
            → (d : ℤ) → u.depends_on ≡ d
            → Settled (set_status p.results i running) u.depends_on
        orphaned j u e o (negsuc d) q = rw q tt
        orphaned j u e o (pos d) q = ground (
          arith,
          at_ j,
          at_ d,
          inv.orphaned j u e,
          fresh j,
          depends_here,
          forest.earlier j u e,
          waits,
        )

  pub hide-Inv :
      {orphan : ℕ → Bool} {due : ℕ} {p : Progress} (i : ℕ)
      → is_waiting (phase_at p.results i) ≡ true
      → Inv tasks busy orphan nobody due p
      → Inv tasks busy orphan (λ j. j == i) due p
  hide-Inv {p = p} i w inv = record {
    sized = inv.sized;
    counted = inv.counted;
    linked = inv.linked;
    orphaned = inv.orphaned;
    flying = λ j. elim (Bool-cases (j == i)) [
      | inl e ↦
          let same : j ≡ i = (==_iff j i).0 e in
          ground (arith, inv.flying j, ap (phase_at p.results) same)
      | inr e ↦ rw e (inv.flying j)
    ];
  }

  pub finish-Inv :
      {orphan : ℕ → Bool} {due : ℕ} {p : Progress}
      → Inv tasks busy orphan nobody (due + 1) p
      → Inv tasks busy orphan nobody due (finish p)
  finish-Inv inv = record {
    sized = inv.sized;
    counted = omega (arith, inv.counted);
    linked = inv.linked;
    orphaned = inv.orphaned;
    flying = inv.flying;
  }
