-- ===== src/Programming/Schedule/Start.antt =====
-- `distribute` brings a submission into the state that the invariant describes.
use judge_system.Base.{
  ℕ, zero, suc, ◌+◌, ◌≤◌, ◌<◌, ◌≡◌, refl, Bool, true, false, not, ◌&&◌, none, some, List, [], ◌∷◌,
  ℤ, pos, negsuc, if◌then◌else◌, length, get_elem?, is_negative, leb, arith, ◌==◌, Bool-cases, inl,
  inr, ap, ◌∙◌, sym, ==_iff,
}
use judge_system.Status.{Status, running}
use judge_system.Status.Phase.{waiting, active, settled, is_waiting}
use judge_system.Queue.{empty}
use judge_system.Programming.{JudgeTask, JudgeTaskResult, new_result}
use judge_system.Programming.Process.{
  set_status, Progress, dispatch, client_task, resize, reset, send_roots, distribute,
}
use judge_system.Programming.Process.Phases.{
  phase_at, active_bit, open_count, sent, phase_at-set_status, open_count-set_status,
  length-set_status, sent-push,
}
use judge_system.Programming.Process.Invariant.{IsForest, awaits, Inv, nobody}
use judge_system.Programming.Process.Visit.{get_elem?-lt}

length-resize :
    (n : ℕ) (fresh : JudgeTaskResult) (rs : List JudgeTaskResult) → length (resize n fresh rs) ≡ n
length-resize zero fresh rs = refl
length-resize (suc n) fresh [] = ap suc (length-resize n fresh [])
length-resize (suc n) fresh (r ∷ rs) = ap suc (length-resize n fresh rs)

length-reset : (i : ℕ) (rs : List JudgeTaskResult) → length (reset i rs) ≡ length rs
length-reset i [] = refl
length-reset i (r ∷ rs) = ap suc (length-reset (suc i) rs)

phase_at-reset :
    (i : ℕ) (rs : List JudgeTaskResult) (j : ℕ) → j < length rs → phase_at (reset i rs) j ≡ waiting
unfolding phase_at
phase_at-reset i [] j h = elim h [ ]
phase_at-reset i (r ∷ rs) zero h = refl
phase_at-reset i (r ∷ rs) (suc j) h = phase_at-reset (suc i) rs j (omega arith)

phase_at-out : (rs : List JudgeTaskResult) (j : ℕ) → length rs ≤ j → phase_at rs j ≡ settled
unfolding phase_at
phase_at-out [] j h = refl
phase_at-out (r ∷ rs) zero h = absurd (omega arith)
phase_at-out (r ∷ rs) (suc j) h = phase_at-out rs j (omega arith)

open_count-reset : (i : ℕ) (rs : List JudgeTaskResult) → open_count (reset i rs) ≡ length rs
unfolding open_count
open_count-reset i [] = refl
open_count-reset i (r ∷ rs) = omega (arith, open_count-reset (suc i) rs)

-- While the roots are sent: those from index `i` on still wait.
abbrev root_at : List JudgeTask → ℕ → Bool
root_at tasks j = elim (get_elem? tasks j) [ none ↦ false | some t ↦ is_negative t.depends_on ]

record Sending (tasks : List JudgeTask) (i : ℕ) (p : Progress) : Type 0 where
  sized : length p.results ≡ length tasks
  opened : open_count p.results ≡ length tasks
  finished : p.finished ≡ 0
  silent : p.events ≡ []
  phases :
      (j : ℕ)
      → phase_at p.results j ≡ (
          if leb (length tasks) j
          then settled
          else if root_at tasks j && not (leb i j)
          then active
          else waiting)
  queued : (j : ℕ) → sent j p.queue.q ≡ active_bit (phase_at p.results j)

module _ (tasks : List JudgeTask) (judge_id : ℕ) where
  send_root :
      (i : ℕ) (t : JudgeTask) (p : Progress)
      → get_elem? tasks i ≡ some t
      → Sending tasks i p
      → Sending tasks (suc i) (if is_negative t.depends_on then dispatch judge_id i t p else p)
  unfolding dispatch
  send_root i t p e s = elim (Bool-cases (is_negative t.depends_on)) [
    | inl root ↦ rw root (record {
      sized = omega (arith, length-set_status p.results i running, s.sized);
      opened = ground (
        arith,
        open_count-set_status p.results i running lt,
        s.opened,
        root_here root,
        s.phases i,
        below,
      );
      finished = s.finished;
      silent = s.silent;
      phases = λ j. elim (Bool-cases (i == j)) [
        | inl same ↦
            ground (arith, at_ j, ap (root_at tasks) ((==_iff i j).0 same), root_here root, below)
        | inr other ↦ ground (arith, at_ j, s.phases j)
      ];
      queued = λ j. ground (
        arith,
        at_ j,
        s.queued j,
        sent-push j p.queue (client_task judge_id i t),
        s.phases i,
        root_here root,
        below,
      );
    })
    | inr root ↦ rw root (record {
      sized = s.sized;
      opened = s.opened;
      finished = s.finished;
      silent = s.silent;
      phases = λ j. elim (Bool-cases (i == j)) [
        | inl same ↦
            ground (arith, s.phases j, ap (root_at tasks) ((==_iff i j).0 same), not_root root)
        | inr other ↦ ground (arith, s.phases j)
      ];
      queued = s.queued;
    })
  ]
    where
      lt : i < length p.results
      lt = omega (arith, get_elem?-lt tasks i e, s.sized)

      below : i < length tasks
      below = get_elem?-lt tasks i e

      root_here : is_negative t.depends_on ≡ true → root_at tasks i ≡ true
      root_here r = rw (e, root_at) r

      not_root : is_negative t.depends_on ≡ false → root_at tasks i ≡ false
      not_root r = rw (e, root_at) r

      at_ :
          (j : ℕ)
          → phase_at (set_status p.results i running) j
            ≡ (if i == j then active else phase_at p.results j)
      at_ j = phase_at-set_status p.results i running j lt

  send_roots-Sending :
      (i : ℕ) (rest : List JudgeTask) (p : Progress)
      → ((j : ℕ) → get_elem? rest j ≡ get_elem? tasks (i + j))
      → i + length rest ≡ length tasks
      → Sending tasks i p
      → Sending tasks (length tasks) (send_roots judge_id i rest p)
  unfolding send_roots
  send_roots-Sending i [] p suffix total s =
      let stop : i ≡ length tasks = omega arith in rw (← stop) s
  send_roots-Sending i (t ∷ rest) p suffix total s =
      let z : i + 0 ≡ i = omega arith in
      send_roots-Sending (suc i) rest _ (λ j. suffix (suc j) ∙ ap (get_elem? tasks) (omega arith))
        (omega arith) (send_root i t p (rw z at (sym (suffix 0))) s)

  Sending-Inv :
      (p : Progress)
      → IsForest tasks
      → Sending tasks (length tasks) p
      → Inv tasks [] nobody nobody 0 p
  unfolding sent
  Sending-Inv p forest s = record {
    sized = s.sized;
    counted = omega (arith, s.finished, s.opened);
    linked = λ i t e. linked i t e t.depends_on refl;
    orphaned = λ i t e o. cc;
    flying = λ i. ground (arith, s.queued i);
  }
    where
      root_value :
          (i : ℕ) (t : JudgeTask)
          → get_elem? tasks i ≡ some t
          → root_at tasks i ≡ is_negative t.depends_on
      root_value i t e = rw (e, root_at)

      linked :
          (i : ℕ) (t : JudgeTask)
          → get_elem? tasks i ≡ some t
          → (d : ℤ) → t.depends_on ≡ d
          → is_waiting (phase_at p.results i) ≡ awaits p.results nobody t.depends_on i
      linked i t e (negsuc d) q =
          rw q (ground (arith, s.phases i, root_value i t e, get_elem?-lt tasks i e))
      linked i t e (pos d) q = rw q (
          ground (
            arith,
            s.phases i,
            s.phases d,
            root_value i t e,
            get_elem?-lt tasks i e,
            forest.earlier i t e,
          ))

-- The state in which the workers find a submission meets the invariant, and nothing is reported yet.
pub distribute-Inv :
    (judge_id : ℕ) (junk : Status) (tasks : List JudgeTask) (old : List JudgeTaskResult)
    → IsForest tasks
    → let p =
        distribute judge_id junk tasks
          (record { results = old; finished = 0; queue = empty; events = [] }) in
      Inv tasks [] nobody nobody 0 p × (p.events ≡ []) × (p.finished ≡ 0)
unfolding distribute sent
distribute-Inv judge_id junk tasks old forest =
    (Sending-Inv tasks judge_id _ forest s, s.silent, s.finished)
  where
    fresh : List JudgeTaskResult
    fresh = resize (length tasks) (new_result junk "" 0) old

    size : length fresh ≡ length tasks
    size = length-resize (length tasks) (new_result junk "" 0) old

    sized : length (reset 0 fresh) ≡ length tasks
    sized = length-reset 0 fresh ∙ size

    phases :
        (j : ℕ)
        → phase_at (reset 0 fresh) j ≡ (
            if leb (length tasks) j
            then settled
            else if root_at tasks j && not (leb 0 j)
            then active
            else waiting)
    phases j = elim (Bool-cases (leb (length tasks) j)) [
      | inl out ↦ rw out (phase_at-out (reset 0 fresh) j (ground (arith, sized)))
      | inr inside ↦ ground (arith, phase_at-reset 0 fresh j, size)
    ]

    s : Sending tasks (length tasks) (
        send_roots judge_id 0 tasks
          (record { results = reset 0 fresh; finished = 0; queue = empty; events = [] }))
    s =
        send_roots-Sending tasks judge_id 0 tasks _ (λ j. ap (get_elem? tasks) (omega arith))
          (omega arith)
          (record {
            sized = sized;
            opened = omega (arith, open_count-reset 0 fresh, size);
            finished = refl;
            silent = refl;
            phases = phases;
            queued = λ j. ground (arith, phases j);
          })
