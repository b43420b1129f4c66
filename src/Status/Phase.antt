-- ===== src/Status/Phase.antt =====
-- The three phases of a task that the scheduling code tells apart.
use judge_system.Base.{◌≡◌, refl, Bool, true, false}
use judge_system.Status.{Status, pending, running, status_eq}

pub data Phase : Type 0 where
  waiting active settled : Phase

abbrev pub phase : Status → Phase
phase pending = Phase.waiting
phase running = Phase.active
phase _ = Phase.settled

abbrev pub is_waiting : Phase → Bool
is_waiting Phase.waiting = true
is_waiting _ = false

abbrev pub is_active : Phase → Bool
is_active Phase.active = true
is_active _ = false

abbrev pub is_settled : Phase → Bool
is_settled Phase.settled = true
is_settled _ = false

pub status_eq-running : (s : Status) → status_eq s running ≡ is_active (phase s)
unfolding status_eq
status_eq-running pending = refl
status_eq-running _ = refl

pub status_eq-pending : (s : Status) → status_eq s pending ≡ is_waiting (phase s)
unfolding status_eq
status_eq-pending pending = refl
status_eq-pending _ = refl
