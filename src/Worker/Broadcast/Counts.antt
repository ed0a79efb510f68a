-- ===== src/Worker/Broadcast/Counts.antt =====
-- A broadcast records one delivery for every recipient, and its counters count them.
use saveinator.Prelude.{
  ℕ, suc, ◌+◌, ◌≡◌, refl, ap, true, false, Bool, List, [], ◌∷◌, ◌++◌, arith, ℤ, if◌then◌else◌,
}
use saveinator.Worker.Broadcast.{
  Status, sent, failed, blocked, Counters, bump, Event, running, sleep_seconds, delivery, progress,
  sleep_delay, complete,
}

-- the recipients that a delivery is recorded for
abbrev pub recipients : List Event → List ℤ
recipients [] = []
recipients (e ∷ es) = elim e [
  | delivery user status text ↦ user ∷ recipients es
  | _ ↦ recipients es
]

abbrev same_status : Status → Status → Bool
same_status sent sent = true
same_status failed failed = true
same_status blocked blocked = true
same_status _ _ = false

-- how many deliveries are recorded with a status
abbrev pub counted : Status → List Event → ℕ
counted s [] = 0
counted s (e ∷ es) = elim e [
  | delivery user status text ↦ (if same_status s status then suc (counted s es) else counted s es)
  | _ ↦ counted s es
]

abbrev count_of : Status → Counters → ℕ
count_of sent k = k.sent
count_of failed k = k.failed
count_of blocked k = k.blocked

abbrev pub total_of : Counters → ℕ
total_of k = k.sent + k.failed + k.blocked

recipients-append : (es fs : List Event) → recipients (es ++ fs) ≡ recipients es ++ recipients fs
recipients-append [] fs = refl
recipients-append (delivery u s t ∷ es) fs = ap (λ r. u ∷ r) (recipients-append es fs)
recipients-append (running n ∷ es) fs = recipients-append es fs
recipients-append (sleep_seconds n ∷ es) fs = recipients-append es fs
recipients-append (progress k ∷ es) fs = recipients-append es fs
recipients-append (sleep_delay ∷ es) fs = recipients-append es fs
recipients-append (complete k ∷ es) fs = recipients-append es fs

pub total-bump : (status : Status) (k : Counters) → total_of (bump status k) ≡ suc (total_of k)
unfolding bump
total-bump sent k = omega arith
total-bump failed k = omega arith
total-bump blocked k = omega arith

-- Events that neither reading sees.
abbrev Quiet : List Event → Type 0
Quiet ws =
    (es : List Event)
    → (recipients (ws ++ es) ≡ recipients es) × ((s : Status) → counted s (ws ++ es) ≡ counted s es)
