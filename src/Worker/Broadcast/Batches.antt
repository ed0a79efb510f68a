-- ===== src/Worker/Broadcast/Batches.antt =====
-- When a broadcast's progress is recorded, and how long the texts of errors are.
use saveinator.Prelude.{
  ℕ, suc, ◌%◌, ◌≤◌, ◌≡◌, true, false, Bool, List, [], ◌∷◌, Option, arith, length, length-take, ltb,
  ℤ, pos, if◌then◌else◌, ltb_ℤ, ◌&&◌, All, All-append, inl, inr, Option-cases, Bool-cases,
}
use saveinator.Worker.Broadcast.{
  SendError, Counters, bump, Event, sleep_seconds, delivery, progress, sleep_delay,
  is_blocked_error, extract_retry_after, truncate_err, ends_batch, deliver, broadcast_loop,
}
use saveinator.Worker.Broadcast.Counts.{total_of, total-bump}

truncate_err_short : (e : SendError) → length (truncate_err e) ≤ 500
unfolding truncate_err
truncate_err_short e = elim (Bool-cases (ltb 500 (length e.text))) [
  | inl h ↦ rw h (length-take 500 e.text)
  | inr h ↦ rw h (ground (arith, h))
]

module _ (first again : ℕ → ℤ → Option SendError) (delay_ms : ℤ) (n : ℕ) where
  -- what a recorded event keeps to: whole batches, short texts, waits that wait
  abbrev pub WellTimed : Event → Type 0
  WellTimed (delivery user status text) = length text ≤ 500
  WellTimed (progress k) = total_of k % n ≡ 0
  WellTimed (sleep_seconds t) = ltb_ℤ (pos 0) t ≡ true
  WellTimed _ = Unit

  deliver-WellTimed :
      (idx : ℕ) (user : ℤ)
      → All WellTimed (deliver first again delay_ms (pos n) idx user).0
        × (length (deliver first again delay_ms (pos n) idx user).2 ≤ 500)
  unfolding deliver
  deliver-WellTimed idx user = elim (Option-cases (first idx user)) [
    | inl e ↦ rw (e, deliver) (tt, omega arith)
    | inr (err, e) ↦ elim (Bool-cases (is_blocked_error err)) [
      | inl b ↦ rw (e, b, deliver) (tt, omega arith)
      | inr b ↦ elim (Bool-cases (ltb_ℤ (pos 0) (extract_retry_after err))) [
        | inr t ↦ rw (e, b, t, deliver) (tt, truncate_err_short err)
        | inl t ↦ elim (Option-cases (again idx user)) [
          | inl e2 ↦ rw (e, b, t, e2, deliver) ((t, tt), omega arith)
          | inr (err2, e2) ↦ rw (e, b, t, e2, deliver) ((t, tt), truncate_err_short err2)
        ]
      ]
    ]
  ]

  progress-WellTimed :
      (idx : ℕ) (k : Counters)
      → total_of k ≡ suc idx
      → All WellTimed (if ends_batch (pos n) idx then progress k ∷ [] else [])
  unfolding ends_batch
  progress-WellTimed idx k h = elim (Bool-cases (ends_batch (pos n) idx)) [
    | inr e ↦ rw e tt
    | inl e ↦ rw e (rw h (ground (arith, e)), tt)
  ]

  sleep-WellTimed : (b : Bool) → All WellTimed (if b then sleep_delay ∷ [] else [])
  sleep-WellTimed true = (tt, tt)
  sleep-WellTimed false = tt

  -- From counters that add up to the index on, the loop of a broadcast records progress only where the
  -- number of recipients done is a multiple of the batch size, sleeps before a second message for a
  -- positive time only, and records no error text of more than 500 bytes.
  pub broadcast_loop-WellTimed :
      (total idx : ℕ) (k : Counters) (users : List ℤ)
      → total_of k ≡ idx
      → All WellTimed (broadcast_loop first again delay_ms (pos n) total idx k users).0
  unfolding broadcast_loop
  broadcast_loop-WellTimed total idx k [] h = tt
  broadcast_loop-WellTimed total idx k (user ∷ users) h =
      let status = (deliver first again delay_ms (pos n) idx user).1 in
      let k' = bump status k in
      let done : total_of k' ≡ suc idx = omega (arith, total-bump status k) in
      let late = ltb_ℤ (pos 0) delay_ms && ltb (suc idx) total in
      let (waits, short) = deliver-WellTimed idx user in
      All-append WellTimed _ _ waits (
        short,
        All-append WellTimed _ _ (progress-WellTimed idx k' done) (
            All-append WellTimed _ _ (sleep-WellTimed late)
              (broadcast_loop-WellTimed total (suc idx) k' users done)),
      )
