-- ===== src/Worker/Broadcast.antt =====
-- A broadcast: go/internal/worker/broadcast.go. What Telegram answers to the first and to the second
-- message for a recipient is an argument, and so are the settings and the database's answer. What the
-- task does to the database and how long it sleeps is listed in order; the database's errors are
-- dropped, as in the source. Counters are of numbers that do not reach 2^63.
pub mod Counts
pub mod Batches
use saveinator.Prelude.{
  ℕ, suc, ◌+◌, ◌%◌, Bool, true, false, ◌&&◌, List, [], ◌∷◌, ◌++◌, Option, none, some, Bytes, codes,
  length, take, ltb, ◌==◌, ℤ, pos, negsuc, eq_ℤ, ltb_ℤ, if◌then◌else◌,
}
use saveinator.Text.Search.{has_substring}
use saveinator.Text.Trim.{to_lower}
use saveinator.Queue.Payload.{BroadcastPayload}

-- The parts of a `telegoapi.Error` that are read, and an error of the sending with its text.
pub record ApiError : Type 0 where
  pub error_code : ℤ
  pub retry_after : ℤ

pub record SendError : Type 0 where
  pub api : Option ApiError
  pub text : Bytes

unfoldable pub is_blocked_error : SendError → Bool
is_blocked_error e = elim e.api [
  | some api ↦ eq_ℤ api.error_code (pos 403)
  | none ↦ has_substring (to_lower e.text) (codes "forbidden")
]

unfoldable pub extract_retry_after : SendError → ℤ
extract_retry_after e = elim e.api [
  | some api ↦ if ltb_ℤ (pos 0) api.retry_after then api.retry_after else pos 0
  | none ↦ pos 0
]

-- of an error that is not nil
unfoldable pub truncate_err : SendError → Bytes
truncate_err e = if ltb 500 (length e.text) then take 500 e.text else e.text

pub data Status : Type 0 where
  sent failed blocked : Status

pub record Counters : Type 0 where
  pub sent : ℕ
  pub failed : ℕ
  pub blocked : ℕ

unfoldable pub bump : Status → Counters → Counters
bump sent k = record k { sent = suc k.sent }
bump failed k = record k { failed = suc k.failed }
bump blocked k = record k { blocked = suc k.blocked }

pub data Event : Type 0 where
  running : ℕ → Event
  sleep_seconds : ℤ → Event
  delivery : ℤ → Status → Bytes → Event
  progress : Counters → Event
  sleep_delay : Event
  complete : Counters → Event

-- (idx+1) % batchSize == 0, for a positive size
unfoldable pub ends_batch : ℤ → ℕ → Bool
ends_batch (pos n) idx = ltb 0 n && (suc idx % n == 0)
ends_batch (negsuc n) idx = false

module _ (first again : ℕ → ℤ → Option SendError) (delay_ms batch_size : ℤ) where
  -- one recipient: how it ended, with the wait before a second message
  unfoldable pub deliver : ℕ → ℤ → List Event × Status × Bytes
  deliver idx user = elim (first idx user) [
    | none ↦ ([], sent, [])
    | some e ↦
        if is_blocked_error e
        then ([], blocked, [])
        else if ltb_ℤ (pos 0) (extract_retry_after e)
        then elim (again idx user) [
          | none ↦ (sleep_seconds (extract_retry_after e) ∷ [], sent, [])
          | some e2 ↦ (sleep_seconds (extract_retry_after e) ∷ [], failed, truncate_err e2)
        ]
        else ([], failed, truncate_err e)
  ]

  -- The loop from the recipient with the index `idx` on, of `total` recipients.
  unfoldable pub broadcast_loop : ℕ → ℕ → Counters → List ℤ → List Event × Counters
  broadcast_loop total idx k [] = ([], k)
  broadcast_loop total idx k (user ∷ users) =
      let (waits, status, text) = deliver idx user in
      let k' = bump status k in
      let (events, end) = broadcast_loop total (suc idx) k' users in
      (
        waits
            ++ delivery user status text
              ∷ ((if ends_batch batch_size idx then progress k' ∷ [] else [])
                  ++ ((if ltb_ℤ (pos 0) delay_ms && ltb (suc idx) total
                        then sleep_delay ∷ []
                        else [])
                      ++ events)),
        end,
      )

  -- `none` is an error. The payload is none where it is malformed; the broadcast is none for an error
  -- of the database, and `some false` where there is none.
  unfoldable pub handle_broadcast : Option BroadcastPayload → Option Bool → Option (List Event)
  handle_broadcast none row = none
  handle_broadcast (some p) none = none
  handle_broadcast (some p) (some false) = some []
  handle_broadcast (some p) (some true) =
      let total = length p.user_ids in
      let (events, k) =
        broadcast_loop total 0 (record { sent = 0; failed = 0; blocked = 0 }) p.user_ids in
      some (running total ∷ (events ++ complete k ∷ []))
