-- ===== src/Tests/Worker.antt =====
-- A broadcast to three recipients: the first gets it, the second has blocked the bot, the third is sent
-- it twice and fails.
use saveinator.Prelude.{
  ℕ, ◌≡◌, refl, [], ◌∷◌, Option, none, some, arith, Bytes, codes, ℤ, pos, All, ◌==◌, if◌then◌else◌,
}
use saveinator.Queue.Payload.{BroadcastPayload}
use saveinator.Worker.Broadcast.{
  SendError, Counters, sleep_seconds, delivery, progress, sleep_delay, sent, failed, blocked,
  broadcast_loop, deliver, bump, is_blocked_error, extract_retry_after, truncate_err, ends_batch,
}
use saveinator.Worker.Broadcast.Batches.{WellTimed, broadcast_loop-WellTimed}

abbrev api_error : ℤ → ℤ → Bytes → SendError
api_error code retry text = record {
  api = some (record { error_code = code; retry_after = retry });
  text = text;
}

abbrev answers : ℕ → ℤ → Option SendError
answers idx user =
    if idx == 0
    then none
    else if idx == 1
    then some (api_error (pos 403) (pos 0) (codes "Forbidden"))
    else some (api_error (pos 429) (pos 3) (codes "Too Many Requests"))

abbrev payload : BroadcastPayload
payload = record {
  broadcast_id = pos 1;
  audience = codes "all";
  user_ids = pos 7 ∷ pos 8 ∷ pos 9 ∷ [];
}

abbrev zero_counters : Counters
zero_counters = record { sent = 0; failed = 0; blocked = 0 }

run :
    (broadcast_loop answers answers (pos 50) (pos 2) 3 0 zero_counters payload.user_ids).0
    ≡ delivery (pos 7) sent []
      ∷ sleep_delay
      ∷ delivery (pos 8) blocked []
      ∷ progress (record { sent = 1; failed = 0; blocked = 1 })
      ∷ sleep_delay
      ∷ sleep_seconds (pos 3)
      ∷ delivery (pos 9) failed (codes "Too Many Requests")
      ∷ []
unfolding broadcast_loop deliver bump is_blocked_error extract_retry_after truncate_err ends_batch
run = refl

broadcast_loop-WellTimed_example :
    All
      (WellTimed answers answers (pos 50) 2)
      (broadcast_loop answers answers (pos 50) (pos 2) 3 0 zero_counters payload.user_ids).0
broadcast_loop-WellTimed_example =
    broadcast_loop-WellTimed answers answers (pos 50) 2 3 0 zero_counters payload.user_ids
      (omega arith)
