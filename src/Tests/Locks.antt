-- ===== src/Tests/Locks.antt =====
-- The locks, the cancel button and the interleavings at a concrete server.
use saveinator.Prelude.{
  ℕ, ◌⊎◌, ◌≡◌, ◌≢◌, refl, true, [], none, some, arith, Bytes, codes, pos, eq_bytes,
}
use saveinator.Callback.Cancel.{Data, parse_cancel}
use saveinator.Redisx.Client.{
  Client, ActiveDownload, lock_key, cancel_key, lock_value, acquired, busy, failed,
  acquire_user_lock, release_user_lock, get_active_download, set_download_cancelled, key,
  active_of_parts,
}
use saveinator.Redisx.Trace.{acquire, Trace, here, then, run_call, acquire-Trace}
use saveinator.Text.Split.{split, split_n2}
use saveinator.Text.Decimal.{format_int, parse_int, magnitude, signed}
use saveinator.Handler.Cancel.{cancel_ttl, on_cancel_download}
use saveinator.Handler.Cancel.Frees.{on_cancel_own}
use saveinator.Tests.Server.{Memory, server}

abbrev main_bot : Client
main_bot = record { prefix = [] }

abbrev fleet_bot : Client
fleet_bot = record { prefix = codes "bot1" }

abbrev empty : Memory
empty = record { texts = λ k. none; sets = λ k. []; fields = λ k f. none }

abbrev one_held : Memory
one_held = (acquire_user_lock server main_bot (pos 5) (codes "video") (codes "t") 600 empty).1

abbrev active : ActiveDownload
active = record { user_id = pos 5; scenario = codes "video"; token = codes "t" }

abbrev two_held : Memory
two_held = run_call server main_bot (acquire (pos 6) (codes "gif") (codes "u") 600) one_held

abbrev cancelled : Memory
cancelled = (on_cancel_download server main_bot (pos 5) (codes "dlc:video:5:t") true one_held).1

held_lem :
    server.text (lock_key main_bot (pos 5)) one_held ≡ some (lock_value (codes "video") (codes "t"))
unfolding acquire_user_lock lock_key key lock_value eq_bytes format_int
held_lem = refl

acquired_lem :
    (acquire_user_lock server main_bot (pos 5) (codes "video") (codes "t") 600 empty).0
    ≡ acquired (codes "t")
acquired_lem = unfold acquire_user_lock in refl

active_lem : get_active_download server main_bot (pos 5) one_held ≡ some (some active)
unfolding get_active_download acquire_user_lock lock_key key lock_value eq_bytes active_of_parts
    split_n2 format_int
active_lem = refl

second_taken :
    (acquire_user_lock server main_bot (pos 6) (codes "gif") (codes "u") 600 one_held).0
    ≡ acquired (codes "u")
unfolding acquire_user_lock lock_key key eq_bytes format_int
second_taken = refl

-- user 6 takes a lock while user 5 holds one
foreign-Trace :
    Trace server main_bot
      (pos 5)
      (lock_value (codes "video") (codes "t"))
      one_held
      (run_call server main_bot (acquire (pos 6) (codes "gif") (codes "u") 600) one_held)
foreign-Trace =
    then here (acquire (pos 6) (codes "gif") (codes "u") 600) (omega arith)
      (λ e. cc (e, second_taken))

acquire-Trace_example :
    ((scenario' token' : Bytes) (ttl' : ℕ)
      → ((acquire_user_lock server main_bot (pos 5) scenario' token' ttl' two_held).0 ≡ failed)
        ⊎ (acquire_user_lock server main_bot (pos 5) scenario' token' ttl' two_held
            ≡ (busy, two_held)))
    × ((release_user_lock server main_bot (pos 5) (codes "video") (codes "t") two_held).0 ≡ true
        → server.text
            (lock_key main_bot (pos 5))
            (release_user_lock server main_bot (pos 5) (codes "video") (codes "t") two_held).1
          ≡ none)
acquire-Trace_example =
    acquire-Trace server main_bot tt (pos 5) (omega arith) (lock_value (codes "video") (codes "t"))
      (codes "video") (codes "t") (codes "t") 600 empty two_held (omega arith) refl acquired_lem
      foreign-Trace

abbrev running : Data
running = record { scenario = codes "video"; user_id = pos 5; token = codes "t" }

running_lem : parse_cancel (codes "dlc:video:5:t") ≡ some running
unfolding parse_cancel split parse_int magnitude signed eq_bytes
running_lem = refl

on_cancel_own_example :
    (server.text (cancel_key main_bot (codes "video") (pos 5) (codes "t")) cancelled
      ≡ some (codes "1"))
    × (lock_value (codes "video") (codes "t") ≡ lock_value (codes "video") (codes "t")
        → server.text (lock_key main_bot (pos 5)) cancelled ≡ none)
    × (lock_value (codes "video") (codes "t") ≢ lock_value (codes "video") (codes "t")
        → server.text (lock_key main_bot (pos 5)) cancelled
          ≡ some (lock_value (codes "video") (codes "t")))
on_cancel_own_example =
    on_cancel_own server main_bot (codes "dlc:video:5:t") (lock_value (codes "video") (codes "t"))
      running true one_held tt running_lem held_lem answers
  where
    answers :
        ((set_download_cancelled server main_bot
            (codes "video")
            (pos 5)
            (codes "t")
            cancel_ttl
            one_held).0
          ≡ true)
        × ((release_user_lock server main_bot
              (pos 5)
              (codes "video")
              (codes "t")
              (set_download_cancelled server main_bot
                (codes "video")
                (pos 5)
                (codes "t")
                cancel_ttl
                one_held).1).0
            ≡ true)
    answers = (unfold set_download_cancelled in refl, unfold release_user_lock in refl)
