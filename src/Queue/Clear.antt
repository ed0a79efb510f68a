-- ===== src/Queue/Clear.antt =====
-- go/internal/queue/clear.go: whose task it is, and the clearing of a user's tasks.
pub mod Rule
pub mod Elsewhere
pub mod Foreign
pub mod Complete
pub mod Owner
use saveinator.Prelude.{
  ℕ, ◌+◌, Bool, true, false, ◌&&◌, ◌||◌, not, List, [], ◌∷◌, ◌++◌, Option, none, some, Bytes,
  eq_bytes, contains, is_empty, ltb, ℤ, pos, eq_ℤ, if◌then◌else◌, ◌>>=◌,
}
use saveinator.Queue.Payload.{DownloadPayload, MusicPayload, unmarshal_download, unmarshal_music}
use saveinator.Queue.Payload.Values.{Body}
use saveinator.Queue.Asynq.{Asynq, TaskInfo, Waiting, pending, scheduled, retry, default_queue}
use saveinator.Queue.Client.{
  type_download, type_tiktok, type_pinterest, type_pinterest_kz, type_spotify, type_soundcloud,
  type_yandex_music, type_tiktok_carousel,
}

abbrev pub user_task_types : List Bytes
user_task_types =
    type_download ∷ type_tiktok ∷ type_pinterest ∷ type_pinterest_kz ∷ type_spotify
    ∷ type_soundcloud ∷ type_yandex_music ∷ type_tiktok_carousel ∷ []

-- the case of the switch that reads a `MusicPayload`
abbrev music_types : List Bytes
music_types = type_spotify ∷ type_soundcloud ∷ type_yandex_music ∷ []

pub record LockRef : Type 0 where
  pub scene : Bytes
  pub token : Bytes

pub record ClearUserResult : Type 0 where
  pub deleted_pending : ℕ
  pub cancelled_active : ℕ

unfoldable pub any : ClearUserResult → Bool
any r = ltb 0 r.deleted_pending || ltb 0 r.cancelled_active

-- `p.UserID, p.UserID != 0`
abbrev nonzero : ℤ → Option ℤ
nonzero user_id = if eq_ℤ user_id (pos 0) then none else some user_id

unfoldable pub task_user_id : Bytes → Body → Option ℤ
task_user_id kind payload =
    if not (contains user_task_types kind)
    then none
    else if contains music_types kind
    then (do p ← unmarshal_music payload; nonzero p.user_id)
    else (do p ← unmarshal_download payload; nonzero p.user_id)

abbrev lock_ref : Bytes → Bytes → Option LockRef
lock_ref scene token =
    if is_empty scene || is_empty token
    then none
    else some (record { scene = scene; token = token })

unfoldable pub task_lock_ref : Bytes → Body → Option LockRef
task_lock_ref kind payload =
    if not (contains user_task_types kind)
    then none
    else if contains music_types kind
    then (do p ← unmarshal_music payload; lock_ref p.lock_scene p.lock_token)
    else (do p ← unmarshal_download payload; lock_ref p.lock_scene p.lock_token)

-- `!ok || uid != userID` skips the task.
unfoldable pub owned : ℤ → TaskInfo → Bool
owned user t = elim (task_user_id t.kind t.payload) [ none ↦ false | some uid ↦ eq_ℤ uid user ]

abbrev add_ref : Option LockRef → List LockRef → List LockRef
add_ref none refs = refs
add_ref (some ref) refs = refs ++ ref ∷ []

pub record Cleared : Type 0 where
  pub result : ClearUserResult
  pub lock_refs : List LockRef
  pub failed : Bool

-- `result` and `lockRefs` of the queues before; a queue that fails adds nothing and ends the loop.
abbrev pub add_part : Cleared → Cleared → Cleared
add_part so_far part = record {
  result = record {
    deleted_pending = so_far.result.deleted_pending + part.result.deleted_pending;
    cancelled_active = so_far.result.cancelled_active + part.result.cancelled_active;
  };
  lock_refs = so_far.lock_refs ++ part.lock_refs;
  failed = false;
}

abbrev pub or_default : List Bytes → List Bytes
or_default [] = default_queue ∷ []
or_default (q ∷ qs) = q ∷ qs

module _ (A : Asynq) (user : ℤ) where
  -- one round of the loop over the active tasks
  unfoldable pub cancel_one : TaskInfo → List LockRef → ℕ → A.State → List LockRef × ℕ × A.State
  cancel_one t refs n s =
      if owned user t
      then (let (done, s') = A.cancel t.id s in
          (add_ref (task_lock_ref t.kind t.payload) refs, (if done then n + 1 else n), s'))
      else (refs, n, s)

  unfoldable pub cancel_listed :
      List TaskInfo → List LockRef → ℕ → A.State → List LockRef × ℕ × A.State
  cancel_listed [] refs n s = (refs, n, s)
  cancel_listed (t ∷ ts) refs n s =
      let (refs', n', s') = cancel_one t refs n s in cancel_listed ts refs' n' s'

  -- one round of the loop over a list of waiting tasks
  unfoldable pub delete_one : Bytes → TaskInfo → ℕ → A.State → ℕ × A.State
  delete_one q t n s =
      if owned user t
      then (let (done, s') = A.delete q t.id s in ((if done then n + 1 else n), s'))
      else (n, s)

  unfoldable pub delete_listed : Bytes → List TaskInfo → ℕ → A.State → ℕ × A.State
  delete_listed q [] n s = (n, s)
  delete_listed q (t ∷ ts) n s = let (n', s') = delete_one q t n s in delete_listed q ts n' s'

  -- the loop over the three listing functions; `true` is an error of a listing
  unfoldable pub clear_waiting : Bytes → List Waiting → ℕ → A.State → Bool × ℕ × A.State
  clear_waiting q [] n s = (false, n, s)
  clear_waiting q (w ∷ ws) n s = elim (A.list w q s) [
    | none ↦ (true, n, s)
    | some ts ↦ let (n', s') = delete_listed q ts n s in clear_waiting q ws n' s'
  ]

  unfoldable pub clear_user_tasks_in_queue : Bytes → A.State → Cleared × A.State
  clear_user_tasks_in_queue q s = elim (A.list_active q s) [
    | none ↦ (
      record {
        result = record { deleted_pending = 0; cancelled_active = 0 };
        lock_refs = [];
        failed = true;
      },
      s,
    )
    | some ts ↦
        let (refs, cancelled, s₁) = cancel_listed ts [] 0 s in
        let (failed, deleted, s₂) = clear_waiting q (pending ∷ scheduled ∷ retry ∷ []) 0 s₁ in
        (
          record {
            result = record { deleted_pending = deleted; cancelled_active = cancelled };
            lock_refs = refs;
            failed = failed;
          },
          s₂,
        )
  ]

  unfoldable pub clear_queues : List Bytes → Cleared → A.State → Cleared × A.State
  clear_queues [] so_far s = (so_far, s)
  clear_queues (q ∷ qs) so_far s =
      let (part, s') = clear_user_tasks_in_queue q s in
      elim part.failed [
        | true ↦ (record so_far { failed = true }, s')
        | false ↦ clear_queues qs (add_part so_far part) s'
      ]

  unfoldable pub clear_user_tasks : List Bytes → A.State → Cleared × A.State
  clear_user_tasks queue_names s =
      clear_queues (or_default queue_names)
        (record {
          result = record { deleted_pending = 0; cancelled_active = 0 };
          lock_refs = [];
          failed = false;
        })
        s
