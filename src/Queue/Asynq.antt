-- ===== src/Queue/Asynq.antt =====
-- The task broker, github.com/hibiken/asynq, which the program calls through `asynq.Client` and
-- `asynq.Inspector`: an interface with what its documentation says. The operations are taken one
-- after the other; a worker that runs between two of them is not modelled.
use saveinator.Prelude.{
  ℕ, ◌≡◌, ◌≢◌, Bool, true, false, not, List, [], ◌∷◌, ◌++◌, Option, none, some, Bytes, codes,
  eq_bytes, take, keep,
}
use saveinator.Queue.Payload.Values.{Body}

-- The lists of tasks that wait: `ListPendingTasks`, `ListScheduledTasks`, `ListRetryTasks`.
pub data Waiting : Type 0 where
  pending scheduled retry : Waiting

-- `asynq.TaskInfo`: what the program reads of it.
pub record TaskInfo : Type 0 where
  pub id : Bytes
  pub kind : Bytes
  pub payload : Body

-- `asynq.NewTask` with the options of `Enqueue`; the timeout is in seconds.
pub record Request : Type 0 where
  pub kind : Bytes
  pub payload : Body
  pub max_retry : ℕ
  pub timeout : ℕ
  pub queue : Option Bytes

-- The queue of a task that names none.
abbrev pub default_queue : Bytes
default_queue = codes "default"

abbrev pub queue_of : Request → Bytes
queue_of r = elim r.queue [ none ↦ default_queue | some q ↦ q ]

-- A listing without options returns the first page.
abbrev pub page_size : ℕ
page_size = 30

abbrev pub without : Bytes → List TaskInfo → List TaskInfo
without id = keep (λ t. not (eq_bytes t.id id))

pub record Asynq : Type 1 where
  pub State : Type 0
  pub active : Bytes → State → List TaskInfo
  pub waiting : Waiting → Bytes → State → List TaskInfo
  -- a reply of `false` or `none` is an error
  pub submit : Request → State → Bool × State
  pub list_active : Bytes → State → Option (List TaskInfo)
  pub list : Waiting → Bytes → State → Option (List TaskInfo)
  pub cancel : Bytes → State → Bool × State
  pub delete : Bytes → Bytes → State → Bool × State
  pub list_active_page :
      (q : Bytes) (s : State) (ts : List TaskInfo)
      → list_active q s ≡ some ts
      → ts ≡ take page_size (active q s)
  pub list_page :
      (w : Waiting) (q : Bytes) (s : State) (ts : List TaskInfo)
      → list w q s ≡ some ts
      → ts ≡ take page_size (waiting w q s)
  -- a submitted task is the last of its queue's pending ones, and nothing else moves
  pub submit_appends :
      (r : Request) (s : State)
      → (submit r s).0 ≡ true
      → (id : Bytes) × (waiting pending (queue_of r) (submit r s).1
          ≡ waiting pending (queue_of r) s
            ++ record { id = id; kind = r.kind; payload = r.payload } ∷ [])
  -- cancelling is a message to the worker
  pub cancel_waiting :
      (id : Bytes) (w : Waiting) (q : Bytes) (s : State)
      → waiting w q (cancel id s).1 ≡ waiting w q s
  pub delete_removes :
      (q id : Bytes) (w : Waiting) (s : State)
      → (delete q id s).0 ≡ true
      → waiting w q (delete q id s).1 ≡ without id (waiting w q s)
  pub delete_refused :
      (q id : Bytes) (w : Waiting) (s : State)
      → (delete q id s).0 ≡ false
      → waiting w q (delete q id s).1 ≡ waiting w q s
  pub delete_elsewhere :
      (q id q' : Bytes) (w : Waiting) (s : State)
      → q' ≢ q
      → waiting w q' (delete q id s).1 ≡ waiting w q' s
