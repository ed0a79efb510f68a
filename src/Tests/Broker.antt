-- ===== src/Tests/Broker.antt =====
-- A broker that holds its tasks in lists: an instance of the interface of asynq.
use saveinator.Prelude.{
  ◌≡◌, ◌≢◌, refl, Bool, true, false, ◌&&◌, ◌||◌, List, [], ◌∷◌, ◌++◌, some, arith, Bytes, codes,
  eq_bytes, eq_bytes_iff, eq_bytes_refl, take, if◌then◌else◌,
}
use saveinator.Queue.Asynq.{
  Asynq, TaskInfo, Request, Waiting, pending, scheduled, retry, queue_of, without, page_size,
}
use saveinator.Queue.Clear.Complete.{has_id, Deletes}

pub record Lists : Type 0 where
  pub running : Bytes → List TaskInfo
  pub held : Waiting → Bytes → List TaskInfo

abbrev pub is_pending : Waiting → Bool
is_pending pending = true
is_pending _ = false

abbrev pub info : Request → TaskInfo
info r = record { id = codes "t1"; kind = r.kind; payload = r.payload }

abbrev pub submit : Request → Lists → Bool × Lists
submit r s = (
  true,
  record s {
    held = λ w q.
        if is_pending w && eq_bytes q (queue_of r) then s.held w q ++ info r ∷ [] else s.held w q;
  },
)

abbrev pub present : Bytes → Bytes → Lists → Bool
present q id s =
    has_id id (s.held pending q) || has_id id (s.held scheduled q) || has_id id (s.held retry q)

abbrev pub drop_id : Bytes → Bytes → Lists → Lists
drop_id q id s = record s {
  held = λ w q'. if eq_bytes q' q then without id (s.held w q') else s.held w q';
}

abbrev pub delete : Bytes → Bytes → Lists → Bool × Lists
delete q id s = if present q id s then (true, drop_id q id s) else (false, s)

pub submit_appends :
    (r : Request) (s : Lists)
    → (submit r s).0 ≡ true
    → (id : Bytes) × ((submit r s).1.held pending (queue_of r)
        ≡ s.held pending (queue_of r)
          ++ record { id = id; kind = r.kind; payload = r.payload } ∷ [])
submit_appends r s h = (codes "t1", rw (eq_bytes_refl (queue_of r)))

pub delete_removes :
    (q id : Bytes) (w : Waiting) (s : Lists)
    → (delete q id s).0 ≡ true
    → (delete q id s).1.held w q ≡ without id (s.held w q)
delete_removes q id w s h = ground (arith, eq_bytes_refl q)

pub delete_refused :
    (q id : Bytes) (w : Waiting) (s : Lists)
    → (delete q id s).0 ≡ false
    → (delete q id s).1.held w q ≡ s.held w q
delete_refused q id w s h = ground arith

pub delete_elsewhere :
    (q id q' : Bytes) (w : Waiting) (s : Lists) → q' ≢ q → (delete q id s).1.held w q' ≡ s.held w q'
delete_elsewhere q id q' w s h = ground (arith, eq_bytes_iff q' q)

pub some-eq : {xs ys : List TaskInfo} → some xs ≡ some ys → ys ≡ xs
some-eq h = cc

abbrev pub broker : Asynq
broker = record {
  State = Lists;
  active = λ q s. s.running q;
  waiting = λ w q s. s.held w q;
  submit = submit;
  list_active = λ q s. some (take page_size (s.running q));
  list = λ w q s. some (take page_size (s.held w q));
  cancel = λ id s. (true, s);
  delete = delete;
  list_active_page = λ q s ts h. some-eq h;
  list_page = λ w q s ts h. some-eq h;
  submit_appends = submit_appends;
  cancel_waiting = λ id w q s. refl;
  delete_removes = delete_removes;
  delete_refused = delete_refused;
  delete_elsewhere = delete_elsewhere;
}

pub broker-Deletes : (q : Bytes) → Deletes broker q
broker-Deletes q id pending s h = ground arith
broker-Deletes q id scheduled s h = ground arith
broker-Deletes q id retry s h = ground arith
