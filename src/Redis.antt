-- ===== src/Redis.antt =====
-- The Redis server behind github.com/redis/go-redis, which the program calls: an interface with what
-- Redis documents of the commands used. A reply of `none` or `false` is an error, after which nothing
-- is known of the state. Times to live are in seconds.
use saveinator.Prelude.{
  ℕ, ◌<◌, ◌≡◌, ◌≢◌, Bool, true, false, List, Option, none, some, Bytes, contains,
}

pub record Redis : Type 1 where
  pub State : Type 0
  -- the value of a string key that has not expired, and the effects of SET and DEL
  pub text : Bytes → State → Option Bytes
  pub stored : Bytes → Bytes → ℕ → State → State
  pub removed : Bytes → State → State
  pub text-stored_self :
      (k v : Bytes) (ttl : ℕ) (s : State) → 0 < ttl → text k (stored k v ttl s) ≡ some v
  pub text-stored_ne :
      (k v j : Bytes) (ttl : ℕ) (s : State) → j ≢ k → text j (stored k v ttl s) ≡ text j s
  pub text-removed_self : (k : Bytes) (s : State) → text k (removed k s) ≡ none
  pub text-removed_ne : (k j : Bytes) (s : State) → j ≢ k → text j (removed k s) ≡ text j s
  -- the commands
  pub get : Bytes → State → Option (Option Bytes)
  pub set : Bytes → Bytes → ℕ → State → Bool × State
  pub setnx : Bytes → Bytes → ℕ → State → Option Bool × State
  pub del : Bytes → State → Bool × State
  pub exists : Bytes → State → Option Bool
  pub get_lem : (k : Bytes) (s : State) (v : Option Bytes) → get k s ≡ some v → v ≡ text k s
  pub set_lem :
      (k v : Bytes) (ttl : ℕ) (s : State)
      → (set k v ttl s).0 ≡ true
      → (set k v ttl s).1 ≡ stored k v ttl s
  pub setnx_new :
      (k v : Bytes) (ttl : ℕ) (s : State)
      → (setnx k v ttl s).0 ≡ some true
      → (text k s ≡ none) × ((setnx k v ttl s).1 ≡ stored k v ttl s)
  pub setnx_taken :
      (k v : Bytes) (ttl : ℕ) (s : State)
      → (setnx k v ttl s).0 ≡ some false
      → (text k s ≢ none) × ((setnx k v ttl s).1 ≡ s)
  pub del_lem : (k : Bytes) (s : State) → (del k s).0 ≡ true → (del k s).1 ≡ removed k s
  pub exists_lem :
      (k : Bytes) (s : State) (b : Bool)
      → exists k s ≡ some b
      → (b ≡ true → text k s ≢ none) × (b ≡ false → text k s ≡ none)
  -- EVAL: a script runs as one command
  pub eval : (State → ℕ × State) → State → Option ℕ × State
  pub eval_lem :
      (f : State → ℕ × State) (s : State) (n : ℕ)
      → (eval f s).0 ≡ some n
      → (n ≡ (f s).0) × ((eval f s).1 ≡ (f s).1)
  -- sets of strings
  pub members : Bytes → State → List Bytes
  pub sadd : Bytes → Bytes → State → Bool × State
  pub srem : Bytes → Bytes → State → Option ℕ × State
  pub sismember : Bytes → Bytes → State → Option Bool
  pub smembers : Bytes → State → Option (List Bytes)
  pub scard : Bytes → State → Option ℕ
  pub sadd_lem :
      (k v w : Bytes) (s : State)
      → (sadd k v s).0 ≡ true
      → (contains (members k (sadd k v s).1) v ≡ true)
        × (w ≢ v → contains (members k (sadd k v s).1) w ≡ contains (members k s) w)
  pub srem_lem :
      (k v w : Bytes) (s : State) (n : ℕ)
      → (srem k v s).0 ≡ some n
      → (contains (members k (srem k v s).1) v ≡ false)
        × (w ≢ v → contains (members k (srem k v s).1) w ≡ contains (members k s) w)
        × (0 < n → contains (members k s) v ≡ true)
        × (n ≡ 0 → contains (members k s) v ≡ false)
  pub sismember_lem :
      (k v : Bytes) (s : State) (b : Bool) → sismember k v s ≡ some b → b ≡ contains (members k s) v
  pub smembers_lem :
      (k : Bytes) (s : State) (ms : List Bytes) → smembers k s ≡ some ms → ms ≡ members k s
  -- the fields of a hash
  pub field : Bytes → Bytes → State → Option Bytes
  pub hget : Bytes → Bytes → State → Option (Option Bytes)
  pub hset : Bytes → Bytes → Bytes → State → Bool × State
  pub hdel : Bytes → Bytes → State → Bool × State
  pub hget_lem :
      (k f : Bytes) (s : State) (v : Option Bytes) → hget k f s ≡ some v → v ≡ field k f s
  pub hset_lem :
      (k f v g : Bytes) (s : State)
      → (hset k f v s).0 ≡ true
      → (field k f (hset k f v s).1 ≡ some v) × (g ≢ f → field k g (hset k f v s).1 ≡ field k g s)
  pub hdel_lem :
      (k f g : Bytes) (s : State)
      → (hdel k f s).0 ≡ true
      → (field k f (hdel k f s).1 ≡ none) × (g ≢ f → field k g (hdel k f s).1 ≡ field k g s)
  pub field-removed : (k f : Bytes) (s : State) → field k f (removed k s) ≡ none
