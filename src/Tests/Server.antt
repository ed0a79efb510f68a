-- ===== src/Tests/Server.antt =====
-- A Redis server that holds its keys in functions and never expires one: an instance of the interface.
use saveinator.Prelude.{
  ℕ, ◌<◌, ◌≡◌, ◌≢◌, refl, sym, ◌∙◌, Bool, true, false, not, List, [], ◌∷◌, Option, none, some,
  arith, Bytes, eq_bytes, eq_bytes_iff, eq_bytes_refl, contains, keep, length, if◌then◌else◌,
}
use saveinator.Redis.{Redis}

pub record Memory : Type 0 where
  pub texts : Bytes → Option Bytes
  pub sets : Bytes → List Bytes
  pub fields : Bytes → Bytes → Option Bytes

abbrev pub set_text : Bytes → Option Bytes → Memory → Memory
set_text k v s = record s { texts = λ j. if eq_bytes j k then v else s.texts j }

abbrev pub drop_key : Bytes → Memory → Memory
drop_key k s = record {
  texts = λ j. if eq_bytes j k then none else s.texts j;
  sets = λ j. if eq_bytes j k then [] else s.sets j;
  fields = λ j f. if eq_bytes j k then none else s.fields j f;
}

abbrev pub setnx : Bytes → Bytes → ℕ → Memory → Option Bool × Memory
setnx k v ttl s = elim (s.texts k) [
  | none ↦ (some true, set_text k (some v) s)
  | some w ↦ (some false, s)
]

abbrev pub is_some : Option Bytes → Bool
is_some none = false
is_some (some v) = true

abbrev pub set_members : Bytes → List Bytes → Memory → Memory
set_members k ms s = record s { sets = λ j. if eq_bytes j k then ms else s.sets j }

abbrev pub without_member : Bytes → List Bytes → List Bytes
without_member v ms = keep (λ w. not (eq_bytes w v)) ms

abbrev pub srem : Bytes → Bytes → Memory → Option ℕ × Memory
srem k v s = (
  (if contains (s.sets k) v then some 1 else some 0),
  set_members k (without_member v (s.sets k)) s,
)

abbrev pub set_field : Bytes → Bytes → Option Bytes → Memory → Memory
set_field k f v s = record s {
  fields = λ j g. if eq_bytes j k then (if eq_bytes g f then v else s.fields j g) else s.fields j g;
}

pub setnx_new :
    (k v : Bytes) (ttl : ℕ) (s : Memory)
    → (setnx k v ttl s).0 ≡ some true
    → (s.texts k ≡ none) × ((setnx k v ttl s).1 ≡ set_text k (some v) s)
setnx_new k v ttl s h = ground arith

pub setnx_taken :
    (k v : Bytes) (ttl : ℕ) (s : Memory)
    → (setnx k v ttl s).0 ≡ some false
    → (s.texts k ≢ none) × ((setnx k v ttl s).1 ≡ s)
setnx_taken k v ttl s h = ground arith

pub text_self : (k : Bytes) (v : Option Bytes) (s : Memory) → (set_text k v s).texts k ≡ v
text_self k v s = rw (eq_bytes_refl k)

pub text_ne :
    (k j : Bytes) (v : Option Bytes) (s : Memory) → j ≢ k → (set_text k v s).texts j ≡ s.texts j
text_ne k j v s ne = ground (arith, eq_bytes_iff j k)

pub exists_lem :
    (k : Bytes) (s : Memory) (b : Bool)
    → some (is_some (s.texts k)) ≡ some b
    → (b ≡ true → s.texts k ≢ none) × (b ≡ false → s.texts k ≡ none)
exists_lem k s b h = ground arith

pub some-eq {ℓ} : {A : Type ℓ} {x y : A} → some x ≡ some y → y ≡ x
some-eq h = cc

contains-without_self : (v : Bytes) (ms : List Bytes) → contains (without_member v ms) v ≡ false
unfolding contains
contains-without_self v [] = refl
contains-without_self v (m ∷ ms) =
    ground (arith, contains-without_self v ms, eq_bytes_iff m v, eq_bytes_iff v m)

contains-without_ne :
    (v w : Bytes) (ms : List Bytes) → w ≢ v → contains (without_member v ms) w ≡ contains ms w
unfolding contains
contains-without_ne v w [] ne = refl
contains-without_ne v w (m ∷ ms) ne = ground (
  arith,
  contains-without_ne v w ms ne,
  eq_bytes_iff m v,
  eq_bytes_iff m w,
  λ (e : m ≡ w) (q : m ≡ v). ne (sym e ∙ q),
)

pub sadd_lem :
    (k v w : Bytes) (s : Memory)
    → true ≡ true
    → (contains ((set_members k (v ∷ s.sets k) s).sets k) v ≡ true)
      × (w ≢ v → contains ((set_members k (v ∷ s.sets k) s).sets k) w ≡ contains (s.sets k) w)
unfolding contains
sadd_lem k v w s h = (
  rw (eq_bytes_refl k, eq_bytes_refl v),
  (λ ne. rw (eq_bytes_refl k) (ground (arith, eq_bytes_iff v w, ne))),
)

pub srem_lem :
    (k v w : Bytes) (s : Memory) (n : ℕ)
    → (srem k v s).0 ≡ some n
    → (contains ((srem k v s).1.sets k) v ≡ false)
      × (w ≢ v → contains ((srem k v s).1.sets k) w ≡ contains (s.sets k) w)
      × (0 < n → contains (s.sets k) v ≡ true)
      × (n ≡ 0 → contains (s.sets k) v ≡ false)
srem_lem k v w s n h = (
  rw (eq_bytes_refl k) (contains-without_self v (s.sets k)),
  (λ ne. rw (eq_bytes_refl k) (contains-without_ne v w (s.sets k) ne)),
  (λ p. ground (arith, h, p)),
  (λ p. ground (arith, h, p)),
)

pub field_lem :
    (k f g : Bytes) (v : Option Bytes) (s : Memory)
    → ((set_field k f v s).fields k f ≡ v) × (g ≢ f → (set_field k f v s).fields k g ≡ s.fields k g)
field_lem k f g v s = (
  rw (eq_bytes_refl k, eq_bytes_refl f),
  (λ ne. rw (eq_bytes_refl k) (ground (arith, eq_bytes_iff g f, ne))),
)

pub dropped_text : (k : Bytes) (s : Memory) → (drop_key k s).texts k ≡ none
dropped_text k s = rw (eq_bytes_refl k)

pub dropped_ne : (k j : Bytes) (s : Memory) → j ≢ k → (drop_key k s).texts j ≡ s.texts j
dropped_ne k j s ne = ground (arith, eq_bytes_iff j k)

pub dropped_field : (k f : Bytes) (s : Memory) → (drop_key k s).fields k f ≡ none
dropped_field k f s = rw (eq_bytes_refl k)

abbrev pub server : Redis
server = record {
  State = Memory;
  text = λ k s. s.texts k;
  stored = λ k v ttl s. set_text k (some v) s;
  removed = drop_key;
  text-stored_self = λ k v ttl s p. text_self k (some v) s;
  text-stored_ne = λ k v j ttl s ne. text_ne k j (some v) s ne;
  text-removed_self = dropped_text;
  text-removed_ne = dropped_ne;
  get = λ k s. some (s.texts k);
  set = λ k v ttl s. (true, set_text k (some v) s);
  setnx = setnx;
  del = λ k s. (true, drop_key k s);
  exists = λ k s. some (is_some (s.texts k));
  get_lem = λ k s v h. some-eq h;
  set_lem = λ k v ttl s h. refl;
  setnx_new = setnx_new;
  setnx_taken = setnx_taken;
  del_lem = λ k s h. refl;
  exists_lem = exists_lem;
  eval = λ f s. (some (f s).0, (f s).1);
  eval_lem = λ f s n h. (some-eq h, refl);
  members = λ k s. s.sets k;
  sadd = λ k v s. (true, set_members k (v ∷ s.sets k) s);
  srem = srem;
  sismember = λ k v s. some (contains (s.sets k) v);
  smembers = λ k s. some (s.sets k);
  scard = λ k s. some (length (s.sets k));
  sadd_lem = sadd_lem;
  srem_lem = srem_lem;
  sismember_lem = λ k v s b h. some-eq h;
  smembers_lem = λ k s ms h. some-eq h;
  field = λ k f s. s.fields k f;
  hget = λ k f s. some (s.fields k f);
  hset = λ k f v s. (true, set_field k f (some v) s);
  hdel = λ k f s. (true, set_field k f none s);
  hget_lem = λ k f s v h. some-eq h;
  hset_lem = λ k f v g s h. field_lem k f g (some v) s;
  hdel_lem = λ k f g s h. field_lem k f g none s;
  field-removed = dropped_field;
}
