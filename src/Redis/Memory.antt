-- ===== src/Redis/Memory.antt =====
-- A server held in memory: a value of the interface `Redis` at which its laws hold.
use mathlib.Core.List.{foldl}
use feature_store.Common.{
  ℕ, String, ◌≡◌, refl, Bool, true, false, ◌||◌, Option, none, some, List, [], ◌∷◌, arith, take,
  eq_iff, is_empty, str_eq, if◌then◌else◌,
}
use feature_store.Common.Dict.{Dict, merge, lookup-merge}
use feature_store.Common.Exec.{Exec, ok, err, connection_error}
use feature_store.Float.Int.{ℤ, pos, negsuc}
use feature_store.Redis.{Redis, RedisLaws, Command, hset, expire, sadd}

pub record Memory : Type 0 where
  -- whether the server answers
  pub up : Bool
  pub hash : String → Dict String
  pub expiry : String → Option ℕ
  pub members : String → List String
  pub text : String → Option String

abbrev pub empty : Memory
empty = record {
  up = true;
  hash = λ k. [];
  expiry = λ k. none;
  members = λ k. [];
  text = λ k. none;
}

abbrev set_at {ℓ} : {A : Type ℓ} → String → A → (String → A) → String → A
set_at k a f j = if str_eq k j then a else f j

-- A key with no hash at it takes no expiry.
abbrev pub apply : Command → Memory → Memory
apply (hset k m) w = record w { hash = set_at k (merge (w.hash k) m) w.hash }
apply (expire k n) w = record w {
  expiry = set_at k (if is_empty (w.hash k) then none else some n) w.expiry;
}
apply (sadd k v) w = record w { members = set_at k (v ∷ w.members k) w.members }

-- -2 for a key that does not exist, -1 for one that does not expire
abbrev ttl_at : Memory → String → ℤ
ttl_at w k =
    if is_empty (w.hash k) then negsuc 1 else elim (w.expiry k) [ none ↦ negsuc 0 | some n ↦ pos n ]

abbrev member : List String → String → Bool
member [] u = false
member (v ∷ vs) u = str_eq v u || member vs u

abbrev answer : {A : Type 0} → (Memory → A) → (Memory → Memory) → Exec Memory A
answer f g w = if w.up then (ok (f w), g w) else (err connection_error, w)

instance abbrev pub memory_redis : Redis Memory
memory_redis = record {
  execute = λ cs. answer (λ w. tt) (λ w. foldl (λ v c. apply c v) w cs);
  run = λ c. answer (λ w. tt) (apply c);
  hgetall = λ k. answer (λ w. w.hash k) (λ w. w);
  ttl = λ k. answer (λ w. ttl_at w k) (λ w. w);
  srandmember = λ k n. answer (λ w. take n (w.members k)) (λ w. w);
  get = λ k. answer (λ w. w.text k) (λ w. w);
  set_ex = λ k v n. answer (λ w. tt) (λ w. record w { text = set_at k (some v) w.text });
  exists = λ k. answer (λ w. elim (w.text k) [ none ↦ 0 | some _ ↦ 1 ]) (λ w. w);
  ping = answer (λ w. tt) (λ w. w);
}

pub Memory-RedisLaws : RedisLaws Memory
Memory-RedisLaws = record {
  hash = λ w. w.hash;
  ttl_of = ttl_at;
  is_member = λ w k. member (w.members k);
  text = λ w. w.text;
  apply = apply;
  execute_lem = λ cs w w' h. ground arith;
  run_lem = λ c w w' h. ground arith;
  hgetall_lem = λ k w w' d h. ground arith;
  ttl_lem = λ k w w' n h. ground arith;
  get_lem = λ k w w' o h. ground arith;
  hash-hset = λ k j f m w. ground (arith, eq_iff k j, lookup-merge f (w.hash k) m);
  hash-expire = λ k j n w p. refl;
  hash-sadd = λ k j v w. refl;
  ttl-expire = λ k n w p h. ground (arith, eq_iff k k);
  ttl_exists = λ k w h. ground arith;
  ttl-expire_missing = λ k n w h. ground (arith, eq_iff k k);
  ttl-expire_ne = λ k j n w h. ground (arith, eq_iff k j);
  ttl-hset_ne = λ k j m w h. ground (arith, eq_iff k j);
  ttl-sadd = λ k j v w h. refl;
  member-hset = λ k j u m w. refl;
  member-expire = λ k j u n w p. refl;
  member-sadd = λ k j v u w. ground (arith, eq_iff k j);
  text-set_ex = λ k j v n w w' p h. ground arith;
}

-- An empty server has no texts.
pub text-empty : (k : String) → Memory-RedisLaws.text empty k ≡ none
unfolding Memory-RedisLaws
text-empty k = refl

-- The hashes that the laws speak of are those of the record.
pub hash-memory : (w : Memory) (k : String) → Memory-RedisLaws.hash w k ≡ w.hash k
unfolding Memory-RedisLaws
hash-memory w k = refl
