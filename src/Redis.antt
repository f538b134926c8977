-- ===== src/Redis.antt =====
-- Redis, as the code calls it through redis-py: commands and reads that may raise, and the
-- documented effect of those that succeed. `Redis/Memory` is a value of both.
pub mod Memory
use mathlib.Core.List.{foldl}
use feature_store.Common.{
  ℕ, zero, suc, ◌<◌, String, ◌≡◌, ◌≢◌, Bool, ◌||◌, Option, none, some, List, [], str_eq,
  if◌then◌else◌,
}
use feature_store.Common.Dict.{Dict, lookup, or_else}
use feature_store.Common.Exec.{Exec, ok}
use feature_store.Float.Int.{ℤ, pos, negsuc}

-- The writing commands that a pipeline queues.
pub data Command : Type 0 where
  hset : String → Dict String → Command
  expire : String → ℕ → Command
  sadd : String → String → Command

pub record Redis (W : Type 0) : Type 0 where
  -- `pipe.execute()` of the queued commands, in one transaction
  pub execute : List Command → Exec W (Unit {0})
  -- one command by itself
  pub run : Command → Exec W (Unit {0})
  pub hgetall : String → Exec W (Dict String)
  pub ttl : String → Exec W ℤ
  pub srandmember : String → ℕ → Exec W (List String)
  pub get : String → Exec W (Option String)
  -- `set(key, value, ex=seconds)`
  pub set_ex : String → String → ℕ → Exec W (Unit {0})
  pub exists : String → Exec W ℕ
  pub ping : Exec W (Unit {0})

-- What a world shows of the server, and how each call that returns reads or changes it.
pub record RedisLaws (W : Type 0) ⦃r : Redis W⦄ : Type 0 where
  pub hash : W → String → Dict String
  pub ttl_of : W → String → ℤ
  pub is_member : W → String → String → Bool
  pub text : W → String → Option String
  pub apply : Command → W → W
  -- a transaction runs its commands in order
  pub execute_lem :
      (cs : List Command) (w w' : W)
      → r.execute cs w ≡ (ok tt, w')
      → w' ≡ foldl (λ v c. apply c v) w cs
  pub run_lem : (c : Command) (w w' : W) → r.run c w ≡ (ok tt, w') → w' ≡ apply c w
  pub hgetall_lem :
      (k : String) (w w' : W) (d : Dict String)
      → r.hgetall k w ≡ (ok d, w')
      → (d ≡ hash w k) × (w' ≡ w)
  pub ttl_lem :
      (k : String) (w w' : W) (n : ℤ) → r.ttl k w ≡ (ok n, w') → (n ≡ ttl_of w k) × (w' ≡ w)
  pub get_lem :
      (k : String) (w w' : W) (o : Option String)
      → r.get k w ≡ (ok o, w')
      → (o ≡ text w k) × (w' ≡ w)
  -- the documented effect of each command
  pub hash-hset :
      (k j f : String) (m : Dict String) (w : W)
      → lookup f (hash (apply (hset k m) w) j)
        ≡ (if str_eq k j then or_else (lookup f m) (lookup f (hash w j)) else lookup f (hash w j))
  pub hash-expire :
      (k j : String) (n : ℕ) (w : W) → 0 < n → hash (apply (expire k n) w) j ≡ hash w j
  pub hash-sadd : (k j v : String) (w : W) → hash (apply (sadd k v) w) j ≡ hash w j
  pub ttl-expire :
      (k : String) (n : ℕ) (w : W)
      → 0 < n
      → ttl_of w k ≢ negsuc 1
      → ttl_of (apply (expire k n) w) k ≡ pos n
  -- `TTL` answers -2 for a key that does not exist
  pub ttl_exists : (k : String) (w : W) → hash w k ≢ [] → ttl_of w k ≢ negsuc 1
  -- and `EXPIRE` does nothing to it
  pub ttl-expire_missing :
      (k : String) (n : ℕ) (w : W)
      → ttl_of w k ≡ negsuc 1
      → ttl_of (apply (expire k n) w) k ≡ negsuc 1
  pub ttl-expire_ne :
      (k j : String) (n : ℕ) (w : W) → k ≢ j → ttl_of (apply (expire k n) w) j ≡ ttl_of w j
  pub ttl-hset_ne :
      (k j : String) (m : Dict String) (w : W) → k ≢ j → ttl_of (apply (hset k m) w) j ≡ ttl_of w j
  pub ttl-sadd : (k j v : String) (w : W) → k ≢ j → ttl_of (apply (sadd k v) w) j ≡ ttl_of w j
  pub member-hset :
      (k j u : String) (m : Dict String) (w : W)
      → is_member (apply (hset k m) w) j u ≡ is_member w j u
  pub member-expire :
      (k j u : String) (n : ℕ) (w : W)
      → 0 < n
      → is_member (apply (expire k n) w) j u ≡ is_member w j u
  pub member-sadd :
      (k j v u : String) (w : W)
      → is_member (apply (sadd k v) w) j u
        ≡ (if str_eq k j then str_eq v u || is_member w j u else is_member w j u)
  pub text-set_ex :
      (k j v : String) (n : ℕ) (w w' : W)
      → 0 < n
      → r.set_ex k v n w ≡ (ok tt, w')
      → text w' j ≡ (if str_eq k j then some v else text w j)
