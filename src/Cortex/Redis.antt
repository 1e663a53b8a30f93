-- ===== src/Cortex/Redis.antt =====
-- The commands of the Redis client (ioredis) that the cortex modules send, with what its
-- documentation says of them. Keys with a time to live do not expire while a handler runs.
use app_intent_system_orches.Base.{
  ℕ, ◌≤◌, ◌≡◌, ◌↔◌, String, true, ◌&&◌, Option, none, some, List, ◌==◌, string_eq, includes,
  if◌then◌else◌,
}

pub record Redis : Type 1 where
  pub Data : Type 0
  -- GET, and SET or SETEX
  pub get : Data → String → Option String
  pub set : Data → String → String → Data
  -- the sorted sets: ZADD, ZREM, ZSCORE and ZRANGEBYSCORE key 0 max
  pub zadd : Data → String → ℕ → String → Data
  pub zrem : Data → String → String → Data
  pub zscore : Data → String → String → Option ℕ
  pub zrange_by_score : Data → String → ℕ → List String
  pub get-set :
      (d : Data) (k v j : String) → get (set d k v) j ≡ (if k == j then some v else get d j)
  -- The program's sorted set and its texts are under different keys, and so is it in these laws.
  pub get-zadd : (d : Data) (k : String) (s : ℕ) (m j : String) → get (zadd d k s m) j ≡ get d j
  pub get-zrem : (d : Data) (k m j : String) → get (zrem d k m) j ≡ get d j
  pub zscore-set : (d : Data) (k v j m : String) → zscore (set d k v) j m ≡ zscore d j m
  pub zscore-zadd :
      (d : Data) (k : String) (s : ℕ) (m j n : String)
      → zscore (zadd d k s m) j n ≡ (if k == j && m == n then some s else zscore d j n)
  pub zscore-zrem :
      (d : Data) (k m j n : String)
      → zscore (zrem d k m) j n ≡ (if k == j && m == n then none else zscore d j n)
  pub zrange_iff :
      (d : Data) (k : String) (max : ℕ) (m : String)
      → (includes (zrange_by_score d k max) m ≡ true)
        ↔ ((s : ℕ) × (zscore d k m ≡ some s) × (s ≤ max))
