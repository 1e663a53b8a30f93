-- ===== src/Services/Sessions/Client.antt =====
-- The commands on sets of the Redis client (ioredis) that services/SessionRegistry.ts sends, with
-- what its documentation says of them. A set that becomes empty is removed, and one whose time to live
-- has passed is empty. Times are in milliseconds and times to live in seconds; the first argument of
-- a command is the time at which it runs.
use app_intent_system_orches.Base.{
  ℕ, ◌+◌, ◌*◌, ◌≤◌, ◌≡◌, ◌<◌, String, false, not, ◌&&◌, ◌||◌, List, [], length, includes, All, ltb,
  ◌==◌, string_eq, if◌then◌else◌,
}

pub record SetClient : Type 1 where
  pub Data : Type 0
  -- SADD, EXPIRE, SREM, SCARD, SMEMBERS, DEL, and KEYS prefix*
  pub sadd : (now : ℕ) → Data → String → String → Data
  pub expire : (now : ℕ) → Data → String → (ttl : ℕ) → Data
  pub srem : (now : ℕ) → Data → String → String → Data
  pub scard : (now : ℕ) → Data → String → ℕ
  pub smembers : (now : ℕ) → Data → String → List String
  pub del : Data → String → Data
  pub keys : (now : ℕ) → Data → String → List String
  pub smembers-sadd :
      (now : ℕ) (d : Data) (k m n : String)
      → includes (smembers now (sadd now d k m) k) n ≡ (m == n || includes (smembers now d k) n)
  pub sadd_other :
      (t now : ℕ) (d : Data) (k m j : String)
      → (k == j) ≡ false
      → smembers t (sadd now d k m) j ≡ smembers t d j
  -- The set keeps its members until the time to live has passed.
  pub smembers-expire :
      (t now : ℕ) (d : Data) (k : String) (ttl : ℕ)
      → 0 < ttl
      → now ≤ t
      → smembers t (expire now d k ttl) k
        ≡ (if ltb t (now + 1000 * ttl) then smembers now d k else [])
  pub expire_other :
      (t now : ℕ) (d : Data) (k : String) (ttl : ℕ) (j : String)
      → (k == j) ≡ false
      → smembers t (expire now d k ttl) j ≡ smembers t d j
  -- The removal leaves the time to live as it is.
  pub smembers-srem :
      (t now : ℕ) (d : Data) (k m n : String)
      → now ≤ t
      → includes (smembers t (srem now d k m) k) n ≡ (not (m == n) && includes (smembers t d k) n)
  pub srem_other :
      (t now : ℕ) (d : Data) (k m j : String)
      → (k == j) ≡ false
      → smembers t (srem now d k m) j ≡ smembers t d j
  pub scard-smembers : (now : ℕ) (d : Data) (k : String) → scard now d k ≡ length (smembers now d k)
  pub smembers-del :
      (t : ℕ) (d : Data) (k j : String)
      → smembers t (del d k) j ≡ (if k == j then [] else smembers t d j)
  -- What is empty stays so while no command writes.
  pub stays_empty :
      (t now : ℕ) (d : Data) (k : String) → now ≤ t → smembers now d k ≡ [] → smembers t d k ≡ []
  pub keys-nonempty :
      (now : ℕ) (d : Data) (prefix : String) → All (λ k. 0 < scard now d k) (keys now d prefix)
