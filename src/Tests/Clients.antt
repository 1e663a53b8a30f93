-- ===== src/Tests/Clients.antt =====
-- Clients of Redis that keep a list of what was written, and a world that is a clock.
use app_intent_system_orches.Base.{
  ℕ, suc, ◌≤◌, ◌≡◌, ◌↔◌, refl, inl, inr, String, Bool, true, false, ◌&&◌, ◌||◌, Option, none, some,
  List, [], ◌∷◌, includes, leb, ◌==◌, string_eq, eq_iff, eq_refl, lookup_text, concat, show_nat, ok,
  err, arith, Bool-cases, Option-cases, if◌then◌else◌,
}
use app_intent_system_orches.Js.{str}
use app_intent_system_orches.Cortex.Redis.{Redis}
use app_intent_system_orches.Cortex.World.{Outside}

-- An entry of the log of a sorted set: its score, or nothing if it was removed.
abbrev pub Entry : Type 0
Entry = String × String × Option ℕ

abbrev pub score : List Entry → String → String → Option ℕ
score [] k m = none
score ((j, n, o) ∷ es) k m = if j == k && n == m then o else score es k m

abbrev pub within : ℕ → Option ℕ → Bool
within max none = false
within max (some s) = leb s max

abbrev pub range : List Entry → String → ℕ → List Entry → List String
range log k max [] = []
range log k max ((j, n, o) ∷ es) =
    if j == k && within max (score log k n) then n ∷ range log k max es else range log k max es

abbrev pub mentions : String → String → List Entry → Bool
mentions k m [] = false
mentions k m ((j, n, o) ∷ es) = j == k && n == m || mentions k m es

includes-range :
    (log : List Entry) (k : String) (max : ℕ) (m : String) (es : List Entry)
    → includes (range log k max es) m ≡ (mentions k m es && within max (score log k m))
includes-range log k max m [] = refl
includes-range log k max m ((j, n, o) ∷ es) = elim (Bool-cases (n == m)) [
  | inl e ↦ rw ((eq_iff n m).0 e) (ground (arith, includes-range log k max m es, eq_refl m))
  | inr e ↦ ground (arith, includes-range log k max m es, e)
]

scored_is_mentioned :
    (es : List Entry) (k m : String) (s : ℕ) → score es k m ≡ some s → mentions k m es ≡ true
scored_is_mentioned [] k m s h = absurd (ground arith)
scored_is_mentioned ((j, n, o) ∷ es) k m s h = ground (arith, scored_is_mentioned es k m s)

pub range_iff :
    (log : List Entry) (k : String) (max : ℕ) (m : String)
    → (includes (range log k max log) m ≡ true) ↔ ((s : ℕ) × (score log k m ≡ some s) × (s ≤ max))
range_iff log k max m = (
  (λ h. elim (Option-cases (score log k m)) [
    | inl e ↦ absurd (ground (arith, includes-range log k max m log))
    | inr (s, e) ↦ (s, e, ground (arith, includes-range log k max m log))
  ]),
  (λ h. ground (arith, includes-range log k max m log, scored_is_mentioned log k m h.0, h.1, h.2)),
)

abbrev pub logged_redis : Redis
logged_redis = record {
  Data = List (String × String) × List Entry;
  get = λ d k. lookup_text k d.0;
  set = λ d k v. ((k, v) ∷ d.0, d.1);
  zadd = λ d k s m. (d.0, (k, m, some s) ∷ d.1);
  zrem = λ d k m. (d.0, (k, m, none) ∷ d.1);
  zscore = λ d k m. score d.1 k m;
  zrange_by_score = λ d k max. range d.1 k max d.1;
  get-set = λ d k v j. refl;
  get-zadd = λ d k s m j. refl;
  get-zrem = λ d k m j. refl;
  zscore-set = λ d k v j m. refl;
  zscore-zadd = λ d k s m j n. refl;
  zscore-zrem = λ d k m j n. refl;
  zrange_iff = λ d k max m. range_iff d.1 k max m;
}

-- The world is the time; the language model says "urgent", tools return "done" unless they are named
-- "broken", and an expression holds if it is "true".
abbrev pub clock_outside : Outside
clock_outside = record {
  World = ℕ;
  now = λ w. (w, suc w);
  run_id = λ w. (concat ("run_" ∷ show_nat w ∷ []), suc w);
  chat = λ request w. (ok (some "urgent"), suc w);
  execute_tool = λ tool args user_id w.
      if tool == "broken" then (err "broken", suc w) else (ok (str "done"), suc w);
  eval_expr = λ expr payload. expr == "true";
}
