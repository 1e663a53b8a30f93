-- ===== src/Tests/Sets.antt =====
-- A client of the sets of Redis that keeps a list of what the sets became, the last change first, each
-- with the time until which it is kept, if there is one.
use app_intent_system_orches.Base.{
  ℕ, ◌+◌, ◌*◌, ◌≤◌, ◌<◌, ◌≡◌, refl, ap, ◌∙◌, inl, inr, String, Bool, true, false, not, ◌&&◌, ◌||◌,
  Option, none, some, List, [], ◌∷◌, length, keep, includes, ltb, ltb→lt, ◌==◌, string_eq, eq_iff,
  eq_refl, All, All-keep_test, arith, Bool-cases, if◌then◌else◌,
}
use app_intent_system_orches.Services.Sessions.Client.{SetClient}

abbrev pub Kept : Type 0
Kept = List String × Option ℕ

abbrev pub Sets : Type 0
Sets = List (String × Kept)

abbrev lives : (now : ℕ) → Option ℕ → Bool
lives now none = true
lives now (some until) = ltb now until

-- What is kept of a set at a time.
abbrev at_time : (now : ℕ) → Kept → List String
at_time now kept = if lives now kept.1 then kept.0 else []

abbrev stored : Sets → String → Kept
stored [] k = ([], none)
stored ((j, kept) ∷ d) k = if j == k then kept else stored d k

abbrev pub members : (now : ℕ) → Sets → String → List String
members now d k = at_time now (stored d k)

-- The time to live of a set that is still there.
abbrev live_until : (now : ℕ) → Option ℕ → Option ℕ
live_until now until = if lives now until then until else none

-- The keys, each once.
abbrev pub names : Sets → List String
names [] = []
names ((k, kept) ∷ d) = k ∷ keep (λ j. not (j == k)) (names d)

abbrev pub add_member : List String → String → List String
add_member ms m = if includes ms m then ms else m ∷ ms

abbrev pub without : List String → String → List String
without ms m = keep (λ x. not (x == m)) ms

pub includes-add_member :
    (ms : List String) (m n : String) → includes (add_member ms m) n ≡ (m == n || includes ms n)
includes-add_member ms m n = elim (Bool-cases (m == n)) [
  | inl e ↦ rw ((eq_iff m n).0 e) (ground (arith, eq_refl n))
  | inr e ↦ ground (arith, e)
]

pub includes-without :
    (ms : List String) (m n : String) → includes (without ms m) n ≡ (not (m == n) && includes ms n)
includes-without [] m n = ground arith
includes-without (x ∷ ms) m n =
    ground (arith, includes-without ms m n, eq_iff x m, eq_iff x n, eq_iff m n)

lives_earlier :
    (t now : ℕ) (until : Option ℕ) → now ≤ t → lives t until ≡ true → lives now until ≡ true
lives_earlier t now none le h = refl
lives_earlier t now (some until) le h = ground (arith, h)

lives-live_until : (now : ℕ) (until : Option ℕ) → lives now (live_until now until) ≡ true
lives-live_until now until = elim (Bool-cases (lives now until)) [
  | inl e ↦ rw (live_until, e) e
  | inr e ↦ rw (live_until, e) refl
]

pub members_same :
    (t : ℕ) (d : Sets) (k : String) (kept : Kept) → members t ((k, kept) ∷ d) k ≡ at_time t kept
members_same t d k kept =
    let same : stored ((k, kept) ∷ d) k ≡ kept = rw (eq_refl k) refl in ap (at_time t) same

pub members_other :
    (t : ℕ) (d : Sets) (k j : String) (kept : Kept)
    → (k == j) ≡ false
    → members t ((k, kept) ∷ d) j ≡ members t d j
members_other t d k j kept other =
    let same : stored ((k, kept) ∷ d) j ≡ stored d j = rw other refl in ap (at_time t) same

pub members-sadd :
    (now : ℕ) (d : Sets) (k m n : String)
    → includes
        (members now ((k, (add_member (members now d k) m, live_until now (stored d k).1)) ∷ d) k)
        n
      ≡ (m == n || includes (members now d k) n)
members-sadd now d k m n =
    let kept : Kept = (add_member (members now d k) m, live_until now (stored d k).1) in
    ap (λ ms. includes ms n) (members_same now d k kept)
    ∙ ap (λ b. includes (if b then add_member (members now d k) m else []) n)
        (lives-live_until now (stored d k).1)
    ∙ includes-add_member (members now d k) m n

pub members-srem :
    (t : ℕ) (d : Sets) (k m n : String)
    → includes (members t ((k, (without (stored d k).0 m, (stored d k).1)) ∷ d) k) n
      ≡ (not (m == n) && includes (members t d k) n)
members-srem t d k m n =
    let kept : Kept = (without (stored d k).0 m, (stored d k).1) in
    ap (λ ms. includes ms n) (members_same t d k kept)
    ∙ elim (Bool-cases (lives t (stored d k).1)) [
      | inl e ↦ rw e (includes-without (stored d k).0 m n)
      | inr e ↦ rw e (ground arith)
    ]

pub members-del :
    (t : ℕ) (d : Sets) (k j : String)
    → members t ((k, ([], none)) ∷ d) j ≡ (if k == j then [] else members t d j)
members-del t d k j = elim (Bool-cases (k == j)) [ inl e ↦ rw e refl | inr e ↦ rw e refl ]

pub members_stay_empty :
    (t now : ℕ) (d : Sets) (k : String) → now ≤ t → members now d k ≡ [] → members t d k ≡ []
members_stay_empty t now d k le empty = elim (Bool-cases (lives t (stored d k).1)) [
  | inr e ↦ rw e refl
  | inl e ↦ rw e (rw (lives_earlier t now (stored d k).1 le e) at empty)
]

abbrev pub listed : (now : ℕ) → Sets → List String
listed now d = keep (λ k. ltb 0 (length (members now d k))) (names d)

pub everything : (ks : List String) → All (λ k. Unit {0}) ks
everything [] = tt
everything (k ∷ ks) = (tt, everything ks)

pub listed_nonempty : (now : ℕ) (d : Sets) → All (λ k. 0 < length (members now d k)) (listed now d)
listed_nonempty now d =
    All-keep_test (λ k. Unit {0}) (λ k. 0 < length (members now d k)) _ (names d)
      (λ k u e. ltb→lt 0 (length (members now d k)) e) (everything (names d))

abbrev pub logged_sets : SetClient
logged_sets = record {
  Data = Sets;
  sadd = λ now d k m. (k, (add_member (members now d k) m, live_until now (stored d k).1)) ∷ d;
  expire = λ now d k ttl. (k, (members now d k, some (now + 1000 * ttl))) ∷ d;
  srem = λ now d k m. (k, (without (stored d k).0 m, (stored d k).1)) ∷ d;
  scard = λ now d k. length (members now d k);
  smembers = members;
  del = λ d k. (k, ([], none)) ∷ d;
  keys = λ now d prefix. listed now d;
  smembers-sadd = members-sadd;
  sadd_other = λ t now d k m j other. members_other t d k j _ other;
  smembers-expire = λ t now d k ttl positive le. members_same t d k _;
  expire_other = λ t now d k ttl j other. members_other t d k j _ other;
  smembers-srem = λ t now d k m n le. members-srem t d k m n;
  srem_other = λ t now d k m j other. members_other t d k j _ other;
  scard-smembers = λ now d k. refl;
  smembers-del = members-del;
  stays_empty = members_stay_empty;
  keys-nonempty = λ now d prefix. listed_nonempty now d;
}
