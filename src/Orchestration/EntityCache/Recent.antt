-- ===== src/Orchestration/EntityCache/Recent.antt =====
-- The recent entities of a session, after the entities were cached.
use Prim.Native.Char.{code}
use Prim.Native.String.{◌++◌}
use text.Mathlib.TextLemmas.{nil-append, cons-append, append-nil}
use app_intent_system_orches.Base.{
  ℕ, ◌+◌, ◌*◌, ltb, if◌then◌else◌, zero, suc, ◌≡◌, refl, sym, ap, ◌∙◌, inl, inr, subst, String,
  Bool, true, false, ◌||◌, Option, none, some, List, [], ◌∷◌, map, keep, take, All, All-mono,
  is_some, ◌==◌, nat_eq, string_eq, eq_iff, arith, Bool-cases,
}
use app_intent_system_orches.Orchestration.EntityCache.{
  CachedEntity, DedupeKey, Entry, entity, EntityClient, entity_key, fetch_key, dedupe_text,
  entity_of, found, after_colons, part_text, cache_entity, record_fetch_result, get_entity,
  get_entities, session_keys, get_recent_cached_entities, sort_recent,
}

abbrev pub has_colon : String → Bool
has_colon String.[] = false
has_colon (String.◌∷◌ c s) = (code c == b':') || has_colon s

after_colons_skip :
    (n : ℕ) (s t : String)
    → has_colon s ≡ false
    → after_colons (suc n) (s ++ (":" ++ t)) ≡ after_colons n t
unfolding after_colons
after_colons_skip n String.[] t h = rw (nil-append, cons-append, nil-append) refl
after_colons_skip n (String.◌∷◌ c s) t h =
    let here : (code c == b':') ≡ false = ground (arith) in
    let later : has_colon s ≡ false = ground (arith) in
    rw (cons-append, after_colons, here) (after_colons_skip n s t later)

after_colons-none :
    (n : ℕ) (s : String) → has_colon s ≡ false → after_colons (suc n) (s ++ "") ≡ none
unfolding after_colons
after_colons-none n String.[] h = refl
after_colons-none n (String.◌∷◌ c s) h =
    let here : (code c == b':') ≡ false = ground (arith) in
    let later : has_colon s ≡ false = ground (arith) in
    rw (cons-append, after_colons, here) (after_colons-none n s later)

-- A key `kind:session:rest` without further colons has no fourth part, and its third is the rest.
fourth_part :
    (kind s t : String)
    → has_colon kind ≡ false
    → has_colon s ≡ false
    → has_colon t ≡ false
    → after_colons 3 (kind ++ (":" ++ (s ++ (":" ++ (t ++ ""))))) ≡ none
fourth_part kind s t h₁ h₂ h₃ =
    after_colons_skip 2 kind _ h₁ ∙ after_colons_skip 1 s _ h₂ ∙ after_colons-none 0 t h₃

third_part :
    (kind s t : String)
    → has_colon kind ≡ false
    → has_colon s ≡ false
    → after_colons 2 (kind ++ (":" ++ (s ++ (":" ++ (t ++ ""))))) ≡ some t
unfolding after_colons
third_part kind s t h₁ h₂ =
    after_colons_skip 1 kind _ h₁ ∙ after_colons_skip 0 s _ h₂ ∙ ap some (append-nil t)

-- What is done to the cache: an entity is cached, or the result of a fetch is recorded.
pub data Change : Type 0 where
  caches : (now : ℕ) → (session_id : String) → CachedEntity → Change
  records : (now : ℕ) → (session_id : String) → DedupeKey → List String → Change

-- Ids without colons, as the program makes them, of which none is the text "undefined".
abbrev pub IsPlain : Change → Type 0
IsPlain (caches now session_id e) =
    (has_colon session_id ≡ false) × (has_colon e.id ≡ false) × ((e.id == "undefined") ≡ false)
IsPlain (records now session_id key ids) = has_colon session_id ≡ false

-- What is no entity is none when it has expired.
entity_of_kept :
    (b : Bool) (e : Entry)
    → entity_of (some e) ≡ none
    → entity_of (if b then some e else none) ≡ none
entity_of_kept true e h = h
entity_of_kept false e h = refl

take_nothing : (n : ℕ) → take {A = CachedEntity} n [] ≡ []
take_nothing zero = refl
take_nothing (suc n) = refl

found_none :
    (look : String → Option CachedEntity) (keys : List String) (part : String → String)
    → All (λ k. look (part k) ≡ none) keys
    → found (map look (map part keys)) ≡ []
found_none look [] part h = refl
found_none look (k ∷ ks) part h = rw h.0 (found_none look ks part h.1)

module _ (client : EntityClient) (hash : String → String) where
  abbrev pub follow_change : Change → client.Data → client.Data
  follow_change (caches now session_id e) d = cache_entity client now session_id e d
  follow_change (records now session_id key ids) d =
      record_fetch_result client hash now session_id key ids d

  abbrev pub follow_changes : List Change → client.Data → client.Data
  follow_changes [] d = d
  follow_changes (change ∷ changes) d = follow_changes changes (follow_change change d)

  -- At any time, keys have three parts, and no entity is named "undefined".
  record HasPlainKeys (d : client.Data) : Type 0 where
    three_parts : (t : ℕ) (k : String) → is_some (client.get t d k) ≡ true → after_colons 3 k ≡ none
    no_undefined :
        (t : ℕ) (s : String)
        → has_colon s ≡ false
        → entity_of (client.get t d (entity_key s "undefined")) ≡ none

  setex-HasPlainKeys :
      (now : ℕ) (k : String) (ttl : ℕ) (e : Entry) (d : client.Data)
      → after_colons 3 k ≡ none
      → ((s : String)
          → has_colon s ≡ false
          → (k == entity_key s "undefined") ≡ true
          → entity_of (some e) ≡ none)
      → HasPlainKeys d
      → HasPlainKeys (client.setex now d k ttl e)
  setex-HasPlainKeys now k ttl e d three other h = record {
    three_parts = λ t j stored. elim (Bool-cases (k == j)) [
      | inl same ↦ subst (λ x. after_colons 3 x ≡ none) ((eq_iff k j).0 same) three
      | inr differ ↦ h.three_parts t j (rw (client.get-setex t now d k ttl e j, differ) at stored)
    ];
    no_undefined = λ t s plain. elim (Bool-cases (k == entity_key s "undefined")) [
      | inl same ↦
          rw (client.get-setex t now d k ttl e (entity_key s "undefined"), same)
            (entity_of_kept (ltb t (now + 1000 * ttl)) e (other s plain same))
      | inr differ ↦
          rw (client.get-setex t now d k ttl e (entity_key s "undefined"), differ)
            (h.no_undefined t s plain)
    ];
  }

  follow_change-HasPlainKeys :
      (change : Change) (d : client.Data)
      → ((t : String) → has_colon (hash t) ≡ false)
      → IsPlain change
      → HasPlainKeys d
      → HasPlainKeys (follow_change change d)
  unfolding cache_entity record_fetch_result
  follow_change-HasPlainKeys (caches now session_id e) d hex plain h =
      setex-HasPlainKeys now (entity_key session_id e.id) 86400
        (entity (record e { timestamp = now })) d
        (fourth_part "crm-entity" session_id e.id refl plain.0 plain.1)
        (λ s other same.
          let parts : some e.id ≡ some "undefined" =
            sym (third_part "crm-entity" session_id e.id refl plain.0)
            ∙ ap (after_colons 2)
                ((eq_iff (entity_key session_id e.id) (entity_key s "undefined")).0 same)
            ∙ third_part "crm-entity" s "undefined" refl other in
          absurd (ground (arith, plain.2, parts, eq_iff e.id "undefined")))
        h
  follow_change-HasPlainKeys (records now session_id key ids) d hex plain h =
      setex-HasPlainKeys now (fetch_key hash session_id key) 3600 _ d
        (fourth_part "fetch-dedup" session_id (hash (dedupe_text key)) refl plain
          (hex (dedupe_text key)))
        (λ s other same. refl) h

  follow_changes-HasPlainKeys :
      (changes : List Change) (d : client.Data)
      → ((t : String) → has_colon (hash t) ≡ false)
      → All IsPlain changes
      → HasPlainKeys d
      → HasPlainKeys (follow_changes changes d)
  follow_changes-HasPlainKeys [] d hex plain h = h
  follow_changes-HasPlainKeys (change ∷ changes) d hex plain h =
      follow_changes-HasPlainKeys changes (follow_change change d) hex plain.1
        (follow_change-HasPlainKeys change d hex plain.0 h)

  -- In a cache that was empty, at any time after any entities were cached and any fetches recorded under ids
  -- without colons, of which none is the text "undefined", and with a hash that has no colon, no
  -- session has a recent entity of any type.
  pub get_recent_cached_entities-none :
      (changes : List Change) (d : client.Data) (now : ℕ) (session_id entity_type : String)
      (limit : ℕ)
      → ((t : ℕ) (k : String) → client.get t d k ≡ none)
      → ((t : String) → has_colon (hash t) ≡ false)
      → All IsPlain changes
      → has_colon session_id ≡ false
      → get_recent_cached_entities client now session_id entity_type limit
          (follow_changes changes d)
        ≡ []
  unfolding get_recent_cached_entities get_entities get_entity
  get_recent_cached_entities-none changes d now session_id entity_type limit empty hex plain s =
      let after = follow_changes changes d in
      let h : HasPlainKeys after = follow_changes-HasPlainKeys changes d hex plain (record {
        three_parts = λ t k stored. absurd (cc (empty t k));
        no_undefined = λ t s plain. ap entity_of (empty t (entity_key s "undefined"));
      }) in
      let looks_none : All (λ k. get_entity client now session_id (part_text 3 k) after ≡ none)
          (session_keys client now session_id after) =
        All-mono (λ k. is_some (client.get now after k) ≡ true) _
          (session_keys client now session_id after)
          (λ k stored. rw (part_text, h.three_parts now k stored) (h.no_undefined now session_id s))
          (client.keys_found now after _) in
      ap (λ es. take limit (sort_recent (keep (λ e. e.type == entity_type) es)))
        (found_none (λ id. get_entity client now session_id id after)
          (session_keys client now session_id after) (part_text 3) looks_none)
      ∙ take_nothing limit
