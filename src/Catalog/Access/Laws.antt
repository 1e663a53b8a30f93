-- ===== src/Catalog/Access/Laws.antt =====
-- Which tools a user may use.
use app_intent_system_orches.Base.{
  ◌≡◌, refl, inl, inr, String, Bool, true, false, not, ◌&&◌, ◌||◌, List, [], ◌∷◌, ◌++◌, any,
  includes, ◌==◌, string_eq, eq_iff, is_empty, arith, Bool-cases, ap, subst,
}
use app_intent_system_orches.Cortex.Shaper.Webhook.{Connection}
use app_intent_system_orches.Catalog.Config.{normalized}
use app_intent_system_orches.Catalog.Access.{
  equivalence_groups, chain_in, get_canonical_provider_chain, add_to_set, add_all, providers_from,
}

includes-append :
    (xs ys : List String) (k : String) → includes (xs ++ ys) k ≡ (includes xs k || includes ys k)
includes-append [] ys k = refl
includes-append (x ∷ xs) ys k = ground (arith, includes-append xs ys k)

includes-add_to_set :
    (set : List String) (key k : String)
    → includes (add_to_set set key) k ≡ (includes set k || (key == k))
includes-add_to_set set key k = elim (Bool-cases (includes set key)) [
  | inl e ↦ rw e (elim (Bool-cases (key == k)) [
    | inl same ↦ ground (arith, ap (includes set) ((eq_iff key k).0 same))
    | inr differ ↦ ground arith
  ])
  | inr e ↦ rw (e, includes-append set (key ∷ []) k) (ground arith)
]

pub includes-add_all :
    (set keys : List String) (k : String)
    → includes (add_all set keys) k ≡ (includes set k || includes keys k)
includes-add_all set [] k = ground arith
includes-add_all set (key ∷ keys) k =
    ground (arith, includes-add_all (add_to_set set key) keys k, includes-add_to_set set key k)

-- Two providers that stand for the same service.
abbrev pub is_same_provider : String → String → Bool
is_same_provider a b =
    a == b || any (λ group. includes group a && includes group b) equivalence_groups

abbrev google : List String
google = "google-mail-ynxw" ∷ "google-mail" ∷ "gmail" ∷ []

abbrev salesforce : List String
salesforce = "salesforce-ybzg" ∷ "salesforce-2" ∷ "salesforce" ∷ []

groups_apart : (a : String) → includes google a ≡ true → includes salesforce a ≡ false
groups_apart a h = elim (Bool-cases ("google-mail-ynxw" == a)) [
  | inl e ↦ subst (λ x. includes salesforce x ≡ false) ((eq_iff "google-mail-ynxw" a).0 e) refl
  | inr e₁ ↦ elim (Bool-cases ("google-mail" == a)) [
    | inl e ↦ subst (λ x. includes salesforce x ≡ false) ((eq_iff "google-mail" a).0 e) refl
    | inr e₂ ↦ elim (Bool-cases ("gmail" == a)) [
      | inl e ↦ subst (λ x. includes salesforce x ≡ false) ((eq_iff "gmail" a).0 e) refl
      | inr e₃ ↦ absurd (ground arith)
    ]
  ]
]

includes_of_same :
    (xs : List String) (a b : String) → (a == b) ≡ true → includes xs a ≡ includes xs b
includes_of_same xs a b h = ap (includes xs) ((eq_iff a b).0 h)

chain_apart :
    (g₁ g₂ : List String) (a b : String)
    → (includes g₁ a ≡ true → includes g₂ a ≡ false)
    → includes (chain_in (g₁ ∷ g₂ ∷ []) a) b
      ≡ (a == b || any (λ group. includes group a && includes group b) (g₁ ∷ g₂ ∷ []))
unfolding chain_in
chain_apart g₁ g₂ a b apart = elim (Bool-cases (includes g₁ a)) [
  | inl e ↦
      rw (e, apart e)
        (elim (Bool-cases (a == b)) [
          | inl same ↦ ground (arith, includes_of_same g₁ a b same)
          | inr differ ↦ ground arith
        ])
  | inr e ↦ rw e (elim (Bool-cases (a == b)) [
    | inl same ↦ ground (arith, includes_of_same g₂ a b same)
    | inr differ ↦ ground arith
  ])
]

includes-chain : (a b : String) → includes (chain_in equivalence_groups a) b ≡ is_same_provider a b
includes-chain a b = chain_apart google salesforce a b (groups_apart a)

-- Whether the user has a connection for the key.
abbrev pub has_connection : String → List Connection → String → Bool
has_connection user_id connections key =
    any
      (λ c.
        c.user_id == user_id
        && (not (is_empty c.provider) && is_same_provider (normalized c.provider) key))
      connections

pub includes-canonical :
    (provider key : String)
    → includes (get_canonical_provider_chain provider) key
      ≡ (not (is_empty provider) && is_same_provider (normalized provider) key)
unfolding get_canonical_provider_chain
includes-canonical provider key = elim (Bool-cases (is_empty provider)) [
  | inl e ↦ rw e refl
  | inr e ↦ rw e (includes-chain (normalized provider) key)
]

pub includes-providers_from :
    (set : List String) (user_id : String) (connections : List Connection) (key : String)
    → includes (providers_from set user_id connections) key
      ≡ (includes set key || has_connection user_id connections key)
unfolding providers_from
includes-providers_from set user_id [] key = ground arith
includes-providers_from set user_id (c ∷ cs) key = elim (Bool-cases (c.user_id == user_id)) [
  | inl e ↦ rw e (
      ground (
        arith,
        includes-providers_from (add_all set (get_canonical_provider_chain c.provider)) user_id cs
            key,
        includes-add_all set (get_canonical_provider_chain c.provider) key,
        includes-canonical c.provider key,
      ))
  | inr e ↦ rw e (includes-providers_from set user_id cs key)
]
