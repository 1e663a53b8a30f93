-- ===== src/Cortex/Shaper/Webhook/Laws.antt =====
-- What a webhook of cortex/event-shaper.ts sets off.
use app_intent_system_orches.Base.{
  ℕ, zero, suc, negsuc, String, ◌≡◌, ◌≢◌, refl, ap, ◌∙◌, ◌⊎◌, inl, inr, true, false, is_some,
  is_empty, none, some, List, [], string_eq, eq_refl, ℤ, pos, int_beq, arith, Bool-cases,
  Option-cases,
}
use Prim.Native.String.{◌++◌}
use text.Mathlib.TextLemmas.{nil-append, cons-append}
use app_intent_system_orches.Cortex.Types.{Event}
use app_intent_system_orches.Cortex.Redis.{Redis}
use app_intent_system_orches.Cortex.World.{Outside}
use app_intent_system_orches.Cortex.Store.Tables.{Store}
use app_intent_system_orches.Cortex.Store.Events.{dedupe_of, dedupe_name}
use app_intent_system_orches.Cortex.Store.Dedupe.{write_seen, HasKey, set-HasKey}
use app_intent_system_orches.Cortex.Dispatch.Laws.{refused_starts_none}
use app_intent_system_orches.Cortex.Shaper.Webhook.{
  Connection, WebhookPayload, get_user_id, nonempty_text, owner_of, owner_key, webhook_key,
  sync_dedupe_key, sync_event, total_changes, emit_sync, unhandled, handle_webhook,
}

module _ (outside : Outside) {redis : Redis} (encode : Event → String) where
  -- A webhook either changes no more than the cached owner, or emits its event.
  handle_webhook_cases :
      (connections : List Connection) (p : WebhookPayload) (s : Store redis) (w : outside.World)
      → ((handle_webhook outside encode connections p s w).processed ≡ 0)
        ⊎ ((user_id : String) × (t : Store redis) × (handle_webhook outside encode connections p s w
              ≡ emit_sync outside encode p user_id t w))
  unfolding handle_webhook
  handle_webhook_cases connections p s w =
      elim (Bool-cases (is_some (nonempty_text (redis.get s.cache (webhook_key p))))) [
        | inl e ↦ inl (rw (e, handle_webhook) refl)
        | inr e ↦
            let (owner, s') = get_user_id connections p.connection_id s in
            elim (Option-cases (nonempty_text owner)) [
              | inl f ↦ inl (rw (e, handle_webhook) (rw f refl))
              | inr (user_id, f) ↦ elim (Bool-cases (int_beq (total_changes p) (pos 0))) [
                | inl g ↦ inl (rw (e, handle_webhook) (rw f (rw g refl)))
                | inr g ↦ inr (user_id, s', rw (e, handle_webhook) (rw f (rw g refl)))
              ]
            ]
      ]

  emit_sync_marks :
      (p : WebhookPayload) (user_id : String) (t : Store redis) (w : outside.World)
      → redis.get (emit_sync outside encode p user_id t w).store.cache (webhook_key p) ≡ some "1"
  unfolding emit_sync
  emit_sync_marks p user_id t w = rw redis.get-set (rw (eq_refl (webhook_key p)) refl)

  marked_is_unhandled :
      (connections : List Connection) (q : WebhookPayload) (t : Store redis) (w : outside.World)
      → redis.get t.cache (webhook_key q) ≡ some "1"
      → handle_webhook outside encode connections q t w ≡ unhandled outside encode t w
  unfolding handle_webhook
  marked_is_unhandled connections q t w h = rw (h, handle_webhook) refl

-- Once a webhook was processed, a second one for the same connection and model does nothing at all
-- while the mark of the first is kept, whatever it reports.
pub handle_webhook_once :
    (outside : Outside) {redis : Redis} (encode : Event → String) (connections : List Connection)
    (p q : WebhookPayload) (s : Store redis) (w w' : outside.World)
    → webhook_key q ≡ webhook_key p
    → (handle_webhook outside encode connections p s w).processed ≡ 1
    → let first = handle_webhook outside encode connections p s w in
      handle_webhook outside encode connections q first.store w'
      ≡ record { processed = 0; started = []; store = first.store; world = w' }
handle_webhook_once outside {redis} encode connections p q s w w' same done =
    elim (handle_webhook_cases outside encode connections p s w) [
      | inl none_done ↦ absurd (ground arith)
      | inr (user_id, t, e) ↦
          marked_is_unhandled outside encode connections q _ w'
            (rw (same, e) (emit_sync_marks outside encode p user_id t w))
    ]

joined_nonempty : (a b : String) → is_empty (a ++ ("_" ++ b)) ≡ false
joined_nonempty String.[] b = rw (nil-append, cons-append) refl
joined_nonempty (String.◌∷◌ c a) b = rw cons-append refl

keyed :
    (p : WebhookPayload) (user_id : String) (stamp time : ℕ)
    → dedupe_of (sync_event p user_id stamp time).dedupe_key ≡ some (sync_dedupe_key p)
unfolding sync_event
keyed p user_id stamp time = rw (joined_nonempty p.connection_id _) refl

module _ (outside : Outside) {redis : Redis} (encode : Event → String) where
  emit_sync_seen :
      (p : WebhookPayload) (user_id : String) (t : Store redis) (w : outside.World)
      → HasKey (dedupe_name (sync_dedupe_key p)) t
      → ((emit_sync outside encode p user_id t w).processed ≡ 1)
        × ((emit_sync outside encode p user_id t w).started ≡ [])
        × ((emit_sync outside encode p user_id t w).store.published ≡ t.published)
  unfolding emit_sync
  emit_sync_seen p user_id t w seen =
      let (stamp, w₁) = outside.now w in
      let (time, w₂) = outside.now w₁ in
      let quiet = refused_starts_none outside encode (sync_event p user_id stamp time) t w₂ (
        write_seen encode (sync_event p user_id stamp time) t (sync_dedupe_key p)
          (keyed p user_id stamp time) seen) in
      (refl, ap (λ d. d.started) quiet, ap (λ d. d.store.published) quiet)

module _ {redis : Redis} where
  get_user_id_keeps :
      (connections : List Connection) (id : String) (s : Store redis) (j : String)
      → HasKey j s
      → HasKey j (get_user_id connections id s).1
        × ((get_user_id connections id s).1.published ≡ s.published)
  unfolding get_user_id
  get_user_id_keeps connections id s j h =
      elim (Option-cases (nonempty_text (redis.get s.cache (owner_key id)))) [
        | inr (user_id, e) ↦ rw (e, get_user_id) (h, refl)
        | inl e ↦ elim (Option-cases (owner_of id connections)) [
          | inl f ↦ rw (e, get_user_id) (rw f (h, refl))
          | inr (user_id, f) ↦
              rw (e, get_user_id) (rw f (set-HasKey redis s.cache (owner_key id) user_id j h, refl))
        ]
      ]

not_zero : (a : ℤ) → a ≢ pos 0 → int_beq a (pos 0) ≡ false
not_zero (pos zero) h = absurd (h refl)
not_zero (pos (suc n)) h = ground arith
not_zero (negsuc n) h = refl

-- A webhook with changes whose mark has expired, and whose connection has an owner, is reported as
-- processed, but starts no run and publishes nothing, as long as the store keeps the dedupe key of an
-- earlier webhook for the same connection and model.
pub handle_webhook_dropped :
    (outside : Outside) {redis : Redis} (encode : Event → String) (connections : List Connection)
    (p : WebhookPayload) (s : Store redis) (w : outside.World)
    → redis.get s.cache (webhook_key p) ≡ none
    → is_some (nonempty_text (get_user_id connections p.connection_id s).0) ≡ true
    → total_changes p ≢ pos 0
    → is_some (redis.get s.cache (dedupe_name (sync_dedupe_key p))) ≡ true
    → let done = handle_webhook outside encode connections p s w in
      (done.processed ≡ 1) × (done.started ≡ []) × (done.store.published ≡ s.published)
unfolding handle_webhook
handle_webhook_dropped outside {redis} encode connections p s w expired owned changed kept =
    let (owner, s') = get_user_id connections p.connection_id s in
    let (kept', quiet) =
      get_user_id_keeps connections p.connection_id s (dedupe_name (sync_dedupe_key p)) kept in
    elim (Option-cases (nonempty_text owner)) [
      | inl f ↦ absurd (ground arith)
      | inr (user_id, f) ↦
          let (one, nothing, silent) = emit_sync_seen outside encode p user_id s' w kept' in
          rw (expired, handle_webhook)
            (rw f (rw (not_zero (total_changes p) changed) (one, nothing, silent ∙ quiet)))
    ]
