-- ===== src/Cortex/Shaper/Leads/Memory.antt =====
-- What shapeLeadEvents of cortex/event-shaper.ts remembers of the leads.
use app_intent_system_orches.Base.{
  ℕ, String, ◌≡◌, refl, ◌∙◌, ◌⊎◌, inl, inr, Bool, true, false, ◌&&◌, ◌||◌, Option, some, List, [],
  ◌∷◌, ◌++◌, any, ◌==◌, string_eq, ◌≢◌, eq_refl, arith, Bool-cases, Option-cases,
}
use app_intent_system_orches.Js.{Value, Fields, end, get, get_field, truthy, to_text}
use app_intent_system_orches.Js.Objects.{get-set_field}
use app_intent_system_orches.Cortex.Types.{Event}
use app_intent_system_orches.Cortex.World.{Outside}
use app_intent_system_orches.Cortex.Shaper.Records.{
  previous, next_state_cases, remembers, record_id, Shaping,
}
use app_intent_system_orches.Cortex.Shaper.Leads.{
  lead_event_type, lead_event, lead_snapshot, shape_lead, shape_leads, shape_lead_events,
}

-- The event is about the lead with this id.
abbrev pub is_about : String → Event → Bool
is_about id e = to_text (get "lead_id" e.payload) == id

or_true : (b : Bool) → (b || true) ≡ true
or_true false = refl
or_true true = refl

any_snoc : (p : Event → Bool) (es : List Event) (e : Event) → any p (es ++ e ∷ []) ≡ p e || any p es
any_snoc p [] e = ground arith
any_snoc p (d ∷ es) e = ground (arith, any_snoc p es e)

is_about-lead_event :
    (lead : Fields) (prev : Value) (type user_id : String) (stamp time : ℕ) (k : String)
    → is_about k (lead_event lead prev type user_id stamp time) ≡ (to_text (record_id lead) == k)
unfolding lead_event get
is_about-lead_event lead prev type user_id stamp time k = refl

module _ (outside : Outside) (user_id : String) (prev : Fields) where
  -- What is remembered are exactly the leads that raised an event.
  abbrev Agrees : Shaping outside → Type 0
  Agrees x = (k : String) → remembers x.new_state k ≡ any (is_about k) x.events

  shape_lead-Agrees :
      (lead : Fields) (x : Shaping outside)
      → Agrees x
      → Agrees (shape_lead outside user_id prev lead x)
  unfolding shape_lead
  shape_lead-Agrees lead x h k =
      let id = to_text (record_id lead) in
      elim (Bool-cases (truthy (record_id lead))) [
        | inr e ↦ rw (e, shape_lead) (h k)
        | inl e ↦ elim (Option-cases (lead_event_type (get_field id prev) lead)) [
          | inl f ↦ rw (e, shape_lead) (rw f (h k))
          | inr (type, f) ↦
              let (stamp, w₁) = outside.now x.world in
              let (time, w₂) = outside.now w₁ in
              rw (e, shape_lead)
                (rw f (
                  rw
                    (
                      any_snoc,
                      is_about-lead_event,
                      get-set_field id k (lead_snapshot lead) x.new_state,
                    )
                    (elim (Bool-cases (id == k)) [ inl g ↦ rw g refl | inr g ↦ rw g (h k) ])))
        ]
      ]

  shape_leads-Agrees :
      (leads : List Fields) (x : Shaping outside)
      → Agrees x
      → Agrees (shape_leads outside user_id prev leads x)
  unfolding shape_leads
  shape_leads-Agrees [] x h = h
  shape_leads-Agrees (lead ∷ leads) x h =
      shape_leads-Agrees leads (shape_lead outside user_id prev lead x) (shape_lead-Agrees lead x h)

events_cases : (es : List Event) → (es ≡ []) ⊎ ((e : Event) × (rest : List Event) × (es ≡ e ∷ rest))
events_cases [] = inl refl
events_cases (e ∷ rest) = inr (e, rest, refl)

-- An event is about some lead.
some_lead :
    (e : Event) (es : List Event)
    → any (is_about (to_text (get "lead_id" e.payload))) (e ∷ es) ≡ true
some_lead e es = rw (eq_refl (to_text (get "lead_id" e.payload))) refl

unknown_is_created :
    (id : String) (state lead : Fields)
    → remembers state id ≡ false
    → lead_event_type (get_field id state) lead ≡ some "lead_created"
unfolding lead_event_type
unknown_is_created id state lead h = rw (h, lead_event_type) refl

-- The event announces the lead with this id as created.
abbrev pub is_created : String → Event → Bool
is_created id e = is_about id e && (e.event == "lead_created")

module _ (outside : Outside) (user_id id : String) (prev : Fields) where
  shape_lead-is_created :
      (lead : Fields) (x : Shaping outside)
      → any (is_created id) x.events ≡ true
      → any (is_created id) (shape_lead outside user_id prev lead x).events ≡ true
  unfolding shape_lead
  shape_lead-is_created lead x h = elim (Bool-cases (truthy (record_id lead))) [
    | inr e ↦ rw (e, shape_lead) h
    | inl e ↦
        elim (Option-cases (lead_event_type (get_field (to_text (record_id lead)) prev) lead)) [
          | inl f ↦ rw (e, shape_lead) (rw f h)
          | inr (type, f) ↦ rw (e, shape_lead) (rw f (rw (any_snoc (is_created id), h) (or_true _)))
        ]
  ]

  shape_leads-is_created :
      (leads : List Fields) (x : Shaping outside)
      → any (is_created id) x.events ≡ true
      → any (is_created id) (shape_leads outside user_id prev leads x).events ≡ true
  unfolding shape_leads
  shape_leads-is_created [] x h = h
  shape_leads-is_created (lead ∷ leads) x h =
      shape_leads-is_created leads (shape_lead outside user_id prev lead x)
        (shape_lead-is_created lead x h)

  -- A lead that is not remembered is announced as created.
  unknown_is_announced :
      (lead : Fields) (x : Shaping outside)
      → truthy (record_id lead) ≡ true
      → to_text (record_id lead) ≡ id
      → remembers prev id ≡ false
      → any (is_created id) (shape_lead outside user_id prev lead x).events ≡ true
  unfolding shape_lead lead_event
  unknown_is_announced lead x named e unknown =
      let f = unknown_is_created (to_text (record_id lead)) prev lead (rw e unknown) in
      rw (named, shape_lead)
        (rw f (rw (any_snoc (is_created id), is_about-lead_event, e, eq_refl id) refl))

  shape_leads_announces :
      (earlier later : List Fields) (lead : Fields) (x : Shaping outside)
      → truthy (record_id lead) ≡ true
      → to_text (record_id lead) ≡ id
      → remembers prev id ≡ false
      → any (is_created id) (shape_leads outside user_id prev (earlier ++ lead ∷ later) x).events
        ≡ true
  unfolding shape_leads
  shape_leads_announces [] later lead x named e unknown =
      shape_leads-is_created later (shape_lead outside user_id prev lead x)
        (unknown_is_announced lead x named e unknown)
  shape_leads_announces (first ∷ earlier) later lead x named e unknown =
      shape_leads_announces earlier later lead (shape_lead outside user_id prev first x) named e
        unknown

-- A batch that raises an event, but none about an id, forgets that id, whatever was remembered before.
forgotten :
    (outside : Outside) (state : Option Fields) (records : List Fields) (user_id id : String)
    (w : outside.World)
    → (shape_lead_events outside state records user_id w).events ≢ []
    → any (is_about id) (shape_lead_events outside state records user_id w).events ≡ false
    → remembers (previous (shape_lead_events outside state records user_id w).state) id ≡ false
unfolding shape_lead_events
forgotten outside state records user_id id w raised silent =
    let x =
      shape_leads outside user_id (previous state) records
        (record { events = []; new_state = end; world = w }) in
    let agrees =
      shape_leads-Agrees outside user_id (previous state) records
        (record { events = []; new_state = end; world = w }) (λ k. refl) in
    elim (events_cases x.events) [
      | inl e ↦ absurd (raised e)
      | inr (e, es, f) ↦
          let saved =
            next_state_cases state x.new_state (to_text (get "lead_id" e.payload))
              (agrees _ ∙ (rw f (some_lead e es))) in
          rw (saved) (agrees id ∙ silent)
    ]

-- A batch of leads that raises an event, but none about an id, makes the next batch that holds a lead
-- with that id, anywhere in it and changed or not, announce the lead as created, whatever was
-- remembered before.
pub shape_lead_events_forgets :
    (outside : Outside) (state : Option Fields) (records : List Fields) (user_id id : String)
    (w w' : outside.World) (earlier later : List Fields) (lead : Fields)
    → (shape_lead_events outside state records user_id w).events ≢ []
    → any (is_about id) (shape_lead_events outside state records user_id w).events ≡ false
    → truthy (record_id lead) ≡ true
    → to_text (record_id lead) ≡ id
    → let first = shape_lead_events outside state records user_id w in
      let second = shape_lead_events outside first.state (earlier ++ lead ∷ later) user_id w' in
      any (is_created id) second.events ≡ true
unfolding shape_lead_events
shape_lead_events_forgets outside state records user_id id w w' earlier later lead raised silent
      named e =
    let first = shape_lead_events outside state records user_id w in
    shape_leads_announces outside user_id id (previous first.state) earlier later lead
      (record { events = []; new_state = end; world = w' }) named e
      (forgotten outside state records user_id id w raised silent)
