-- ===== src/Cortex/Matcher/Laws.antt =====
-- Which runs cortex/matcher.ts creates for an event.
use app_intent_system_orches.Base.{
  String, ◌≡◌, refl, ap, sym, subst, ◌∙◌, inl, inr, Bool, true, false, ◌&&◌, Option, some, List, [],
  ◌∷◌, ◌++◌, every, keep, ok, All, All-mono, All-keep, eq_refl, arith, Bool-cases,
}
use mathlib.Core.List.{append_assoc, append-nil}
use app_intent_system_orches.Js.{Value, fields}
use app_intent_system_orches.Cortex.Types.{
  Event, Condition, eval, semantic, other, Automation, Run, pending, is_active,
}
use app_intent_system_orches.Cortex.Redis.{Redis}
use app_intent_system_orches.Cortex.World.{Outside}
use app_intent_system_orches.Cortex.Store.Tables.{Store}
use app_intent_system_orches.Cortex.Store.Units.{has_trigger}
use app_intent_system_orches.Cortex.Store.Runs.{has_unit, save_run}
use app_intent_system_orches.Cortex.Store.Rows.{save_run_cases}
use app_intent_system_orches.Cortex.Matcher.{
  Matched, passes_filter, eval_all, evaluate, create_run, match_units, match,
}

-- The run that an event starts for a unit.
pub record IsRunOf (e : Event) (unit : Automation) (run : Run) : Type 0 where
  pub of_unit : run.unit_id ≡ unit.id
  pub of_event : run.event_id ≡ e.id
  pub of_user : run.user_id ≡ e.user_id
  pub pends : run.status ≡ pending
  pub at_start : run.step ≡ 0
  pub knows_payload : run.context ≡ fields (("payload", e.payload) ∷ [])

-- One run for each unit, in order.
abbrev pub AreRunsOf : Event → List Automation → List Run → Type 0
AreRunsOf e [] [] = Unit
AreRunsOf e (u ∷ us) (r ∷ rs) = IsRunOf e u r × AreRunsOf e us rs
AreRunsOf e _ _ = ⊥

-- The condition does not ask the language model.
abbrev pub IsPlain : Condition → Type 0
IsPlain (semantic prompt input expect) = ⊥
IsPlain _ = Unit

module _ (outside : Outside) where
  abbrev pub holds : Value → Condition → Bool
  holds payload (eval expr) = outside.eval_expr expr payload
  holds payload _ = true

  -- The filter of the trigger and all conditions hold.
  abbrev pub fires : Value → Automation → Bool
  fires payload unit =
      passes_filter outside unit.when payload && every (holds payload) unit.conditions

  eval_all-plain :
      (cs : List Condition) (payload : Value) (w : outside.World)
      → All IsPlain cs
      → eval_all outside cs payload w ≡ (ok (every (holds payload) cs), w)
  unfolding eval_all
  eval_all-plain [] payload w h = refl
  eval_all-plain (eval expr ∷ cs) payload w h = elim (Bool-cases (outside.eval_expr expr payload)) [
    | inl e ↦ rw e (eval_all-plain cs payload w h.1)
    | inr e ↦ rw e refl
  ]
  eval_all-plain (other ∷ cs) payload w h = eval_all-plain cs payload w h.1
  eval_all-plain (semantic prompt input expect ∷ cs) payload w h = absurd h.0

  evaluate-plain :
      (unit : Automation) (payload : Value) (w : outside.World)
      → All IsPlain unit.conditions
      → evaluate outside unit payload w ≡ (ok (fires payload unit), w)
  unfolding evaluate
  evaluate-plain unit payload w h = elim (Bool-cases (passes_filter outside unit.when payload)) [
    | inl e ↦ rw e (eval_all-plain unit.conditions payload w h)
    | inr e ↦ rw e refl
  ]

  create_run-IsRunOf :
      (unit : Automation) (e : Event) (w : outside.World)
      → IsRunOf e unit (create_run outside unit e w).0
  unfolding create_run
  create_run-IsRunOf unit e w = record {
    of_unit = refl;
    of_event = refl;
    of_user = refl;
    pends = refl;
    at_start = refl;
    knows_payload = refl;
  }

  abbrev pub starts : Value → Automation → Bool
  starts payload unit = is_active unit.status && fires payload unit

  module _ {redis : Redis} (e : Event) where
    -- The loop succeeded with one run, saved, for each of the units that start one.
    pub record Succeeds (units : List Automation) (runs : List Run) (s : Store redis)
        (m : Matched outside redis) : Type 0 where
      pub created : List Run
      pub returned : m.result ≡ ok (runs ++ created)
      pub made : AreRunsOf e (keep (starts e.payload) units) created
      pub same_units : m.store.units ≡ s.units

    skip :
        {u : Automation} {us : List Automation} {runs : List Run} {s : Store redis}
        {m : Matched outside redis}
        → starts e.payload u ≡ false
        → Succeeds us runs s m
        → Succeeds (u ∷ us) runs s m
    skip idle h = record {
      created = h.created;
      returned = h.returned;
      made = rw idle h.made;
      same_units = h.same_units;
    }

    add :
        {u : Automation} {us : List Automation} {runs : List Run} {s t : Store redis}
        {m : Matched outside redis} (r : Run)
        → starts e.payload u ≡ true
        → IsRunOf e u r
        → t.units ≡ s.units
        → Succeeds us (runs ++ r ∷ []) t m
        → Succeeds (u ∷ us) runs s m
    add {runs} r starting made same h = record {
      created = r ∷ h.created;
      returned = h.returned ∙ ap ok (append_assoc runs (r ∷ []) h.created);
      made = rw starting (made, h.made);
      same_units = h.same_units ∙ same;
    }

    saves :
        (run : Run) (payload : Option Value) (s : Store redis)
        → has_unit run.unit_id s.units ≡ true
        → (t : Store redis) × (save_run run payload s ≡ ok t) × (t.units ≡ s.units)
    saves run payload s known = elim (save_run_cases run payload s) [
      | inl (_, missing, _) ↦ cc
      | inr (t, saved, _, units, _) ↦ (t, saved, units)
    ]

    match_units-Succeeds :
        (units : List Automation) (runs : List Run) (s : Store redis) (w : outside.World)
        → All (λ u. has_unit u.id s.units ≡ true) units
        → All (λ u. All IsPlain u.conditions) units
        → Succeeds units runs s (match_units outside e units runs s w)
    unfolding match_units
    match_units-Succeeds [] runs s w known plain = record {
      created = [];
      returned = ap ok (sym (append-nil runs));
      made = tt;
      same_units = refl;
    }
    match_units-Succeeds (u ∷ us) runs s w known plain =
        let (pass, w₁) = evaluate outside u e.payload w in
        let passing = evaluate-plain u e.payload w plain.0 in
        elim (Bool-cases (is_active u.status)) [
          | inr off ↦
              rw (off, match_units)
                (skip (rw off refl) (match_units-Succeeds us runs s w known.1 plain.1))
          | inl on ↦ elim (Bool-cases (fires e.payload u)) [
            | inr idle ↦
                rw (on, match_units)
                  (rw passing (
                    rw (idle, match_units)
                      (skip (rw (on, idle) refl)
                        (match_units-Succeeds us runs s w₁ known.1 plain.1))))
            | inl firing ↦
                let made = create_run-IsRunOf u e w₁ in
                let (run, w₂) = create_run outside u e w₁ in
                let (t, saved, units) = saves run (some e.payload) s (rw made.of_unit known.0) in
                rw (on, match_units)
                  (rw passing (
                    rw (firing, match_units)
                      (rw (saved, match_units)
                        (add run (rw (on, firing) refl) made units
                          (match_units-Succeeds us _ t w₂ (rw units known.1) plain.1)))))
          ]
        ]

-- Every unit of a table is in the table.
has_unit_self : (units : List Automation) → All (λ u. has_unit u.id units ≡ true) units
has_unit_self [] = tt
has_unit_self (u ∷ us) =
    (rw (eq_refl u.id) refl, All-mono _ _ us (λ v e. ground (arith, e)) (has_unit_self us))

keep-keep :
    (source name : String) (p : Automation → Bool) (us : List Automation)
    → keep
        (λ u. is_active u.status && p u)
        (keep (λ u. has_trigger source name u && is_active u.status) us)
      ≡ keep (λ u. has_trigger source name u && is_active u.status && p u) us
keep-keep source name p [] = refl
keep-keep source name p (u ∷ us) = elim (Bool-cases (has_trigger source name u)) [
  | inr no_trigger ↦ rw no_trigger (keep-keep source name p us)
  | inl triggered ↦ elim (Bool-cases (is_active u.status)) [
    | inr off ↦ rw (triggered, off) (keep-keep source name p us)
    | inl on ↦
        rw (triggered, on)
          (rw on (elim (Bool-cases (p u)) [
            | inl h ↦ rw h (ap (◌∷◌ u) (keep-keep source name p us))
            | inr h ↦ rw h (keep-keep source name p us)
          ]))
  ]
]

-- The unit is triggered by events of this source and name, is active, its filter accepts the payload
-- and all of its conditions hold.
abbrev pub is_started_by : Outside → Event → Automation → Bool
is_started_by outside e u =
    has_trigger e.source e.event u && is_active u.status && fires outside e.payload u

module _ (outside : Outside) {redis : Redis} (e : Event) (s : Store redis) (w : outside.World) where
  -- If no unit of the table asks the language model, `match` returns without an error: one pending run
  -- for each active unit whose trigger, filter and conditions the event meets, in the order of the
  -- table, and none for any other unit. It leaves the units as they are.
  pub match-AreRunsOf :
      All (λ u. All IsPlain u.conditions) s.units
      → (created : List Run) × ((match outside e s w).result ≡ ok created)
        × AreRunsOf e (keep (is_started_by outside e) s.units) created
        × ((match outside e s w).store.units ≡ s.units)
  unfolding match
  match-AreRunsOf plain =
      let found = keep (λ u. has_trigger e.source e.event u && is_active u.status) s.units in
      let h =
        match_units-Succeeds outside e found [] s w (All-keep _ _ s.units (has_unit_self s.units))
          (All-keep _ _ s.units plain) in
      (
        h.created,
        h.returned,
        subst (λ us. AreRunsOf e us h.created)
            (keep-keep e.source e.event (fires outside e.payload) s.units) h.made,
        h.same_units,
      )
