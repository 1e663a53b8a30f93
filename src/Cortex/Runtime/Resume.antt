-- ===== src/Cortex/Runtime/Resume.antt =====
-- cortex/runtime.ts: resumeWaitingRuns and rerun.
use app_intent_system_orches.Base.{
  ◌+◌, String, Option, none, some, List, [], ◌∷◌, concat, if◌then◌else◌,
}
use app_intent_system_orches.Js.{Value, fields, truthy}
use app_intent_system_orches.Cortex.Types.{Run, pending, running}
use app_intent_system_orches.Cortex.Redis.{Redis}
use app_intent_system_orches.Cortex.World.{Outside}
use app_intent_system_orches.Cortex.Store.Tables.{Store}
use app_intent_system_orches.Cortex.Store.Runs.{get_waiting_runs, get_run_for_rerun}
use app_intent_system_orches.Cortex.Runtime.Execute.{Sys, Executed, execute}

-- What a method leaves behind, and the message if it throws.
pub record After (outside : Outside) (redis : Redis) : Type 0 where
  pub store : Store redis
  pub world : outside.World
  pub thrown : Option String

-- The new run of a rerun.
unfoldable pub rerun_of : (outside : Outside) → Run → Value → outside.World → Run × outside.World
rerun_of outside run payload w =
    let (id, w₁) = outside.run_id w in
    let (started, w₂) = outside.now w₁ in
    (
      record {
        id = id;
        unit_id = run.unit_id;
        event_id = concat ("rerun_" ∷ run.event_id ∷ []);
        user_id = run.user_id;
        status = pending;
        step = 0;
        context = fields (("payload", payload) ∷ []);
        started_at = started;
        completed_at = none;
        resume_at = none;
        error = none;
      },
      w₂,
    )

-- `rerun` returns null: nothing was done.
pub data Rerun (outside : Outside) (redis : Redis) : Type 0 where
  refused : Rerun outside redis
  ran : Executed outside redis → Rerun outside redis

module _ {outside : Outside} {redis : Redis} where
  unfoldable pub resume_runs : List Run → Store redis → outside.World → Option (After outside redis)
  resume_runs [] s w = some (record { store = s; world = w; thrown = none })
  resume_runs (run ∷ runs) s w =
      let resumed : Sys outside redis = record {
        run = record run { status = running; step = run.step + 1 };
        store = s;
        world = w;
      } in
      elim (execute resumed) [
        | none ↦ none
        | some x ↦ elim x.thrown [
          | some m ↦ some (record { store = x.sys.store; world = x.sys.world; thrown = some m })
          | none ↦ resume_runs runs x.sys.store x.sys.world
        ]
      ]

  unfoldable pub resume_waiting_runs : Store redis → outside.World → Option (After outside redis)
  unfolding resume_runs get_waiting_runs
  resume_waiting_runs s w =
      let (time, w') = outside.now w in resume_runs (get_waiting_runs time s) s w'

  abbrev pub ran_out : Option (Executed outside redis) → Option (Rerun outside redis)
  ran_out none = none
  ran_out (some x) = some (ran x)

  -- The outer `none` means that the loop ran out of fuel.
  unfoldable pub rerun : String → Store redis → outside.World → Option (Rerun outside redis)
  unfolding get_run_for_rerun rerun_of execute
  rerun id s w = elim (get_run_for_rerun id s) [
    | none ↦ some refused
    | some (run, payload) ↦ elim payload [
      | none ↦ some refused
      | some v ↦
          if truthy v
          then (let (new_run, w') = rerun_of outside run v w in
              ran_out (execute (record { run = new_run; store = s; world = w' })))
          else some refused
    ]
  ]
