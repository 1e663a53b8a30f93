-- ===== src/Plans/Executor/Marks.antt =====
-- The status of a step and of its result, by position in a plan.
use app_intent_system_orches.Base.{
  Bool, true, false, ℕ, zero, suc, ◌≤◌, ◌≡◌, ◌≢◌, refl, String, Option, none, some, List, [], ◌∷◌,
  get_elem?, arith, if◌then◌else◌, ap,
}
use app_intent_system_orches.Services.Runs.{Step, ToolResult, ResultStatus, update_at}
use app_intent_system_orches.Plans.Session.{Sys}
use app_intent_system_orches.Plans.Progress.{is_open}

abbrev pub plan_of : {World : Type 0} → Sys World → List Step
plan_of sys = sys.run.tool_execution_plan

abbrev pub Mark : Type 0
Mark = String × Option ResultStatus

abbrev status_of : Option ToolResult → Option ResultStatus
status_of none = none
status_of (some result) = some result.status

abbrev pub mark : Step → Mark
mark step = (step.status, status_of step.result)

abbrev pub mark_of : Option Step → Option Mark
mark_of none = none
mark_of (some step) = some (mark step)

abbrev pub mark_at : ℕ → List Step → Option Mark
mark_at j plan = mark_of (get_elem? plan j)

-- A step whose tool succeeded.
abbrev pub done : Mark
done = ("completed", some ResultStatus.success)

-- The step after its turn went well: one that was open is done, any other is as it was.
abbrev pub finish : Option Mark → Option Mark
finish none = none
finish (some (status, result)) = if is_open status then some done else some (status, result)

-- A step that is there and still to be done.
abbrev pub opens : Option Mark → Bool
opens none = false
opens (some (status, result)) = is_open status

pub finish_closed : (m : Option Mark) → opens m ≡ false → finish m ≡ m
finish_closed none h = refl
finish_closed (some (status, result)) h = rw h refl

pub finish_open : (m : Option Mark) → opens m ≡ true → finish m ≡ some done
finish_open none h = absurd (ground arith)
finish_open (some (status, result)) h = rw h refl

get_elem?-update_at_ne :
    (i j : ℕ) (f : Step → Step) (plan : List Step)
    → i ≢ j
    → get_elem? (update_at i f plan) j ≡ get_elem? plan j
get_elem?-update_at_ne i j f [] ne = refl
get_elem?-update_at_ne zero zero f (s ∷ plan) ne = absurd (ne refl)
get_elem?-update_at_ne zero (suc j) f (s ∷ plan) ne = refl
get_elem?-update_at_ne (suc i) zero f (s ∷ plan) ne = refl
get_elem?-update_at_ne (suc i) (suc j) f (s ∷ plan) ne =
    get_elem?-update_at_ne i j f plan (λ e. ne (ap suc e))

pub mark_at-update_at_ne :
    (i j : ℕ) (f : Step → Step) (plan : List Step)
    → i ≢ j
    → mark_at j (update_at i f plan) ≡ mark_at j plan
mark_at-update_at_ne i j f plan ne = ap mark_of (get_elem?-update_at_ne i j f plan ne)

-- A change that keeps every mark.
pub mark_at-update_at :
    (i j : ℕ) (f : Step → Step) (plan : List Step)
    → ((step : Step) → mark (f step) ≡ mark step)
    → mark_at j (update_at i f plan) ≡ mark_at j plan
mark_at-update_at i j f [] keeps = refl
mark_at-update_at zero zero f (s ∷ plan) keeps = ap some (keeps s)
mark_at-update_at zero (suc j) f (s ∷ plan) keeps = refl
mark_at-update_at (suc i) zero f (s ∷ plan) keeps = refl
mark_at-update_at (suc i) (suc j) f (s ∷ plan) keeps = mark_at-update_at i j f plan keeps

-- A change that gives a mark, at a place that is there.
pub mark_at-update_at_self :
    (i : ℕ) (f : Step → Step) (plan : List Step) (m : Mark)
    → mark_at i plan ≢ none
    → ((step : Step) → mark (f step) ≡ m)
    → mark_at i (update_at i f plan) ≡ some m
mark_at-update_at_self i f [] m there gives = absurd (there refl)
mark_at-update_at_self zero f (s ∷ plan) m there gives = ap some (gives s)
mark_at-update_at_self (suc i) f (s ∷ plan) m there gives =
    mark_at-update_at_self i f plan m there gives

pub mark_at-update_at_some :
    (i : ℕ) (f : Step → Step) (plan : List Step)
    → mark_at i plan ≢ none
    → mark_at i (update_at i f plan) ≢ none
mark_at-update_at_some i f [] there e = there e
mark_at-update_at_some zero f (s ∷ plan) there e = absurd (ground arith)
mark_at-update_at_some (suc i) f (s ∷ plan) there e = mark_at-update_at_some i f plan there e

pub mark_at-none :
    (i j : ℕ) (plan : List Step) → i ≤ j → get_elem? plan i ≡ none → mark_at j plan ≡ none
mark_at-none i j [] le h = refl
mark_at-none zero j (s ∷ plan) le h = absurd (ground arith)
mark_at-none (suc i) zero (s ∷ plan) le h = absurd (omega arith)
mark_at-none (suc i) (suc j) (s ∷ plan) le h = mark_at-none i j plan (omega arith) h
