-- ===== src/EventSystem/Actions.antt =====
-- app/event_system/actions.py: the registry of actions with its guards, retries and circuit
-- breaker. `V` is the type of values. An executor is handed in as a function of a place
-- `ActionRegistry × W`, the registry and the world: it stands for one attempt and the pause after
-- it, with the calls that other tasks make of the registry meanwhile. Durations are left out of
-- the results.
pub mod Guards
use brainless_agent.Common.{
  ℕ, zero, suc, ◌+◌, String, Bool, true, false, not, ◌&&◌, ◌||◌, Option, none, some, List, [], ◌∷◌,
  leb, if◌then◌else◌, Exec, pure, throw, value_error, concat, contains, add, subset, keep,
}
use brainless_agent.Common.Dict.{Dict, get, put, pop, has, keys, values}

pub data RiskLevel : Type 0 where
  low medium high critical : RiskLevel

pub record ActionSpec : Type 0 where
  pub action_name : String
  pub description : String
  pub category : String
  pub required_permissions : List String
  pub risk_level : RiskLevel
  pub input_schema : List String
  pub output_schema : String
  pub timeout : ℕ
  pub retries : ℕ

pub data ActionStatus : Type 0 where
  success failed denied timeout cancelled not_found not_supported : ActionStatus

pub record ActionResult (V : Type 0) : Type 0 where
  pub status : ActionStatus
  pub message : String
  pub value : Option V
  pub error : Option String

pub record ActionRegistry : Type 0 where
  pub actions : Dict ActionSpec
  pub dry_run : Bool
  pub stopped : Bool
  pub failures : Dict ℕ
  pub circuits : List String

abbrev pub new_registry : Bool → ActionRegistry
new_registry dry_run = record {
  actions = [];
  dry_run = dry_run;
  stopped = false;
  failures = [];
  circuits = [];
}

unfoldable pub register : ActionSpec → Exec ActionRegistry Unit
register spec r =
    if has spec.action_name r.actions
    then throw (value_error "Action already registered") r
    else pure tt (record r { actions = put spec.action_name spec r.actions })

unfoldable pub available : List String → ActionRegistry → List ActionSpec
available permissions r = keep (λ x. subset x.required_permissions permissions) (values r.actions)

-- The tasks that `emergency_stop` cancels are attempts that end as cancelled.
unfoldable pub emergency_stop : ActionRegistry → ActionRegistry
emergency_stop r = record r { stopped = true }

unfoldable pub resume : ActionRegistry → ActionRegistry
resume r = record r { stopped = false; circuits = []; failures = [] }

abbrev pub count_of : Option ℕ → ℕ
count_of none = 0
count_of (some n) = n

-- `_record_failure`
unfoldable pub record_failure : String → ActionRegistry → ActionRegistry
record_failure name r =
    let n = count_of (get name r.failures) + 1 in
    record r {
      failures = put name n r.failures;
      circuits = if leb 3 n then add name r.circuits else r.circuits;
    }

-- How one attempt ends; an exception by the name of its class.
pub data Attempt (V : Type 0) : Type 0 where
  returned : V → Attempt V
  was_cancelled : Attempt V
  timed_out : Attempt V
  raised : String → Attempt V

abbrev pub answer : {V : Type 0} → ActionStatus → String → ActionResult V
answer status message = record { status = status; message = message; value = none; error = none }

abbrev pub is_risky : RiskLevel → Bool
is_risky RiskLevel.low = false
is_risky risk = true

abbrev pub is_grave : RiskLevel → Bool
is_grave RiskLevel.high = true
is_grave RiskLevel.critical = true
is_grave risk = false

-- `set(arguments) != set(schema)` is false
abbrev pub same_keys : List String → List String → Bool
same_keys xs ys = subset xs ys && subset ys xs

-- The refusals of `execute` for a registered action, in their order; `none` lets it through.
unfoldable pub refusal :
    {V : Type 0} (confirm : ActionSpec → Bool) (spec : ActionSpec) (name : String)
    (arguments : Dict V) (permissions : List String) (r : ActionRegistry)
    → Option (ActionResult V)
refusal confirm spec name arguments permissions r =
    if r.stopped
    then some (answer ActionStatus.cancelled "Emergency stop is active")
    else if contains name r.circuits
    then some (answer ActionStatus.not_supported "Action circuit breaker is open")
    else if not (subset spec.required_permissions permissions)
    then some (answer ActionStatus.denied "Required permission is missing")
    else if not (same_keys (keys arguments) spec.input_schema)
    then some (answer ActionStatus.failed "Action arguments do not match schema")
    else if r.dry_run && is_risky spec.risk_level
    then some (answer ActionStatus.denied "Blocked by dry-run mode")
    else if is_grave spec.risk_level && not (confirm spec)
    then some (answer ActionStatus.denied "User confirmation was not granted")
    else none

abbrev pub Place : Type 0 → Type 0
Place W = ActionRegistry × W

module _ {W V : Type 0} where
  -- What the loop returns after the last attempt, or after one that is not tried again.
  unfoldable pub finish : String → Attempt V → Place W → ActionResult V × Place W
  unfolding record_failure
  finish name (returned v) (r, w) = (
    record {
      status = ActionStatus.success;
      message = "Action completed";
      value = some v;
      error = none;
    },
    (record r { failures = pop name r.failures }, w),
  )
  finish name was_cancelled place = (answer ActionStatus.cancelled "Action was cancelled", place)
  finish name timed_out (r, w) =
      (answer ActionStatus.timeout "Action timed out", (record_failure name r, w))
  finish name (raised e) (r, w) = (
    record {
      status = ActionStatus.failed;
      message = "Action failed";
      value = none;
      error = some e;
    },
    (record_failure name r, w),
  )

  -- The loop over the attempts, with the number of retries left.
  unfoldable pub attempts :
      (Place W → Attempt V × Place W) → String → ℕ → Place W → ActionResult V × Place W
  unfolding finish
  attempts executor name zero place = finish name (executor place).0 (executor place).1
  attempts executor name (suc left) place = elim (executor place).0 [
    | returned v ↦ finish name (returned v) (executor place).1
    | was_cancelled ↦ finish name was_cancelled (executor place).1
    | timed_out ↦ finish name timed_out (executor place).1
    | raised e ↦ attempts executor name left (executor place).1
  ]

  unfoldable pub execute :
      (confirm : ActionSpec → Bool) (executor : ActionSpec → Dict V → Place W → Attempt V × Place W)
      (name : String) (arguments : Dict V) (permissions : List String)
      → Place W
      → ActionResult V × Place W
  unfolding refusal attempts
  execute confirm executor name arguments permissions (r, w) = elim (get name r.actions) [
    | none ↦ (answer ActionStatus.not_found "Action is not registered", (r, w))
    | some spec ↦ elim (refusal confirm spec name arguments permissions r) [
      | some refused ↦ (refused, (r, w))
      | none ↦ attempts (executor spec arguments) name spec.retries (r, w)
    ]
  ]
