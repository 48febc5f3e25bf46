-- ===== src/Autonomy/Approvals.antt =====
-- app/autonomy/approvals.py: the decisions of people on suspended actions. The file of the store is
-- the dictionary that it holds; times are texts, as the code stores them.
pub mod Decisions
use brainless_agent.Common.{
  ℕ, String, concat, Bool, true, false, ◌&&◌, Option, none, some, List, [], ◌∷◌, if◌then◌else◌,
  Result, ok, raise, Exec, pure, throw, value_error, key_error,
}
use brainless_agent.Common.Dict.{Dict, get, put, values}
use brainless_agent.Agents.Tools.{RiskLevel, ToolSpec, ToolRegistry}
use brainless_agent.Agents.Tools
use brainless_agent.Autonomy.Actions.{ComputerAction}

pub data ApprovalStatus : Type 0 where
  pending approved denied expired : ApprovalStatus

pub record ApprovalRequest : Type 0 where
  pub approval_id : String
  pub mission_id : String
  pub task_id : String
  pub agent_id : String
  pub tool : String
  pub reason : String
  pub risk_level : RiskLevel
  pub permission : String
  pub status : ApprovalStatus
  pub requested_at : String
  pub decided_at : Option String
  pub decided_by : Option String

abbrev pub ApprovalStore : Type 0
ApprovalStore = Dict ApprovalRequest

-- `ApprovalStore.put` and `get`
unfoldable pub store_put : ApprovalRequest → ApprovalStore → ApprovalStore
store_put request store = put request.approval_id request store

abbrev pub is_pending : ApprovalStatus → Bool
is_pending ApprovalStatus.pending = true
is_pending status = false

abbrev pub decided : (now actor : String) → ApprovalStatus → ApprovalRequest → ApprovalRequest
decided now actor status request = record request {
  status = status;
  decided_at = some now;
  decided_by = some actor;
}

unfoldable pub decide :
    (now approval_id : String) (status : ApprovalStatus) (actor : String)
    → Exec ApprovalStore ApprovalRequest
unfolding store_put
decide now approval_id status actor store =
    if is_pending status
    then throw (value_error "Approval decision must be final") store
    else elim (get approval_id store) [
      | none ↦ throw (key_error (concat "Unknown approval: " approval_id)) store
      | some request ↦
          if is_pending request.status
          then pure (decided now actor status request)
              (store_put (decided now actor status request) store)
          else throw (value_error "Approval was already decided") store
    ]

-- The entry that `request` makes for an action.
abbrev pub opened :
    {V : Type 0} (now : String) (tool : ToolSpec) (action : ComputerAction V) → ApprovalRequest
opened now tool action = record {
  approval_id = action.action_id;
  mission_id = "";
  task_id = action.task_id;
  agent_id = action.agent_id;
  tool = action.action_type;
  reason = action.reason;
  risk_level = tool.risk;
  permission = action.permission;
  status = ApprovalStatus.pending;
  requested_at = now;
  decided_at = none;
  decided_by = none;
}

unfoldable pub open_request :
    {V : Type 0} (now : String) (tool : ToolSpec) (action : ComputerAction V)
    → ApprovalStore
    → ApprovalStore
unfolding store_put
open_request now tool action store = elim (get action.action_id store) [
  | some existing ↦ store
  | none ↦ store_put (opened now tool action) store
]

-- One look of the loop in `request`: `none` goes on waiting.
unfoldable pub look : String → ApprovalStore → Option Bool
look approval_id store = elim (get approval_id store) [
  | none ↦ none
  | some request ↦ elim request.status [
    | pending ↦ none
    | approved ↦ some true
    | denied ↦ some false
    | expired ↦ some false
  ]
]

abbrev pub end_wait : Result ApprovalRequest → Result Bool
end_wait (raise e) = raise e
end_wait (ok request) = ok false

-- What other tasks and the dashboard do with the store between two looks.
pub data Other (V : Type 0) : Type 0 where
  decides : (now approval_id : String) → ApprovalStatus → String → Other V
  asks : (now : String) → ToolSpec → ComputerAction V → Other V

unfoldable pub happens : {V : Type 0} → Other V → ApprovalStore → ApprovalStore
unfolding decide open_request
happens (decides now approval_id status actor) store = (decide now approval_id status actor store).1
happens (asks now tool action) store = open_request now tool action store

unfoldable pub happen_all : {V : Type 0} → List (Other V) → ApprovalStore → ApprovalStore
unfolding happens
happen_all [] store = store
happen_all (o ∷ os) store = happen_all os (happens o store)

abbrev pub answer_or :
    Option Bool → ApprovalStore → Result Bool × ApprovalStore → Result Bool × ApprovalStore
answer_or (some answer) store rest = (ok answer, store)
answer_or none store rest = rest

-- The loop of `request`: one look and one sleep for each round before the deadline, then the
-- request expires at `late`.
unfoldable pub wait_decision :
    {V : Type 0} → String → String → List (List (Other V)) → Exec ApprovalStore Bool
unfolding decide look happen_all
wait_decision late approval_id [] store =
    let (result, store') = decide late approval_id ApprovalStatus.expired "runtime" store in
    (end_wait result, store')
wait_decision late approval_id (round ∷ rounds) store =
    answer_or (look approval_id store) store
      (wait_decision late approval_id rounds (happen_all round store))

abbrev pub wait_for :
    {V : Type 0} (now late : String) (action : ComputerAction V) (rounds : List (List (Other V)))
    → Result ToolSpec
    → Exec ApprovalStore Bool
wait_for now late action rounds (raise e) store = (raise e, store)
wait_for now late action rounds (ok tool) store =
    wait_decision late action.action_id rounds (open_request now tool action store)

unfoldable pub request :
    {V : Type 0} (now late : String) (tools : ToolRegistry) (action : ComputerAction V)
    (rounds : List (List (Other V)))
    → Exec ApprovalStore Bool
unfolding open_request wait_decision
request now late tools action rounds store =
    wait_for now late action rounds (Tools.lookup action.action_type tools) store
