-- ===== src/Runtime/Managers.antt =====
-- app/runtime/action_manager.py, recovery_manager.py and state_manager.py. The log messages are
-- left out. `S` is what the operation and the recovery that are handed in change.
use brainless_agent.Common.{
  ℕ, zero, suc, ◌+◌, String, concat, Bool, true, false, List, [], ◌∷◌, ◌++◌, leb, if◌then◌else◌, ok,
  raise, Error, cancelled, Exec, pure, throw, action_limit_exceeded,
}

pub record ActionManager : Type 0 where
  pub max_actions : ℕ
  pub count : ℕ

-- `str` is the text of a number.
unfoldable pub record_action : (str : ℕ → String) → String → Exec ActionManager Unit
record_action str description manager =
    if leb manager.max_actions manager.count
    then throw
        (action_limit_exceeded (
          concat "Action limit of "
            (concat (str manager.max_actions) (concat " reached before " description))))
        manager
    else pure tt (record manager { count = manager.count + 1 })

-- `except Exception` lets `CancelledError` pass.
abbrev pub is_exception : Error → Bool
is_exception cancelled = false
is_exception e = true

-- The loop of `RecoveryManager.run`, with the number of retries left. An exception of `recover`
-- ends it.
unfoldable pub run_left :
    {S : Type 0} (operation : Exec S String) (recover : Exec S Unit) → ℕ → Exec S String
run_left operation recover zero s = operation s
run_left operation recover (suc left) s = elim (operation s).0 [
  | ok answer ↦ (ok answer, (operation s).1)
  | raise e ↦ elim (is_exception e) [
    | false ↦ (raise e, (operation s).1)
    | true ↦ elim (recover (operation s).1).0 [
      | ok u ↦ run_left operation recover left (recover (operation s).1).1
      | raise x ↦ (raise x, (recover (operation s).1).1)
    ]
  ]
]

-- `RecoveryManager(max_retries).run(operation, recover)`
unfoldable pub run :
    {S : Type 0} (max_retries : ℕ) (operation : Exec S String) (recover : Exec S Unit)
    → Exec S String
unfolding run_left
run max_retries operation recover = run_left operation recover max_retries

pub data RuntimeState : Type 0 where
  idle initializing planning opening_browser verifying_page focusing_input : RuntimeState
  sending_prompt waiting_response extracting_response validating_response storing_result :
      RuntimeState
  completed failed recovering stopped synthesizing switching_provider : RuntimeState
  waiting_user_intervention : RuntimeState

pub record StateManager : Type 0 where
  pub state : RuntimeState
  pub history : List RuntimeState

abbrev pub new_state_manager : StateManager
new_state_manager = record { state = idle; history = idle ∷ [] }

unfoldable pub transition : RuntimeState → StateManager → StateManager
transition state manager = record { state = state; history = manager.history ++ state ∷ [] }
