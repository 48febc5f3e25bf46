-- ===== src/Autonomy/ApprovalSamples.antt =====
-- A click that waits for a person, and the theorems on approvals and gates at it.
use brainless_agent.Common.{
  String, Bool, true, false, Option, none, some, ◌≡◌, ◌≢◌, ◌↔◌, refl, List, [], ◌∷◌, ok, pure, ◌==◌,
  if◌then◌else◌, arith, eq_iff, Bool-cases, inl, inr,
}
use brainless_agent.Common.Dict.{get, put}
use brainless_agent.Agents.Tools.{ToolRegistry}
use brainless_agent.Agents.Tools
use brainless_agent.Autonomy.Gates.{Idempotency, ActionContract, RecoveryStrategy, choose, code_of}
use brainless_agent.Autonomy.Gates.Retries.{is_refusal, choose-authority}
use brainless_agent.Autonomy.Approvals.{
  ApprovalStatus, ApprovalRequest, ApprovalStore, Other, decides, happens, happen_all, opened,
  store_put, open_request, decide, look, wait_decision, request,
}
use brainless_agent.Autonomy.Approvals.Decisions.{
  Settled, Approved, happen_all-Settled, request-Approved,
}
use brainless_agent.Autonomy.Samples.{click, click_action}

abbrev late : Option String
late = some "ACTION_FAILED: late: again"

code_before_colon : code_of late ≡ "ACTION_FAILED"
unfolding code_of
code_before_colon = refl

choose-authority_example :
    (choose late Idempotency.not_safe_to_retry 0 3 ≡ RecoveryStrategy.retry
      → (is_refusal (code_of late) ≡ false)
        × (Idempotency.not_safe_to_retry ≢ Idempotency.not_safe_to_retry))
    × ((choose late Idempotency.not_safe_to_retry 0 3 ≡ RecoveryStrategy.human_approval)
        ↔ (is_refusal (code_of late) ≡ true))
choose-authority_example = choose-authority late Idempotency.not_safe_to_retry 0 3

abbrev same_text : Option String → String → Bool
same_text none expected = false
same_text (some actual) expected = actual == expected

abbrev on_page : String → Option String
on_page field = if field == "browser_title" then some "Shop" else none

abbrev at_shop : ActionContract String
at_shop = record {
  action_id = "click";
  tool = "mouse.click";
  required_permissions = "mouse.click" ∷ [];
  preconditions = ("browser_title", "Shop") ∷ [];
  expected_effects = [];
  timeout_seconds = none;
  max_attempts = 1;
  idempotency = Idempotency.not_safe_to_retry;
  risk = "low";
  rollback_tool = none;
}

abbrev denial : ApprovalRequest
denial = record (opened "noon" click click_action) {
  status = ApprovalStatus.denied;
  decided_at = some "later";
  decided_by = some "user";
}

abbrev store : ApprovalStore
store = ("a1", denial) ∷ []

denial-Settled : Settled "a1" denial store
unfolding get
denial-Settled = record {
  keys = record {
    keyed = λ k r e. elim (Bool-cases ("a1" == k)) [
      | inl same ↦ ground (arith, same, e, eq_iff "a1" k)
      | inr other ↦ ground (arith, other, e)
    ];
  };
  found = refl;
  final = refl;
}

happen_all-Settled_example :
    get "a1"
      (happen_all {V = String} (decides "evening" "a1" ApprovalStatus.approved "user" ∷ []) store)
    ≡ some denial
happen_all-Settled_example =
    happen_all-Settled {V = String} "a1" denial
      (decides "evening" "a1" ApprovalStatus.approved "user" ∷ []) store denial-Settled

abbrev tools : ToolRegistry
tools = ("mouse.click", click) ∷ []

abbrev rounds : List (List (Other String))
rounds = (decides "later" "a1" ApprovalStatus.approved "user" ∷ []) ∷ [] ∷ []

agreed : (request "noon" "night" tools click_action rounds []).0 ≡ ok true
unfolding request wait_decision open_request decide look happen_all happens store_put get put
    Tools.lookup pure
agreed = refl

request-Approved_example : Approved "a1" (request "noon" "night" tools click_action rounds []).1
request-Approved_example = request-Approved "noon" "night" tools click_action rounds [] agreed
