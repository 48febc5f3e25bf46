-- ===== src/Autonomy/Approvals/Decisions.antt =====
-- A decision is final, and only an approval lets an action through.
use brainless_agent.Common.{
  String, Bool, true, false, Option, none, some, ◌≡◌, refl, sym, ◌∙◌, ap, subst, ◌⊎◌, inl, inr,
  List, [], ◌∷◌, Result, ok, raise, pure, throw, arith, eq_iff, ◌==◌, Option-cases, Bool-cases,
  false≢true, some-injective, none≢some,
}
use brainless_agent.Common.Dict.{get, put, get-put}
use brainless_agent.Agents.Tools.{ToolSpec, ToolRegistry}
use brainless_agent.Agents.Tools
use brainless_agent.Autonomy.Actions.{ComputerAction}
use brainless_agent.Autonomy.Approvals.{
  ApprovalStatus, ApprovalRequest, ApprovalStore, store_put, is_pending, decide, decided, opened,
  open_request, look, end_wait, Other, decides, asks, happens, happen_all, answer_or, wait_decision,
  wait_for, request,
}

-- Every entry stands under its own identifier.
pub record IsKeyed (store : ApprovalStore) : Type 0 where
  pub keyed : (k : String) (r : ApprovalRequest) → get k store ≡ some r → r.approval_id ≡ k

-- The entry of `id` and its decision, which is no longer pending.
pub record Settled (id : String) (r : ApprovalRequest) (store : ApprovalStore) : Type 0 where
  pub keys : IsKeyed store
  pub found : get id store ≡ some r
  pub final : is_pending r.status ≡ false

-- A change of the store: none, or one entry that was not decided before.
Writes : ApprovalStore → ApprovalStore → Type 0
Writes store after =
    (after ≡ store)
    ⊎ ((e : ApprovalRequest) × ((q : ApprovalRequest)
          → get e.approval_id store ≡ some q
          → is_pending q.status ≡ true)
        × (after ≡ put e.approval_id e store))

put-Settled :
    (id : String) (r e : ApprovalRequest) (store : ApprovalStore)
    → ((q : ApprovalRequest) → get e.approval_id store ≡ some q → is_pending q.status ≡ true)
    → Settled id r store
    → Settled id r (put e.approval_id e store)
put-Settled id r e store open_ h = record {
  keys = record {
    keyed = λ k q found. elim (Bool-cases (e.approval_id == k)) [
      | inl same ↦
          let here : get k (put e.approval_id e store) ≡ some e =
            get-put e.approval_id k e store ∙ rw same refl in
          ap (λ (x : ApprovalRequest). x.approval_id) (some-injective (sym found ∙ here))
          ∙ (eq_iff e.approval_id k).0 same
      | inr other ↦ h.keys.keyed k q (sym (get-put e.approval_id k e store ∙ rw other refl) ∙ found)
    ];
  };
  found = elim (Bool-cases (e.approval_id == id)) [
    | inl same ↦ absurd (
        true≢false (
          sym (
            open_ r
              (subst (λ k. get k store ≡ some r) (sym ((eq_iff e.approval_id id).0 same)) h.found))
          ∙ h.final))
    | inr other ↦ get-put e.approval_id id e store ∙ rw other h.found
  ];
  final = h.final;
}
  where
    true≢false : true ≡ false → ⊥
    true≢false x = cc

Writes-Settled :
    (id : String) (r : ApprovalRequest) (store after : ApprovalStore)
    → Writes store after
    → Settled id r store
    → Settled id r after
unfolding Writes
Writes-Settled id r store after (inl same) h = subst (Settled id r) (sym same) h
Writes-Settled id r store after (inr (e, open_, new)) h =
    subst (Settled id r) (sym new) (put-Settled id r e store open_ h)

decide-Writes :
    (now k : String) (status : ApprovalStatus) (actor : String) (store : ApprovalStore)
    → IsKeyed store
    → Writes store (decide now k status actor store).1
unfolding decide store_put pure throw Writes
decide-Writes now k status actor store keys = elim (Bool-cases (is_pending status)) [
  | inl not_final ↦ inl (rw not_final refl)
  | inr final ↦ elim (Option-cases (get k store)) [
    | inl unknown ↦ inl (rw final (rw unknown refl))
    | inr (q, found) ↦ elim (Bool-cases (is_pending q.status)) [
      | inr done ↦ inl (rw final (rw found (rw done refl)))
      | inl waits ↦ inr (
        decided now actor status q,
        λ x at.
            subst (λ (y : ApprovalRequest). is_pending y.status ≡ true)
              (some-injective
                (sym found ∙ subst (λ j. get j store ≡ some x) (keys.keyed k q found) at))
              waits,
        rw final (rw found (rw waits refl)),
      )
    ]
  ]
]

open_request-Writes :
    {V : Type 0} (now : String) (tool : ToolSpec) (action : ComputerAction V)
    (store : ApprovalStore)
    → Writes store (open_request now tool action store)
unfolding open_request store_put Writes
open_request-Writes now tool action store = elim (Option-cases (get action.action_id store)) [
  | inr (q, found) ↦ inl (ground (arith, found))
  | inl fresh ↦
      inr
        (opened now tool action, λ q at. absurd (none≢some (sym fresh ∙ at)), ground (arith, fresh))
]

happens-Settled :
    {V : Type 0} (id : String) (r : ApprovalRequest) (o : Other V) (store : ApprovalStore)
    → Settled id r store
    → Settled id r (happens o store)
unfolding happens
happens-Settled id r (decides now k status actor) store h =
    Writes-Settled id r store _ (decide-Writes now k status actor store h.keys) h
happens-Settled id r (asks now tool action) store h =
    Writes-Settled id r store _ (open_request-Writes now tool action store) h

-- In a store whose entries stand under their own identifiers a decision is final: whatever is
-- decided or asked afterwards, by anybody and about any action, the entry stays as it was decided.
pub happen_all-Settled :
    {V : Type 0} (id : String) (r : ApprovalRequest) (others : List (Other V))
    (store : ApprovalStore)
    → Settled id r store
    → get id (happen_all others store) ≡ some r
unfolding happen_all
happen_all-Settled id r [] store h = h.found
happen_all-Settled id r (o ∷ os) store h =
    happen_all-Settled id r os (happens o store) (happens-Settled id r o store h)

-- The request of `id` was approved.
pub record Approved (id : String) (store : ApprovalStore) : Type 0 where
  pub entry : ApprovalRequest
  pub found : get id store ≡ some entry
  pub is : entry.status ≡ ApprovalStatus.approved

look-Approved :
    (id : String) (store : ApprovalStore) → look id store ≡ some true → Approved id store
unfolding look
look-Approved id store e = go (get id store) refl e
  where
    by_status :
        (r : ApprovalRequest) (status : ApprovalStatus)
        → get id store ≡ some r
        → r.status ≡ status
        → (elim status [
          | ApprovalStatus.pending ↦ none
          | ApprovalStatus.approved ↦ some true
          | ApprovalStatus.denied ↦ some false
          | ApprovalStatus.expired ↦ some false
        ])
          ≡ some true
        → Approved id store
    by_status r ApprovalStatus.approved h is k = record { entry = r; found = h; is = is }
    by_status r ApprovalStatus.pending h is k = absurd (none≢some k)
    by_status r ApprovalStatus.denied h is k = absurd (false≢true (some-injective k))
    by_status r ApprovalStatus.expired h is k = absurd (false≢true (some-injective k))

    go :
        (o : Option ApprovalRequest)
        → get id store ≡ o
        → (elim o [
          | none ↦ none
          | some request ↦ elim request.status [
            | ApprovalStatus.pending ↦ none
            | ApprovalStatus.approved ↦ some true
            | ApprovalStatus.denied ↦ some false
            | ApprovalStatus.expired ↦ some false
          ]
        ])
          ≡ some true
        → Approved id store
    go none h k = absurd (none≢some k)
    go (some r) h k = by_status r r.status h refl k

end_wait-true : (r : Result ApprovalRequest) → end_wait r ≡ ok true → ⊥
end_wait-true (ok q) e = cc
end_wait-true (raise x) e = cc

module _ {V : Type 0} where
  wait_decision-Approved :
      (late id : String) (rounds : List (List (Other V))) (store : ApprovalStore)
      → (wait_decision late id rounds store).0 ≡ ok true
      → Approved id (wait_decision late id rounds store).1
  unfolding wait_decision
  wait_decision-Approved late id [] store e = absurd (end_wait-true _ e)
  wait_decision-Approved late id (round ∷ rounds) store e =
      step (look id store) refl (wait_decision-Approved late id rounds (happen_all round store)) e
    where
      rest : Result Bool × ApprovalStore
      rest = wait_decision late id rounds (happen_all round store)

      step :
          (o : Option Bool)
          → look id store ≡ o
          → (rest.0 ≡ ok true → Approved id rest.1)
          → (answer_or o store rest).0 ≡ ok true
          → Approved id (answer_or o store rest).1
      step none h later k = later k
      step (some true) h later k = look-Approved id store h
      step (some false) h later k = absurd (not_ok k)
        where
          not_ok : ok false ≡ ok true → ⊥
          not_ok x = cc

  -- `request` lets an action through only if the entry of this action in the store is approved,
  -- whatever others do with the store while it waits.
  pub request-Approved :
      (now late : String) (tools : ToolRegistry) (action : ComputerAction V)
      (rounds : List (List (Other V))) (store : ApprovalStore)
      → (request now late tools action rounds store).0 ≡ ok true
      → Approved action.action_id (request now late tools action rounds store).1
  unfolding request
  request-Approved now late tools action rounds store e =
      go (Tools.lookup action.action_type tools) e
    where
      go :
          (r : Result ToolSpec)
          → (wait_for now late action rounds r store).0 ≡ ok true
          → Approved action.action_id (wait_for now late action rounds r store).1
      go (ok tool) k =
          wait_decision-Approved late action.action_id rounds (open_request now tool action store) k
      go (raise x) k = absurd (not_ok k)
        where
          not_ok : raise x ≡ ok true → ⊥
          not_ok h = cc
