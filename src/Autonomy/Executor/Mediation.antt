-- ===== src/Autonomy/Executor/Mediation.antt =====
-- An action succeeds only if every gate let it through.
use brainless_agent.Common.{
  Error, approval_needed, inl, inr, ok-injective, String, Bool, true, false, Option, none, some,
  ◌≡◌, refl, sym, ◌∙◌, subst, eq_iff, contains, arith, Result, ok, raise, pure, throw, ◌>>=◌,
  if◌then◌else◌, permission_denied, value_error, proposal_rejected, some-injective, none≢some,
}
use brainless_agent.Common.Dict.{get}
use brainless_agent.Common.Cases.{bind_cases}
use brainless_agent.Safety.Permissions.{ApprovalMode, PermissionPolicy, mode_of, is_approved}
use brainless_agent.Safety.Permissions
use brainless_agent.Agents.Manager.{Manager}
use brainless_agent.Autonomy.Actions.{ComputerAction, ErrorCode}
use brainless_agent.Autonomy.Gates.{ActionContract}
use brainless_agent.Autonomy.Executor.{
  Runtime, Environment, attempt, Verdict, refused, passed, plain, gate_contract, with_contract,
  after_contract, try_contract, gate_policy, after_policy, ask, approve_policy, ask_handler,
  breaks_contract,
}
use brainless_agent.Autonomy.Executor.Consent.{
  Later, Holding, Consented, Agreed, ask_handler-SaidYes, try_contract-Same, try_contract-Holding,
}

-- What the outcome of gates says of `G`: it holds where they let the action pass.
abbrev pub Passing : {W V : Type 0} → Type 0 → Result Verdict × Runtime W V → Type 0
Passing G (ok (passed policy approval), r) = G
Passing G (ok (refused code error policy approval), r) = Unit
Passing G (raise e, r) = Unit

pub any-Passing : {W V : Type 0} (G : Type 0) → G → (o : Result Verdict × Runtime W V) → Passing G o
any-Passing G g (ok (passed policy approval), r) = g
any-Passing G g (ok (refused code error policy approval), r) = tt
any-Passing G g (raise e, r) = tt

pub Passing-map :
    {W V : Type 0} (F G : Type 0)
    → (F → G)
    → (o : Result Verdict × Runtime W V) → Passing F o
    → Passing G o
Passing-map F G f (ok (passed policy approval), r) h = f h
Passing-map F G f (ok (refused code error policy approval), r) h = tt
Passing-map F G f (raise e, r) h = tt

check-deny :
    (a p : String) (policy : PermissionPolicy)
    → mode_of policy p ≡ ApprovalMode.deny
    → Permissions.check a p policy
      ≡ (raise (permission_denied a p "Global policy denies this permission"), policy)
unfolding Permissions.check throw
check-deny a p policy e = ground (arith, e)

check-asks :
    (a p : String) (policy : PermissionPolicy)
    → mode_of policy p ≡ ApprovalMode.require_approval
    → is_approved a p policy.approved ≡ false
    → Permissions.check a p policy
      ≡ (raise (approval_needed a p "Human approval is required"), policy)
unfolding Permissions.check throw
check-asks a p policy e f = ground (arith, e, f)

breaks-false :
    {W V : Type 0} (env : Environment W V) (action : ComputerAction V) (c : ActionContract V)
    → breaks_contract env action c ≡ false
    → (c.tool ≡ action.action_type) × (contains action.permission c.required_permissions ≡ true)
breaks-false env action c e = ground (arith, e, eq_iff c.tool action.action_type)

module _ {W V : Type 0} (env : Environment W V) (action : ComputerAction V) (w : W) where
  policy-Passing :
      (policy approval : String) (r : Runtime W V)
      → Later env action w r.outside
      → Passing (Consented env action w r.manager.policy) (gate_policy env action policy approval r)
  unfolding gate_policy Permissions.check after_policy ask approve_policy pure throw
  policy-Passing policy approval r l = go (mode_of r.manager.policy action.permission) refl
    where
      G : Type 0
      G = Consented env action w r.manager.policy

      after :
          {o o' : Result (Unit {0}) × PermissionPolicy}
          → o ≡ o'
          → Passing G (
              after_policy env action policy approval o'.0
                (record r { manager = record r.manager { policy = o'.1 } }))
          → Passing G (
              after_policy env action policy approval o.0
                (record r { manager = record r.manager { policy = o.1 } }))
      after e =
          subst
            (λ (o : Result (Unit {0}) × PermissionPolicy). Passing G (
              after_policy env action policy approval o.0
                (record r { manager = record r.manager { policy = o.1 } })))
            (sym e)

      answered :
          mode_of r.manager.policy action.permission ≡ ApprovalMode.require_approval
          → (e : Error) (o : Option Bool) (s : Runtime W V)
          → (ask_handler env action env.approval_handler r).0 ≡ ok o
          → Passing G (approve_policy env action e o s)
      answered asks e none s x = tt
      answered asks e (some false) s x = tt
      answered asks e (some true) s x =
          inr (asks, inr (ask_handler-SaidYes env action env.approval_handler r refl l x))

      asking :
          mode_of r.manager.policy action.permission ≡ ApprovalMode.require_approval
          → (b : Bool) → is_approved action.agent_id action.permission r.manager.policy.approved ≡ b
          → Passing G (gate_policy env action policy approval r)
      asking asks true given =
          any-Passing G (inr (asks, inl given)) (gate_policy env action policy approval r)
      asking asks false given =
          after (check-asks action.agent_id action.permission r.manager.policy asks given) (
            bind_cases (Passing G) (ask_handler env action env.approval_handler) _ r
              (λ o x. answered asks _ o _ x) (λ e x. tt))

      go :
          (mode : ApprovalMode)
          → mode_of r.manager.policy action.permission ≡ mode
          → Passing G (gate_policy env action policy approval r)
      go ApprovalMode.auto_approve e =
          any-Passing G (inl e) (gate_policy env action policy approval r)
      go ApprovalMode.require_approval e =
          asking e (is_approved action.agent_id action.permission r.manager.policy.approved) refl
      go ApprovalMode.deny e =
          after (check-deny action.agent_id action.permission r.manager.policy e) tt

  pub contract-Passing :
      (policy approval : String) (r : Runtime W V)
      → Later env action w r.outside
      → Passing
          (Agreed env action w r.manager r.contracts)
          (gate_contract env action policy approval r)
  unfolding gate_contract with_contract after_contract pure throw
  contract-Passing policy approval r l = go (get action.action_type r.contracts) refl
    where
      go :
          (o : Option (ActionContract V))
          → get action.action_type r.contracts ≡ o
          → Passing
              (Agreed env action w r.manager r.contracts)
              (with_contract env action policy approval o r)
      go none e =
          Passing-map _ _
            (λ p. record { contract = λ c found. absurd (none≢some (sym e ∙ found)); policy = p })
            (gate_policy env action policy approval r) (policy-Passing policy approval r l)
      go (some contract) e = checked (breaks_contract env action contract) refl
        where
          fits :
              breaks_contract env action contract ≡ false
              → Holding env action w contract
              → Consented env action w r.manager.policy
              → Agreed env action w r.manager r.contracts
          fits kept holding p = record {
            contract = λ c found.
                subst
                  (λ (x : ActionContract V).
                    (x.tool ≡ action.action_type)
                    × (contains action.permission x.required_permissions ≡ true)
                    × Holding env action w x)
                  (some-injective (sym e ∙ found))
                  (
                    (breaks-false env action contract kept).0,
                    (breaks-false env action contract kept).1,
                    holding,
                  );
            policy = p;
          }

          rest :
              breaks_contract env action contract ≡ false
              → (o : Result (Unit {0})) (s : Runtime W V)
              → (try_contract env action contract r).0 ≡ o
              → s.manager ≡ r.manager
              → Later env action w s.outside
              → Passing
                  (Agreed env action w r.manager r.contracts)
                  (after_contract env action policy approval o s)
          rest kept (ok u) s done same l' =
              Passing-map _ _
                (λ p.
                  fits kept (try_contract-Holding env action contract r l done)
                    (subst (λ (m : Manager). Consented env action w m.policy) same p))
                (gate_policy env action policy approval s) (policy-Passing policy approval s l')
          rest kept (raise (value_error t)) s done same l' = tt
          rest kept (raise (proposal_rejected t)) s done same l' = tt
          rest kept (raise e) s done same l' = tt

          checked :
              (b : Bool)
              → breaks_contract env action contract ≡ b
              → Passing (Agreed env action w r.manager r.contracts) (
                  (if b
                      then pure (
                          plain ErrorCode.invalid_argument
                            "Action violates its registered contract")
                      else attempt (try_contract env action contract)
                        >>= after_contract env action policy approval)
                    r)
          checked true kept = tt
          checked false kept =
              bind_cases (Passing (Agreed env action w r.manager r.contracts)) _ _ r
                (λ o x.
                  let kept_same =
                    (try_contract-Same env action contract).from r
                      (record { managers = refl; same = refl; later = l }) in
                  rest kept o _ (ok-injective (unfold attempt in x)) kept_same.managers
                    kept_same.later)
                (λ x y. tt)
