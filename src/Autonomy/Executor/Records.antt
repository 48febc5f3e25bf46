-- ===== src/Autonomy/Executor/Records.antt =====
-- What `perform` writes down: one result and one entry of the audit for each new action.
use brainless_agent.Common.{
  ℕ, String, Bool, false, Option, none, some, ◌≡◌, refl, sym, ◌∙◌, subst, ap, [], ◌∷◌, ◌++◌, Result,
  ok, raise, pure, throw, reads, modify_state, eq_refl, ok-injective, ok≢raise,
}
use brainless_agent.Common.Dict.{get, put, get-put}
use brainless_agent.Common.Cases.{bind_cases}
use brainless_agent.Autonomy.Actions.{ComputerAction, ActionResult, code_value}
use brainless_agent.Autonomy.Gates.{ActionContract}
use brainless_agent.Autonomy.Executor.{
  AuditRecord, Runtime, Environment, on_manager, on_governor, write_journal, Verdict, audit_record,
  redact_all, finish, perform_new, perform, conclude, after_gates, failed_or_raise, failure_of,
  known_or_new, is_verified, not_observed, not_observed_code, Ran, refused, passed,
}
use brainless_agent.Autonomy.Executor.Logs.{Logs, attempt-Keeps, run_locked-Keeps, gates-Keeps}

-- What a call that returned `result` wrote to the results and to the audit.
pub record Recorded {W V : Type 0} (action : ComputerAction V) (r : Runtime W V)
    (result : ActionResult V) (r' : Runtime W V) : Type 0 where
  pub same_action : result.action_id ≡ action.action_id
  pub stored : r'.completed ≡ put action.action_id result r.completed
  pub entry : AuditRecord V
  pub written : r'.audit ≡ r.audit ++ entry ∷ []
  pub about : entry.action_id ≡ action.action_id
  pub same_error : entry.error ≡ result.error

abbrev pub Ends :
    {W V : Type 0} → ComputerAction V → Runtime W V → Result (ActionResult V) × Runtime W V → Type 0
Ends action r (ok result, r') = Recorded action r result r'
Ends action r (raise e, r') = Unit

module _ {W V : Type 0} (env : Environment W V) (action : ComputerAction V) where
  finish-Ends :
      (success : Bool) (error : Option String) (started : ℕ) (code : Option String)
      (output : Option V) (verified : Bool) (policy approval : String) (r0 r : Runtime W V)
      → Logs r0.completed r0.audit r
      → Ends action r0
          (finish env action success error started code output verified policy approval r)
  unfolding finish pure modify_state reads on_governor on_manager write_journal
  finish-Ends success error started code output verified policy approval r0 r h =
      bind_cases (Ends action r0) _ _ _
        (λ result e.
          bind_cases (Ends action r0) _ _ _
            (λ u _.
              bind_cases (Ends action r0) _ _ _
                (λ v _.
                  bind_cases (Ends action r0) _ _ _
                    (λ agent _.
                      bind_cases (Ends action r0) _ _ _
                        (λ w _.
                          bind_cases (Ends action r0) _ _ _
                            (λ x _.
                              let same : result.action_id ≡ action.action_id =
                                sym (ap action_of e) in
                              let item : AuditRecord V =
                                audit_record env action agent result.output result policy approval
                                  (redact_all env action.arguments) in
                              record {
                                same_action = same;
                                stored =
                                    ap (λ d. put result.action_id result d) h.results
                                    ∙ ap (λ k. put k result r0.completed) same;
                                entry = item;
                                written = ap (λ l. l ++ item ∷ []) h.records;
                                about = refl;
                                same_error = refl;
                              })
                            (λ e x. tt))
                        (λ e x. tt))
                    (λ e x. tt))
                (λ e x. tt))
            (λ e x. tt))
        (λ e x. tt)
    where
      action_of : Result (ActionResult V) → String
      action_of (ok x) = x.action_id
      action_of (raise x) = action.action_id

  conclude-Ends :
      (contract : Option (ActionContract V)) (started : ℕ) (policy approval : String)
      (o : Result (Ran V)) (r0 r : Runtime W V)
      → Logs r0.completed r0.audit r
      → Ends action r0 (conclude env contract action started policy approval o r)
  unfolding conclude throw
  conclude-Ends contract started policy approval (ok ran) r0 r h =
      let verified = is_verified env contract action ran in
      finish-Ends verified (not_observed env verified) started (not_observed_code env verified)
        (some ran.output) verified policy approval r0 r h
  conclude-Ends contract started policy approval (raise e) r0 r h =
      failed-Ends (failure_of env.str e)
    where
      failed-Ends :
          (o : Option (String × String))
          → Ends action r0 (failed_or_raise env e o action started policy approval r)
      failed-Ends none = tt
      failed-Ends (some (code, text)) =
          finish-Ends false (some text) started (some code) none false policy approval r0 r h

  after_gates-Ends :
      (stem : String → String) (started : ℕ) (v : Verdict) (r0 r : Runtime W V)
      → Logs r0.completed r0.audit r
      → Ends action r0 (after_gates env stem action started v r)
  unfolding after_gates
  after_gates-Ends stem started (refused code error policy approval) r0 r h =
      finish-Ends false (some error) started (some (code_value code)) none false policy approval r0
        r h
  after_gates-Ends stem started (passed policy approval) r0 r h =
      let contract = get action.action_type r.contracts in
      bind_cases (Ends action r0) _ _ _
        (λ ran e.
          conclude-Ends contract started policy approval ran r0 _
            ((attempt-Keeps _ (run_locked-Keeps env stem contract action)).from r h))
        (λ e x. tt)

  perform_new-Ends :
      (stem : String → String) (r : Runtime W V) → Ends action r (perform_new env stem action r)
  unfolding perform_new reads modify_state write_journal
  perform_new-Ends stem r =
      bind_cases (Ends action r) _ _ _
        (λ started e.
          bind_cases (Ends action r) _ _ _
            (λ u _.
              bind_cases (Ends action r) _ _ _
                (λ verdict _.
                  after_gates-Ends stem started verdict r _
                    ((gates-Keeps env action).from _ (record { results = refl; records = refl })))
                (λ e x. tt))
            (λ e x. tt))
        (λ e x. tt)

  -- What `perform` leaves of an action that it was not asked for before, if no other call of the
  -- runtime comes in while it waits: where it returns, the result has the identifier of the action
  -- and is kept under it, and the audit has grown by one entry, about the action and with the error
  -- of the result.
  pub perform-records :
      (stem : String → String) (r : Runtime W V)
      → get action.action_id r.completed ≡ none
      → Ends action r (perform env stem action r)
  unfolding perform
  perform-records stem r e =
      subst (λ o. Ends action r (known_or_new env stem action o r)) (sym e)
        (perform_new-Ends stem r)

  -- The result that is kept after the call.
  kept_after :
      (r : Runtime W V) (result : ActionResult V) (o : Result (ActionResult V) × Runtime W V)
      → Ends action r o
      → o.0 ≡ ok result
      → get action.action_id o.1.completed ≡ some result
  kept_after r result (ok x, r') h e =
      let found : get action.action_id (put action.action_id x r.completed) ≡ some x =
        get-put action.action_id action.action_id x r.completed
        ∙ rw (eq_refl action.action_id) refl in
      ap (get action.action_id) h.stored ∙ found ∙ ap some (ok-injective e)
  kept_after r result (raise x, r') h e = absurd (ok≢raise e)

  perform-kept :
      (stem : String → String) (r : Runtime W V) (result : ActionResult V)
      → (perform env stem action r).0 ≡ ok result
      → get action.action_id (perform env stem action r).1.completed ≡ some result
  unfolding perform pure
  perform-kept stem r result e = go (get action.action_id r.completed) refl e
    where
      go :
          (o : Option (ActionResult V))
          → get action.action_id r.completed ≡ o
          → (known_or_new env stem action o r).0 ≡ ok result
          → get action.action_id (known_or_new env stem action o r).1.completed ≡ some result
      go none h k = kept_after r result (perform_new env stem action r) (perform_new-Ends stem r) k
      go (some x) h k = h ∙ ap some (ok-injective k)

  -- An action that was performed is not performed again: once `perform` returned a result for it,
  -- every action with its identifier gets this result, and the runtime stays as it is.
  pub perform-once :
      (stem : String → String) (r : Runtime W V) (result : ActionResult V)
      (again : ComputerAction V)
      → again.action_id ≡ action.action_id
      → (perform env stem action r).0 ≡ ok result
      → perform env stem again (perform env stem action r).1
        ≡ (ok result, (perform env stem action r).1)
  unfolding perform pure
  perform-once stem r result again same e =
      let r' = (perform env stem action r).1 in
      let found : get again.action_id r'.completed ≡ some result =
        ap (λ k. get k r'.completed) same ∙ perform-kept stem r result e in
      ap (λ o. known_or_new env stem again o r') found
