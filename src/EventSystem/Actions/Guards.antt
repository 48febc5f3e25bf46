-- ===== src/EventSystem/Actions/Guards.antt =====
-- What `execute` lets through to an executor, and the breaker that stops a failing action.
use brainless_agent.Common.{
  ℕ, zero, suc, subst, ◌+◌, ◌≤◌, String, Bool, true, false, not, ◌&&◌, none, some, ◌≡◌, ◌≢◌, sym,
  ◌∙◌, ap, ◌⊎◌, inl, inr, List, arith, contains, contains-add, subset, Option-cases, eq_iff,
  false≢true, pure, throw,
}
use brainless_agent.Common.Dict.{Dict, get, pop, keys, get-put, get-pop}
use brainless_agent.EventSystem.Actions.{
  ActionRegistry, ActionSpec, ActionResult, ActionStatus, Attempt, Place, new_registry, register,
  resume, emergency_stop, record_failure, finish, count_of, attempts, refusal, execute, answer,
  is_risky, is_grave, same_keys,
}

-- Everything that a registered action needs to be tried.
pub record Permitted {V : Type 0} (confirm : ActionSpec → Bool) (spec : ActionSpec) (name : String)
    (arguments : Dict V) (permissions : List String) (r : ActionRegistry) : Type 0 where
  pub found : get name r.actions ≡ some spec
  pub goes_on : r.stopped ≡ false
  pub closed : contains name r.circuits ≡ false
  pub held : subset spec.required_permissions permissions ≡ true
  pub fitting : same_keys (keys arguments) spec.input_schema ≡ true
  pub allowed_dry : (r.dry_run && is_risky spec.risk_level) ≡ false
  pub confirmed : (is_grave spec.risk_level && not (confirm spec)) ≡ false

module _ {W V : Type 0} (confirm : ActionSpec → Bool)
    (executor : ActionSpec → Dict V → Place W → Attempt V × Place W) (name : String)
    (arguments : Dict V) (permissions : List String) (r : ActionRegistry) (w : W) where
  none≢some : {A : Type 0} {a : A} → none ≡ some a → ⊥
  none≢some e = cc

  not_found≢success : ActionStatus.not_found ≡ ActionStatus.success → ⊥
  not_found≢success e = cc

  same_spec : {a b : ActionSpec} → get name r.actions ≡ some a → get name r.actions ≡ some b → b ≡ a
  same_spec e f = cc

  refusal-status :
      (spec : ActionSpec) (refused : ActionResult V)
      → refusal confirm spec name arguments permissions r ≡ some refused
      → refused.status ≢ ActionStatus.success
  unfolding refusal
  refusal-status spec refused e s = ground (arith, e, s)

  refusal-none :
      (spec : ActionSpec)
      → get name r.actions ≡ some spec
      → refusal confirm spec name arguments permissions r ≡ none
      → Permitted confirm spec name arguments permissions r
  unfolding refusal
  refusal-none spec found e = record {
    found = found;
    goes_on = ground (arith, e);
    closed = ground (arith, e);
    held = ground (arith, e);
    fitting = ground (arith, e);
    allowed_dry = ground (arith, e);
    confirmed = ground (arith, e);
  }

  refusal-pass :
      (spec : ActionSpec)
      → Permitted confirm spec name arguments permissions r
      → refusal confirm spec name arguments permissions r ≡ none
  unfolding refusal
  refusal-pass spec p =
      ground (arith, p.goes_on, p.closed, p.held, p.fitting, p.allowed_dry, p.confirmed)

  execute-unknown :
      get name r.actions ≡ none
      → execute confirm executor name arguments permissions (r, w)
        ≡ (answer ActionStatus.not_found "Action is not registered", (r, w))
  unfolding execute
  execute-unknown unknown = ground (arith, unknown)

  execute-passed :
      (spec : ActionSpec)
      → get name r.actions ≡ some spec
      → refusal confirm spec name arguments permissions r ≡ none
      → execute confirm executor name arguments permissions (r, w)
        ≡ attempts (executor spec arguments) name spec.retries (r, w)
  unfolding execute
  execute-passed spec found passed = ground (arith, found, passed)

  execute-refused :
      (spec : ActionSpec) (refused : ActionResult V)
      → get name r.actions ≡ some spec
      → refusal confirm spec name arguments permissions r ≡ some refused
      → execute confirm executor name arguments permissions (r, w) ≡ (refused, (r, w))
  unfolding execute
  execute-refused spec refused found is = ground (arith, found, is)

  untouched :
      {out : ActionResult V × Place W} (refused : ActionResult V)
      → out ≡ (refused, (r, w))
      → refused.status ≢ ActionStatus.success
      → (out.1 ≡ (r, w)) × (out.0.status ≢ ActionStatus.success)
  untouched refused e bad = (ap (λ o. o.1) e, λ s. bad (ap (λ o. o.0.status) (sym e) ∙ s))

  -- `execute` tries an action just when the action is registered, nothing is stopped, its breaker
  -- is closed, the permissions are held, the arguments fit the schema, and a dry run or the user
  -- do not forbid it; every other call leaves the registry and the world as they were, without a
  -- success.
  pub execute-guarded :
      ((spec : ActionSpec) × Permitted confirm spec name arguments permissions r
        × (execute confirm executor name arguments permissions (r, w)
            ≡ attempts (executor spec arguments) name spec.retries (r, w)))
      ⊎ (((spec : ActionSpec) → ¬ (Permitted confirm spec name arguments permissions r))
          × ((execute confirm executor name arguments permissions (r, w)).1 ≡ (r, w))
          × ((execute confirm executor name arguments permissions (r, w)).0.status
              ≢ ActionStatus.success))
  execute-guarded = elim (Option-cases (get name r.actions)) [
    | inl unknown ↦ inr (
      λ spec p. absurd (none≢some (sym unknown ∙ p.found)),
      (untouched _ (execute-unknown unknown) (λ e. not_found≢success e)).0,
      (untouched _ (execute-unknown unknown) (λ e. not_found≢success e)).1,
    )
    | inr (spec, found) ↦ elim (Option-cases (refusal confirm spec name arguments permissions r)) [
      | inl passed ↦ inl (spec, refusal-none spec found passed, execute-passed spec found passed)
      | inr (refused, is) ↦ inr (
        λ other p. none≢some (
            sym (refusal-pass other p)
            ∙ ap (λ s. refusal confirm s name arguments permissions r) (same_spec found p.found)
            ∙ is),
        (untouched refused (execute-refused spec refused found is)
            (refusal-status spec refused is)).0,
        (untouched refused (execute-refused spec refused found is)
            (refusal-status spec refused is)).1,
      )
    ]
  ]

-- The counter and the breaker of an action agree: three failures or more open the breaker.
pub record IsGuarded (r : ActionRegistry) : Type 0 where
  pub opens :
      (k : String) (n : ℕ) → get k r.failures ≡ some n → 3 ≤ n → contains k r.circuits ≡ true

-- What any calls make of a registry. An executor makes calls of its own, and others make theirs
-- while it runs: each attempt is itself such a history.
pub data Calls (W V : Type 0) : ActionRegistry → ActionRegistry → Type 0 where
  here : {r : ActionRegistry} → Calls W V r r
  registers :
      {r s : ActionRegistry} → Calls W V r s → (spec : ActionSpec) → Calls W V r (register spec s).1
  stops : {r s : ActionRegistry} → Calls W V r s → Calls W V r (emergency_stop s)
  resumes : {r s : ActionRegistry} → Calls W V r s → Calls W V r (resume s)
  executes :
      {r s : ActionRegistry}
      → Calls W V r s
      → (confirm : ActionSpec → Bool)
        (executor : ActionSpec → Dict V → Place W → Attempt V × Place W) (name : String)
        (arguments : Dict V) (permissions : List String) (w : W)
      → ((spec : ActionSpec) (p : Place W) → Calls W V p.0 (executor spec arguments p).1.0)
      → Calls W V r (execute confirm executor name arguments permissions (s, w)).1.0

register-same :
    (spec : ActionSpec) (r : ActionRegistry)
    → ((register spec r).1.failures ≡ r.failures) × ((register spec r).1.circuits ≡ r.circuits)
unfolding register pure throw
register-same spec r = (ground arith, ground arith)

no_count : {n : ℕ} → none ≡ some n → ⊥
no_count e = cc

failure-IsGuarded :
    (name : String) (r : ActionRegistry) → IsGuarded r → IsGuarded (record_failure name r)
unfolding record_failure
failure-IsGuarded name r h = record {
  opens = λ k n e m. ground (
    arith,
    e,
    m,
    h.opens k n,
    eq_iff name k,
    eq_iff k name,
    contains-add name k r.circuits,
    get-put name k (count_of (get name r.failures) + 1) r.failures,
  );
}

success-IsGuarded :
    (name : String) (r : ActionRegistry)
    → IsGuarded r
    → IsGuarded (record r { failures = pop name r.failures })
success-IsGuarded name r h = record {
  opens = λ k n e m. ground (arith, e, m, h.opens k n, get-pop name k r.failures);
}

module _ {W V : Type 0} (name : String) where
  finish-IsGuarded : (a : Attempt V) (p : Place W) → IsGuarded p.0 → IsGuarded (finish name a p).1.0
  unfolding finish
  finish-IsGuarded (Attempt.returned v) (r, w) h = success-IsGuarded name r h
  finish-IsGuarded Attempt.was_cancelled p h = h
  finish-IsGuarded Attempt.timed_out (r, w) h = failure-IsGuarded name r h
  finish-IsGuarded (Attempt.raised e) (r, w) h = failure-IsGuarded name r h

  -- Attempts that keep the guards, tried again and again.
  attempts-IsGuarded :
      (executor : Place W → Attempt V × Place W)
      → ((p : Place W) → IsGuarded p.0 → IsGuarded (executor p).1.0)
      → (left : ℕ) (p : Place W) → IsGuarded p.0
      → IsGuarded (attempts executor name left p).1.0
  unfolding attempts
  attempts-IsGuarded executor keeps zero p h =
      finish-IsGuarded (executor p).0 (executor p).1 (keeps p h)
  attempts-IsGuarded executor keeps (suc left) p h =
      again (executor p).0 (attempts-IsGuarded executor keeps left (executor p).1 (keeps p h))
    where
      after : IsGuarded (executor p).1.0
      after = keeps p h

      again :
          (a : Attempt V)
          → IsGuarded (attempts executor name left (executor p).1).1.0
          → IsGuarded
              (elim a as (λ x. ActionResult V × Place W) [
                | Attempt.returned v ↦ finish name (Attempt.returned v) (executor p).1
                | Attempt.was_cancelled ↦ finish name Attempt.was_cancelled (executor p).1
                | Attempt.timed_out ↦ finish name Attempt.timed_out (executor p).1
                | Attempt.raised e ↦ attempts executor name left (executor p).1
              ]).1.0
      again (Attempt.returned v) more = finish-IsGuarded (Attempt.returned v) (executor p).1 after
      again Attempt.was_cancelled more = after
      again Attempt.timed_out more = finish-IsGuarded Attempt.timed_out (executor p).1 after
      again (Attempt.raised e) more = more

execute-IsGuarded :
    {W V : Type 0} (confirm : ActionSpec → Bool)
    (executor : ActionSpec → Dict V → Place W → Attempt V × Place W) (name : String)
    (arguments : Dict V) (permissions : List String) (r : ActionRegistry) (w : W)
    → ((spec : ActionSpec) (p : Place W)
        → IsGuarded p.0
        → IsGuarded (executor spec arguments p).1.0)
    → IsGuarded r
    → IsGuarded (execute confirm executor name arguments permissions (r, w)).1.0
execute-IsGuarded confirm executor name arguments permissions r w keeps h =
    elim (execute-guarded confirm executor name arguments permissions r w) [
      | inl (spec, p, tried) ↦
          subst (λ o. IsGuarded o.1.0) (sym tried)
            (attempts-IsGuarded name (executor spec arguments) (keeps spec) spec.retries (r, w) h)
      | inr (not_permitted, same, no_success) ↦ subst (λ (q : Place _). IsGuarded q.0) (sym same) h
    ]

Calls-IsGuarded : {W V : Type 0} {r s : ActionRegistry} → Calls W V r s → IsGuarded r → IsGuarded s
unfolding emergency_stop resume get
Calls-IsGuarded here h = h
Calls-IsGuarded (registers {s = s} c spec) h =
    let (same_failures, same_circuits) = register-same spec s in
    let before = Calls-IsGuarded c h in
    record {
      opens = λ k n e m.
          ap (contains k) same_circuits ∙ before.opens k n (ap (get k) (sym same_failures) ∙ e) m;
    }
Calls-IsGuarded (stops c) h = record { opens = (Calls-IsGuarded c h).opens }
Calls-IsGuarded (resumes c) h = record { opens = λ k n e m. absurd (no_count e) }
Calls-IsGuarded (executes {s = s} c confirm executor name arguments permissions w own) h =
    execute-IsGuarded confirm executor name arguments permissions s w
      (λ spec p. Calls-IsGuarded (own spec p)) (Calls-IsGuarded c h)

new_registry-IsGuarded : (dry_run : Bool) → IsGuarded (new_registry dry_run)
unfolding get
new_registry-IsGuarded dry_run = record { opens = λ k n e m. absurd (no_count e) }

-- After any history of calls of a new registry, those of `execute` with what happens during its
-- attempts included, an action with three failures or more on its counter is not tried: `execute`
-- leaves the registry and the world as they were and does not report a success.
pub failing-action_rests :
    {W V : Type 0} {dry_run : Bool} {r : ActionRegistry}
    → Calls W V (new_registry dry_run) r
    → (confirm : ActionSpec → Bool) (executor : ActionSpec → Dict V → Place W → Attempt V × Place W)
      (name : String) (arguments : Dict V) (permissions : List String) (w : W) (n : ℕ)
    → get name r.failures ≡ some n
    → 3 ≤ n
    → ((execute confirm executor name arguments permissions (r, w)).1 ≡ (r, w))
      × ((execute confirm executor name arguments permissions (r, w)).0.status
          ≢ ActionStatus.success)
failing-action_rests {dry_run = dry_run} {r = r} reach confirm executor name arguments permissions w
      n e many =
    elim (execute-guarded confirm executor name arguments permissions r w) [
      | inl (spec, p, tried) ↦ absurd (
          false≢true (
            sym p.closed
            ∙ (Calls-IsGuarded reach (new_registry-IsGuarded dry_run)).opens name n e many))
      | inr (not_permitted, same, no_success) ↦ (same, no_success)
    ]
