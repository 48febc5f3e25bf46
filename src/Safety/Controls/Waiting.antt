-- ===== src/Safety/Controls/Waiting.antt =====
-- What ends the wait for the user.
use brainless_agent.Common.{
  String, Bool, true, false, ◌||◌, Option, none, some, ◌≡◌, refl, subst, List, [], ◌∷◌, ◌++◌, arith,
  Result, ok, raise, any, throw, Error,
}
use brainless_agent.Safety.Controls.{
  EmergencyStop, trigger, raise_if_triggered, UserInterventionGate, continue_run, Moment, happens,
  Round, happen_all, wait_loop, wait,
}

abbrev pub is_continue : Moment → Bool
is_continue Moment.user_continues = true
is_continue m = false

abbrev pub is_stop : Moment → Bool
is_stop Moment.stop_triggered = true
is_stop m = false

-- What the gate and the stop say after a round.
happen_all-ready :
    (ms : Round) (g : UserInterventionGate) (s : EmergencyStop)
    → ((happen_all ms (g, s)).0.ready ≡ (g.ready || any ms is_continue))
      × ((happen_all ms (g, s)).1.event ≡ (s.event || any ms is_stop))
unfolding happen_all happens continue_run trigger any
happen_all-ready [] g s = (ground arith, ground arith)
happen_all-ready (Moment.idle ∷ ms) g s = happen_all-ready ms g s
happen_all-ready (Moment.user_continues ∷ ms) g s =
    let (a, b) = happen_all-ready ms (continue_run g) s in (ground (arith, a), b)
happen_all-ready (Moment.stop_triggered ∷ ms) g s =
    let (a, b) = happen_all-ready ms g (trigger s) in (a, ground (arith, b))

abbrev pub continues : List Round → Bool
continues rounds = any rounds (λ r. any r is_continue)

abbrev pub stops : List Round → Bool
stops rounds = any rounds (λ r. any r is_stop)

-- What the answer of the loop says about what has happened.
abbrev Tells : Bool → Bool → Option (Result (Unit {0})) → Type 0
Tells continued stopped none = (continued ≡ false) × (stopped ≡ false)
Tells continued stopped (some (ok u)) = continued ≡ true
Tells continued stopped (some (raise e)) = stopped ≡ true

wait_loop-Tells :
    (rs : List Round) (ready event : Bool) (notified : List String)
    → Tells
        (ready || continues rs)
        (event || stops rs)
        (wait_loop rs (record { ready = ready; notified = notified }, record { event = event })).0
unfolding any wait_loop raise_if_triggered throw
wait_loop-Tells [] true event n = refl
wait_loop-Tells [] false true n = refl
wait_loop-Tells [] false false n = (refl, refl)
wait_loop-Tells (r ∷ rs) true event n = refl
wait_loop-Tells (r ∷ rs) false true n = refl
wait_loop-Tells (r ∷ rs) false false n =
    let now = happen_all r (record { ready = false; notified = n }, record { event = false }) in
    let same =
      happen_all-ready r (record { ready = false; notified = n }) (record { event = false }) in
    subst (λ b. Tells (b || continues rs) (any r is_stop || stops rs) (wait_loop rs now).0) same.0
      (subst (λ b. Tells (now.0.ready || continues rs) (b || stops rs) (wait_loop rs now).0) same.1
        (wait_loop-Tells rs now.0.ready now.1.event now.0.notified))

-- `wait` returns well only if the user continues during the wait, a continue from before does not
-- count; it raises only if the stop is triggered, before or during the wait; and it goes on waiting
-- only if neither happens.
pub wait-answers :
    (message : String) (rounds : List Round) (g : UserInterventionGate) (s : EmergencyStop)
    → ((wait message rounds (g, s)).0 ≡ some (ok tt) → continues rounds ≡ true)
      × ((e : Error)
          → (wait message rounds (g, s)).0 ≡ some (raise e)
          → (s.event || stops rounds) ≡ true)
      × ((wait message rounds (g, s)).0 ≡ none
          → (continues rounds ≡ false) × ((s.event || stops rounds) ≡ false))
unfolding wait
wait-answers message rounds g s =
    let tells = wait_loop-Tells rounds false s.event (g.notified ++ message ∷ []) in
    (
      λ e. subst (Tells (continues rounds) (s.event || stops rounds)) e tells,
      λ x e. subst (Tells (continues rounds) (s.event || stops rounds)) e tells,
      λ e. subst (Tells (continues rounds) (s.event || stops rounds)) e tells,
    )
