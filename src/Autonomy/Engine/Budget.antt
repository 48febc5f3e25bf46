-- ===== src/Autonomy/Engine/Budget.antt =====
-- What is left to do in a graph, as a number that no operation of a round raises.
use brainless_agent.Common.{
  ℕ, zero, suc, ◌+◌, ◌-◌, ◌*◌, ◌≤◌, ◌<◌, String, Bool, true, false, Option, none, some, ◌≡◌, refl,
  sym, ◌∙◌, subst, List, [], ◌∷◌, ◌++◌, key_error, arith, ◌==◌, Bool-cases, inl, inr, ltb,
  if◌then◌else◌, Result, Error, concat, pure, throw, some-injective, none≢some,
}
use brainless_agent.Common.Dict.{get, modify, keys}
use brainless_agent.Autonomy.TaskGraph.{
  GraphTask, GraphTaskStatus, TaskGraph, set_status, complete, fail, failing, block, block_loop,
  block_dependents, waits_for, depth,
}
use brainless_agent.Autonomy.Engine.{EngineWorld, settle_all}

-- Two for each retry that is left, and two more for a pending task, one more for a running one.
abbrev pub phase : GraphTaskStatus → ℕ
phase GraphTaskStatus.pending = 2
phase GraphTaskStatus.running = 1
phase status = 0

abbrev pub weight : GraphTask → ℕ
weight t = 2 * (t.max_retries - t.retries) + phase t.status

unfoldable pub total : TaskGraph → ℕ
total [] = 0
total ((k, t) ∷ g) = weight t + total g

found_here :
    (j k : String) (u : GraphTask) (g : TaskGraph) → (j == k) ≡ true → get k ((j, u) ∷ g) ≡ some u
unfolding get
found_here j k u g here = rw here refl

pub total-modify :
    (k : String) (f : GraphTask → GraphTask) (g : TaskGraph)
    → ((t : GraphTask) → get k g ≡ some t → weight (f t) ≤ weight t)
    → total (modify k f g) ≤ total g
unfolding total modify get
total-modify k f [] h = omega arith
total-modify k f ((j, t) ∷ g) h = elim (Bool-cases (j == k)) [
  | inl here ↦
      let le : weight (f t) ≤ weight t = h t (ground (arith, here)) in ground (arith, here, le)
  | inr other ↦
      let rest = total-modify k f g (λ u e. h u (ground (arith, other, e))) in
      ground (arith, other, rest)
]

pub total-modify_lt :
    (k : String) (f : GraphTask → GraphTask) (g : TaskGraph) (t : GraphTask)
    → get k g ≡ some t
    → weight (f t) < weight t
    → total (modify k f g) < total g
unfolding total modify get
total-modify_lt k f [] t e lt = absurd (none≢some e)
total-modify_lt k f ((j, u) ∷ g) t e lt = elim (Bool-cases (j == k)) [
  | inl here ↦
      let less : weight (f u) < weight u =
        subst (λ (x : GraphTask). weight (f x) < weight x)
          (some-injective (sym e ∙ found_here j k u g here)) lt in
      ground (arith, here, less)
  | inr other ↦
      let rest = total-modify_lt k f g t (ground (arith, other, e)) lt in
      ground (arith, other, rest)
]

weight-failing : (error : String) (t : GraphTask) → weight (failing error t) ≤ weight t
weight-failing error t = elim (Bool-cases (ltb t.retries t.max_retries)) [
  | inl left ↦ ground (arith, left)
  | inr out ↦ ground (arith, out)
]

weight-block : (reason : String) (t : GraphTask) → weight (block reason t) ≤ weight t
weight-block reason t = omega arith

-- One turn of `block_loop`, and all of them.
total-block_loop :
    (go : String → TaskGraph → TaskGraph)
    → ((c : String) (g : TaskGraph) → total (go c g) ≤ total g)
    → (task_id reason : String) (cs : List String) (g : TaskGraph)
    → total (block_loop go task_id reason cs g) ≤ total g
unfolding block_loop
total-block_loop go le task_id reason [] g = omega arith
total-block_loop go le task_id reason (c ∷ cs) g =
    let next = if waits_for task_id c g then go c (modify c (block reason) g) else g in
    omega (arith, total-block_loop go le task_id reason cs next, one (waits_for task_id c g))
  where
    one : (b : Bool) → total (if b then go c (modify c (block reason) g) else g) ≤ total g
    one false = omega arith
    one true = omega (
      arith,
      le c (modify c (block reason) g),
      total-modify c (block reason) g (λ t e. weight-block reason t),
    )

total-block_dependents :
    (fuel : ℕ) (task_id reason : String) (g : TaskGraph)
    → total (block_dependents fuel task_id reason g) ≤ total g
unfolding block_dependents
total-block_dependents zero task_id reason g = omega arith
total-block_dependents (suc fuel) task_id reason g =
    total-block_loop (λ c. block_dependents fuel c reason)
      (λ c h. total-block_dependents fuel c reason h) task_id reason (keys g) g

total-complete : (task_id : String) (g : TaskGraph) → total (complete task_id g).1 ≤ total g
unfolding complete throw pure
total-complete task_id g = go (get task_id g)
  where
    go :
        (o : Option GraphTask)
        → total
            (elim o as (λ x. Result (Unit {0}) × TaskGraph) [
              | none ↦ throw (key_error task_id) g
              | some task ↦ pure tt (modify task_id (set_status GraphTaskStatus.completed) g)
            ]).1
          ≤ total g
    go none = omega arith
    go (some t) = total-modify task_id (set_status GraphTaskStatus.completed) g (λ u e. omega arith)

total-fail : (task_id error : String) (g : TaskGraph) → total (fail task_id error g).1 ≤ total g
unfolding fail throw pure
total-fail task_id error g = go (get task_id g)
  where
    reason : String
    reason = concat "Dependency " (concat task_id " failed")

    marked : TaskGraph
    marked = modify task_id (failing error) g

    le : total (modify task_id (failing error) g) ≤ total g
    le = total-modify task_id (failing error) g (λ u e. weight-failing error u)

    either :
        (b : Bool)
        → total (if b then marked else block_dependents (depth g) task_id reason marked) ≤ total g
    either true = le
    either false = omega (arith, le, total-block_dependents (depth g) task_id reason marked)

    go :
        (o : Option GraphTask)
        → total
            (elim o as (λ x. Result (Unit {0}) × TaskGraph) [
              | none ↦ throw (key_error task_id) g
              | some task ↦ pure tt (
                  if ltb task.retries task.max_retries
                  then marked
                  else block_dependents (depth g) task_id reason marked)
            ]).1
          ≤ total g
    go none = omega arith
    go (some t) = either (ltb t.retries t.max_retries)

pub total-settle_all :
    {W : Type 0} (env : EngineWorld W) (outcomes : List (GraphTask × Option Error))
    (done : List String) (g : TaskGraph)
    → total (settle_all env outcomes done g).1 ≤ total g
unfolding settle_all
total-settle_all env [] done g = omega arith
total-settle_all env ((t, none) ∷ rest) done g = omega (
  arith,
  total-settle_all env rest (done ++ t.task_id ∷ []) (complete t.task_id g).1,
  total-complete t.task_id g,
)
total-settle_all env ((t, some e) ∷ rest) done g = omega (
  arith,
  total-settle_all env rest done (fail t.task_id (env.str e) g).1,
  total-fail t.task_id (env.str e) g,
)
