-- ===== src/Autonomy/Engine/Keyed.antt =====
-- Every task of a graph stands under its own identifier, and only there; the operations of a round
-- keep this.
use brainless_agent.Common.{
  ℕ, zero, suc, String, Bool, true, false, Option, none, some, ◌≡◌, refl, sym, ◌∙◌, subst, List, [],
  ◌∷◌, arith, ◌==◌, eq_iff, Bool-cases, inl, inr, ltb, if◌then◌else◌, Result, Error, All, All-map,
  pure, throw, concat, key_error, none≢some,
}
use brainless_agent.Common.Dict.{get, modify, keys, values, get-modify}
use brainless_agent.Autonomy.TaskGraph.{
  GraphTask, GraphTaskStatus, TaskGraph, set_status, complete, fail, failing, block, block_loop,
  block_dependents, waits_for, depth,
}
use brainless_agent.Autonomy.Engine.{EngineWorld, mark_running, settle_all}

abbrev pub IsKeyed : TaskGraph → Type 0
IsKeyed [] = Unit
IsKeyed ((k, t) ∷ g) = (t.task_id ≡ k) × (get k g ≡ none) × IsKeyed g

pub values-found : (g : TaskGraph) → IsKeyed g → All (λ t. get t.task_id g ≡ some t) (values g)
unfolding values get
values-found [] h = tt
values-found ((k, t) ∷ g) h =
    (rw ((eq_iff k t.task_id).1 (sym h.0)) refl, All-map later (values g) (values-found g h.2))
  where
    later :
        (u : GraphTask)
        → get u.task_id g ≡ some u
        → (if k == u.task_id then some t else get u.task_id g) ≡ some u
    later u e = elim (Bool-cases (k == u.task_id)) [
      | inl same ↦
          absurd
            (none≢some (sym (subst (λ i. get i g ≡ none) ((eq_iff k u.task_id).0 same) h.1) ∙ e))
      | inr other ↦ ground (arith, other, e)
    ]

-- A change of tasks that leaves their identifiers
modify-IsKeyed :
    (k : String) (f : GraphTask → GraphTask) (g : TaskGraph)
    → ((t : GraphTask) → (f t).task_id ≡ t.task_id)
    → IsKeyed g
    → IsKeyed (modify k f g)
unfolding modify
modify-IsKeyed k f [] same h = tt
modify-IsKeyed k f ((j, t) ∷ g) same h = elim (Bool-cases (j == k)) [
  | inl here ↦ subst IsKeyed (changed here) (same t ∙ h.0, h.1, h.2)
  | inr other ↦ subst IsKeyed (kept other) (h.0, absent, modify-IsKeyed k f g same h.2)
]
  where
    changed : (j == k) ≡ true → ◌≡◌ {A = TaskGraph} ((j, f t) ∷ g) (modify k f ((j, t) ∷ g))
    changed e = ground (arith, e)

    kept : (j == k) ≡ false → ◌≡◌ {A = TaskGraph} ((j, t) ∷ modify k f g) (modify k f ((j, t) ∷ g))
    kept e = ground (arith, e)

    absent : get j (modify k f g) ≡ none
    absent = get-modify k j f g ∙ ground (arith, h.1)

block_loop-IsKeyed :
    (go : String → TaskGraph → TaskGraph)
    → ((c : String) (g : TaskGraph) → IsKeyed g → IsKeyed (go c g))
    → (task_id reason : String) (cs : List String) (g : TaskGraph) → IsKeyed g
    → IsKeyed (block_loop go task_id reason cs g)
unfolding block_loop
block_loop-IsKeyed go keeps task_id reason [] g h = h
block_loop-IsKeyed go keeps task_id reason (c ∷ cs) g h =
    block_loop-IsKeyed go keeps task_id reason cs _ (one (waits_for task_id c g))
  where
    one : (b : Bool) → IsKeyed (if b then go c (modify c (block reason) g) else g)
    one false = h
    one true = keeps c (modify c (block reason) g) (modify-IsKeyed c (block reason) g (λ t. refl) h)

block_dependents-IsKeyed :
    (fuel : ℕ) (task_id reason : String) (g : TaskGraph)
    → IsKeyed g
    → IsKeyed (block_dependents fuel task_id reason g)
unfolding block_dependents
block_dependents-IsKeyed zero task_id reason g h = h
block_dependents-IsKeyed (suc fuel) task_id reason g h =
    block_loop-IsKeyed (λ c. block_dependents fuel c reason)
      (λ c i. block_dependents-IsKeyed fuel c reason i) task_id reason (keys g) g h

complete-IsKeyed : (task_id : String) (g : TaskGraph) → IsKeyed g → IsKeyed (complete task_id g).1
unfolding complete throw pure
complete-IsKeyed task_id g h = go (get task_id g)
  where
    go :
        (o : Option GraphTask)
        → IsKeyed
            (elim o as (λ x. Result (Unit {0}) × TaskGraph) [
              | none ↦ throw (key_error task_id) g
              | some task ↦ pure tt (modify task_id (set_status GraphTaskStatus.completed) g)
            ]).1
    go none = h
    go (some t) = modify-IsKeyed task_id (set_status GraphTaskStatus.completed) g (λ u. refl) h

failing-task_id : (error : String) (t : GraphTask) → (failing error t).task_id ≡ t.task_id
failing-task_id error t = ground arith

fail-IsKeyed :
    (task_id error : String) (g : TaskGraph) → IsKeyed g → IsKeyed (fail task_id error g).1
unfolding fail throw pure
fail-IsKeyed task_id error g h = go (get task_id g)
  where
    reason : String
    reason = concat "Dependency " (concat task_id " failed")

    marked : TaskGraph
    marked = modify task_id (failing error) g

    is_marked : IsKeyed (modify task_id (failing error) g)
    is_marked = modify-IsKeyed task_id (failing error) g (failing-task_id error) h

    either :
        (b : Bool)
        → IsKeyed (if b then marked else block_dependents (depth g) task_id reason marked)
    either true = is_marked
    either false = block_dependents-IsKeyed (depth g) task_id reason marked is_marked

    go :
        (o : Option GraphTask)
        → IsKeyed
            (elim o as (λ x. Result (Unit {0}) × TaskGraph) [
              | none ↦ throw (key_error task_id) g
              | some task ↦ pure tt (
                  if ltb task.retries task.max_retries
                  then marked
                  else block_dependents (depth g) task_id reason marked)
            ]).1
    go none = h
    go (some t) = either (ltb t.retries t.max_retries)

pub settle_all-IsKeyed :
    {W : Type 0} (env : EngineWorld W) (outcomes : List (GraphTask × Option Error))
    (done : List String) (g : TaskGraph)
    → IsKeyed g
    → IsKeyed (settle_all env outcomes done g).1
unfolding settle_all
settle_all-IsKeyed env [] done g h = h
settle_all-IsKeyed env ((t, none) ∷ rest) done g h =
    settle_all-IsKeyed env rest _ _ (complete-IsKeyed t.task_id g h)
settle_all-IsKeyed env ((t, some e) ∷ rest) done g h =
    settle_all-IsKeyed env rest done _ (fail-IsKeyed t.task_id (env.str e) g h)

pub mark_running-IsKeyed :
    (ts : List GraphTask) (g : TaskGraph) → IsKeyed g → IsKeyed (mark_running ts g)
unfolding mark_running
mark_running-IsKeyed [] g h = h
mark_running-IsKeyed (t ∷ ts) g h =
    mark_running-IsKeyed ts _
      (modify-IsKeyed t.task_id (set_status GraphTaskStatus.running) g (λ u. refl) h)
