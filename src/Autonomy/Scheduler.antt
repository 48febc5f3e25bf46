-- ===== src/Autonomy/Scheduler.antt =====
-- `TaskScheduler` of app/autonomy/task_graph.py: which runnable tasks start next.
pub mod Choice
use Prim.Native.String.{compare}
use text.Mathlib.Text.{is_lt}
use brainless_agent.Common.{
  ℕ, suc, String, Bool, true, false, ◌&&◌, ◌||◌, ◌==◌, Option, none, some, List, [], ◌∷◌, ◌++◌, ltb,
  nat_eq, if◌then◌else◌, Result, ok, raise, disjoint, int_lt, int_eq,
}
use brainless_agent.Autonomy.TaskGraph.{GraphTask, TaskGraph, runnable, validate}

-- `a.deadline or datetime.max < b.deadline or datetime.max`
abbrev pub earlier : Option ℕ → Option ℕ → Bool
earlier none b = false
earlier (some a) none = true
earlier (some a) (some b) = ltb a b

abbrev pub same_deadline : Option ℕ → Option ℕ → Bool
same_deadline none none = true
same_deadline (some a) (some b) = nat_eq a b
same_deadline a b = false

-- The order of the keys `(-priority, deadline or datetime.max, task_id)`.
unfoldable pub before : GraphTask → GraphTask → Bool
before a b =
    int_lt b.priority a.priority
    || (int_eq a.priority b.priority
        && (earlier a.deadline b.deadline
            || (same_deadline a.deadline b.deadline && is_lt (compare a.task_id b.task_id))))

unfoldable pub insert_task : GraphTask → List GraphTask → List GraphTask
insert_task task [] = task ∷ []
insert_task task (t ∷ ts) = if before t task then t ∷ insert_task task ts else task ∷ t ∷ ts

-- `sorted(tasks, key=...)`, which is stable
unfoldable pub sort_tasks : List GraphTask → List GraphTask
unfolding insert_task
sort_tasks [] = []
sort_tasks (t ∷ ts) = insert_task t (sort_tasks ts)

-- The loop of `next_tasks`, with the number of tasks selected so far; it returns those selected
-- from here on.
unfoldable pub select : ℕ → List String → ℕ → List GraphTask → List GraphTask
select limit reserved selected [] = []
select limit reserved selected (t ∷ ts) = elim (disjoint t.resources reserved) [
  | false ↦ select limit reserved selected ts
  | true ↦ t ∷ elim (nat_eq (suc selected) limit) [
    | true ↦ []
    | false ↦ select limit (reserved ++ t.resources) (suc selected) ts
  ]
]

abbrev pub selection : TaskGraph → List String → ℕ → List GraphTask
selection tasks held limit = select limit held 0 (sort_tasks (runnable tasks))

abbrev pub when_valid : Result (Unit {0}) → List GraphTask → Result (List GraphTask)
when_valid (raise e) tasks = raise e
when_valid (ok u) tasks = ok tasks

unfoldable pub next_tasks : TaskGraph → List String → ℕ → Result (List GraphTask)
unfolding select sort_tasks
next_tasks tasks held limit = when_valid (validate tasks) (selection tasks held limit)
