-- ===== src/Autonomy/Scheduler/Choice.antt =====
-- What the scheduler chooses: ready tasks with resources of their own, and as many as fit.
use brainless_agent.Common.{
  ℕ, suc, ◌+◌, ◌<◌, ◌≤◌, String, Bool, true, false, ◌≡◌, ◌≢◌, refl, subst, ◌⊎◌, inl, inr, List, [],
  ◌∷◌, ◌++◌, arith, nat_eq, length, if◌then◌else◌, Result, ok, raise, disjoint, All, All-map,
  keep-All, Bool-cases, contains-append,
}
use brainless_agent.Common.Dict.{values}
use brainless_agent.Autonomy.TaskGraph.{GraphTask, TaskGraph, runnable, is_runnable, validate}
use brainless_agent.Autonomy.Scheduler.{
  before, insert_task, sort_tasks, select, selection, next_tasks, when_valid,
}

-- The resources of each task are free when its turn comes, those of the tasks before it taken.
abbrev pub Apart : List String → List GraphTask → Type 0
Apart reserved [] = Unit
Apart reserved (t ∷ ts) =
    (disjoint t.resources reserved ≡ true) × Apart (reserved ++ t.resources) ts

-- What is taken after the tasks have started.
abbrev pub taken : List String → List GraphTask → List String
taken reserved [] = reserved
taken reserved (t ∷ ts) = taken (reserved ++ t.resources) ts

pub data Among (t : GraphTask) : List GraphTask → Type 0 where
  first : {ts : List GraphTask} → Among t (t ∷ ts)
  later : {u : GraphTask} {ts : List GraphTask} → Among t ts → Among t (u ∷ ts)

insert_task-All :
    (P : GraphTask → Type 0) (t : GraphTask) (ts : List GraphTask)
    → P t
    → All P ts
    → All P (insert_task t ts)
unfolding insert_task
insert_task-All P t [] p ps = (p, tt)
insert_task-All P t (u ∷ us) p ps = elim (Bool-cases (before u t)) [
  | inl after ↦ rw after (ps.0, insert_task-All P t us p ps.1)
  | inr front ↦ rw front (p, ps)
]

sort_tasks-All : (P : GraphTask → Type 0) (ts : List GraphTask) → All P ts → All P (sort_tasks ts)
unfolding sort_tasks
sort_tasks-All P [] ps = tt
sort_tasks-All P (t ∷ ts) ps = insert_task-All P t (sort_tasks ts) ps.0 (sort_tasks-All P ts ps.1)

-- The first step of the insertion.
split :
    (P : GraphTask → Type 0) (t u : GraphTask) (us vs : List GraphTask) (b : Bool)
    → (All P vs → P t × All P us)
    → All P (if b then u ∷ vs else t ∷ u ∷ us)
    → P t × All P (u ∷ us)
split P t u us vs true back ps = let (p, rest) = back ps.1 in (p, (ps.0, rest))
split P t u us vs false back ps = ps

insert_task-All_back :
    (P : GraphTask → Type 0) (t : GraphTask) (ts : List GraphTask)
    → All P (insert_task t ts)
    → P t × All P ts
unfolding insert_task
insert_task-All_back P t [] ps = ps
insert_task-All_back P t (u ∷ us) ps =
    split P t u us (insert_task t us) (before u t) (insert_task-All_back P t us) ps

unsort_tasks-All : (P : GraphTask → Type 0) (ts : List GraphTask) → All P (sort_tasks ts) → All P ts
unfolding sort_tasks
unsort_tasks-All P [] ps = tt
unsort_tasks-All P (t ∷ ts) ps =
    let (p, rest) = insert_task-All_back P t (sort_tasks ts) ps in (p, unsort_tasks-All P ts rest)

runnable-All : (tasks : TaskGraph) → All (λ t. is_runnable tasks t ≡ true) (runnable tasks)
unfolding runnable
runnable-All tasks = keep-All (is_runnable tasks) (values tasks)

selected :
    (tasks : TaskGraph) (held : List String) (limit : ℕ) (picked : List GraphTask)
    → next_tasks tasks held limit ≡ ok picked
    → selection tasks held limit ≡ picked
unfolding next_tasks
selected tasks held limit picked e = go (validate tasks) e
  where
    go :
        (r : Result (Unit {0}))
        → when_valid r (selection tasks held limit) ≡ ok picked
        → selection tasks held limit ≡ picked
    go (ok u) h = cc
    go (raise x) h = cc

disjoint-append_left :
    (xs ys zs : List String) → disjoint xs ys ≡ false → disjoint xs (ys ++ zs) ≡ false
unfolding disjoint
disjoint-append_left [] ys zs h = h
disjoint-append_left (x ∷ xs) ys zs h =
    ground (arith, h, disjoint-append_left xs ys zs, contains-append x ys zs)

taken-keeps :
    (xs reserved : List String) (ts : List GraphTask)
    → disjoint xs reserved ≡ false
    → disjoint xs (taken reserved ts) ≡ false
taken-keeps xs reserved [] h = h
taken-keeps xs reserved (t ∷ ts) h =
    taken-keeps xs (reserved ++ t.resources) ts (disjoint-append_left xs reserved t.resources h)

module _ (limit : ℕ) where
  -- One turn of the loop.
  select-cases :
      (Q : List GraphTask → Type 0) (reserved : List String) (k : ℕ) (t : GraphTask)
      (ts : List GraphTask)
      → (disjoint t.resources reserved ≡ false → Q (select limit reserved k ts))
      → (disjoint t.resources reserved ≡ true → suc k ≡ limit → Q (t ∷ []))
      → (disjoint t.resources reserved ≡ true
          → suc k ≢ limit
          → Q (t ∷ select limit (reserved ++ t.resources) (suc k) ts))
      → Q (select limit reserved k (t ∷ ts))
  unfolding select
  select-cases Q reserved k t ts busy last more = go (disjoint t.resources reserved) refl
    where
      go_on :
          disjoint t.resources reserved ≡ true
          → (b : Bool) → nat_eq (suc k) limit ≡ b
          → Q (t ∷ elim b [ true ↦ [] | false ↦ select limit (reserved ++ t.resources) (suc k) ts ])
      go_on free true full = last free (ground (arith, full))
      go_on free false room = more free (ground (arith, room))

      go :
          (b : Bool)
          → disjoint t.resources reserved ≡ b
          → Q (elim b [
            | false ↦ select limit reserved k ts
            | true ↦ t ∷ elim (nat_eq (suc k) limit) [
              | true ↦ []
              | false ↦ select limit (reserved ++ t.resources) (suc k) ts
            ]
          ])
      go false e = busy e
      go true e = go_on e (nat_eq (suc k) limit) refl

  select-Apart :
      (reserved : List String) (k : ℕ) (ts : List GraphTask)
      → Apart reserved (select limit reserved k ts)
  unfolding select
  select-Apart reserved k [] = tt
  select-Apart reserved k (t ∷ ts) =
      select-cases (Apart reserved) reserved k t ts (λ _. select-Apart reserved k ts)
        (λ free _. (free, tt)) (λ free _. (free, select-Apart (reserved ++ t.resources) (suc k) ts))

  select-All :
      (P : GraphTask → Type 0) (reserved : List String) (k : ℕ) (ts : List GraphTask)
      → All P ts
      → All P (select limit reserved k ts)
  unfolding select
  select-All P reserved k [] ps = tt
  select-All P reserved k (t ∷ ts) ps =
      select-cases (All P) reserved k t ts (λ _. select-All P reserved k ts ps.1)
        (λ _ _. (ps.0, tt)) (λ _ _. (ps.0, select-All P (reserved ++ t.resources) (suc k) ts ps.1))

  select-length :
      (reserved : List String) (k : ℕ) (ts : List GraphTask)
      → k < limit
      → k + length (select limit reserved k ts) ≤ limit
  unfolding select
  select-length reserved k [] h = omega (arith, h)
  select-length reserved k (t ∷ ts) h =
      select-cases (λ picked. k + length picked ≤ limit) reserved k t ts
        (λ _. select-length reserved k ts h) (λ _ full. omega (arith, full))
        (λ _ room.
          omega
            (arith, select-length (reserved ++ t.resources) (suc k) ts (omega (arith, h, room))))

  -- Every task is selected or collides with what is taken, or the limit is reached.
  abbrev pub Full : List String → ℕ → List GraphTask → List GraphTask → Type 0
  Full reserved k ts picked =
      (k + length picked ≡ limit)
      ⊎ All (λ t. Among t picked ⊎ (disjoint t.resources (taken reserved picked) ≡ false)) ts

  select-Full :
      (reserved : List String) (k : ℕ) (ts : List GraphTask)
      → Full reserved k ts (select limit reserved k ts)
  unfolding select
  select-Full reserved k [] = inr tt
  select-Full reserved k (t ∷ ts) =
      select-cases (Full reserved k (t ∷ ts)) reserved k t ts
        (λ busy. elim (select-Full reserved k ts) [
          | inl full ↦ inl full
          | inr rest ↦
              inr (inr (taken-keeps t.resources reserved (select limit reserved k ts) busy), rest)
        ])
        (λ _ full. inl (omega (arith, full)))
        (λ _ _. elim (select-Full (reserved ++ t.resources) (suc k) ts) [
          | inl full ↦ inl (omega (arith, full))
          | inr rest ↦
              inr (inl first, All-map (λ u. elim [ inl a ↦ inl (later a) | inr c ↦ inr c ]) ts rest)
        ])

-- What holds of all runnable tasks holds of those that `next_tasks` returns.
pub next_tasks-All :
    (P : GraphTask → Type 0) (tasks : TaskGraph) (held : List String) (limit : ℕ)
    (picked : List GraphTask)
    → All P (runnable tasks)
    → next_tasks tasks held limit ≡ ok picked
    → All P picked
next_tasks-All P tasks held limit picked ps e =
    subst (All P) (selected tasks held limit picked e) (
      select-All limit P held 0 (sort_tasks (runnable tasks))
        (sort_tasks-All P (runnable tasks) ps))

-- The tasks that `next_tasks` returns are runnable, and each has resources that neither a holder
-- nor a task before it has; their number is within a limit of one or more.
pub next_tasks-safe :
    (tasks : TaskGraph) (held : List String) (limit : ℕ) (picked : List GraphTask)
    → 1 ≤ limit
    → next_tasks tasks held limit ≡ ok picked
    → All (λ t. is_runnable tasks t ≡ true) picked × Apart held picked × (length picked ≤ limit)
next_tasks-safe tasks held limit picked some_room e =
    let same = selected tasks held limit picked e in
    (
      subst (All (λ t. is_runnable tasks t ≡ true)) same (
          select-All limit (λ t. is_runnable tasks t ≡ true) held 0 (sort_tasks (runnable tasks))
            (sort_tasks-All (λ t. is_runnable tasks t ≡ true) (runnable tasks)
              (runnable-All tasks))),
      subst (Apart held) same (select-Apart limit held 0 (sort_tasks (runnable tasks))),
      subst (λ p. length p ≤ limit) same
          (omega (
            arith,
            select-length limit held 0 (sort_tasks (runnable tasks)) (omega (arith, some_room)),
          )),
    )

-- The tasks that `next_tasks` returns are as many as the limit, or every runnable task is among
-- them or needs a resource that is held or taken by one of them.
pub next_tasks-maximal :
    (tasks : TaskGraph) (held : List String) (limit : ℕ) (picked : List GraphTask)
    → next_tasks tasks held limit ≡ ok picked
    → (length picked ≡ limit)
      ⊎ All
          (λ t. Among t picked ⊎ (disjoint t.resources (taken held picked) ≡ false))
          (runnable tasks)
next_tasks-maximal tasks held limit picked e =
    let same = selected tasks held limit picked e in
    let P : GraphTask → Type 0 =
      λ t. Among t picked ⊎ (disjoint t.resources (taken held picked) ≡ false) in
    elim (subst (Full limit held 0 (sort_tasks (runnable tasks))) same
      (select-Full limit held 0 (sort_tasks (runnable tasks)))) [
        | inl full ↦ inl (omega (arith, full))
        | inr rest ↦ inr (unsort_tasks-All P (runnable tasks) rest)
      ]
