-- ===== src/Autonomy/TaskGraph/Order.antt =====
-- What a run of `visit` that ends well leaves: an order in which every task comes after its
-- dependencies.
use brainless_agent.Common.{
  ℕ, zero, suc, String, true, ◌≡◌, refl, sym, ◌∙◌, subst, ◌⊎◌, inl, inr, List, [], ◌∷◌, arith, none,
  some, Option, Result, ok, raise, contains, subset, subset-contains, Bool-cases, eq_iff, eq_refl,
  ◌==◌, key_error, false≢true, some-injective, ok-injective, ok≢raise,
}
use brainless_agent.Common.Dict.{get}
use brainless_agent.Autonomy.TaskGraph.{
  GraphTask, TaskGraph, visit, visit_all, visit_task, leave, dependencies_of,
}

-- `b` is a dependency of `a`.
pub record Depends (tasks : TaskGraph) (a b : String) : Type 0 where
  pub task : GraphTask
  pub found : get a tasks ≡ some task
  pub among : contains b task.dependencies ≡ true

-- `b` is a dependency of `a`, or of one of its dependencies, and so on.
pub data Needs (tasks : TaskGraph) (a : String) : String → Type 0 where
  direct : {b : String} → Depends tasks a b → Needs tasks a b
  through : {b c : String} → Needs tasks a b → Depends tasks b c → Needs tasks a c

-- Newest first, every task stands before its dependencies.
pub record Placed (tasks : TaskGraph) (x : String) (xs : List String) : Type 0 where
  pub task : GraphTask
  pub found : get x tasks ≡ some task
  pub known : subset task.dependencies xs ≡ true

abbrev pub Ordered : TaskGraph → List String → Type 0
Ordered tasks [] = Unit
Ordered tasks (x ∷ xs) = Placed tasks x xs × Ordered tasks xs

-- What a visit does to the set of visited tasks.
pub record Grown (tasks : TaskGraph) (visited : List String) (now : List String) : Type 0 where
  pub ordered : Ordered tasks now
  pub keeps : (k : String) → contains k visited ≡ true → contains k now ≡ true

abbrev pub Visits : TaskGraph → (List String → String → Result (List String)) → Type 0
Visits tasks go =
    (visited : List String) (t : String) (now : List String)
    → Ordered tasks visited
    → go visited t ≡ ok now
    → Grown tasks visited now × (contains t now ≡ true)

-- The first turn of the loop over the dependencies.
visit_all-first :
    (go : List String → String → Result (List String)) (visited : List String) (t : String)
    (ts now : List String)
    → visit_all go visited (t ∷ ts) ≡ ok now
    → (v : List String) × (go visited t ≡ ok v) × (visit_all go v ts ≡ ok now)
unfolding visit_all
visit_all-first go visited t ts now e = step (go visited t) refl e
  where
    step :
        (r : Result (List String))
        → go visited t ≡ r
        → (elim r [ raise x ↦ raise x | ok visited' ↦ visit_all go visited' ts ]) ≡ ok now
        → (v : List String) × (go visited t ≡ ok v) × (visit_all go v ts ≡ ok now)
    step (raise x) h k = absurd (ok≢raise k)
    step (ok v) h k = (v, h, k)

-- How a visit ends well.
record Fresh (fuel : ℕ) (tasks : TaskGraph) (visiting visited : List String) (t : String)
    (now : List String) : Type 0 where
  task : GraphTask
  found : get t tasks ≡ some task
  before : List String
  parents : visit_all (visit fuel tasks (t ∷ visiting)) visited task.dependencies ≡ ok before
  new : t ∷ before ≡ now

visit_task-Fresh :
    (fuel : ℕ) (tasks : TaskGraph) (visiting visited : List String) (t : String) (now : List String)
    → visit_task (visit fuel tasks (t ∷ visiting)) visited t (dependencies_of t tasks) ≡ ok now
    → Fresh fuel tasks visiting visited t now
visit_task-Fresh fuel tasks visiting visited t now e = look (get t tasks) refl e
  where
    go : List String → String → Result (List String)
    go = visit fuel tasks (t ∷ visiting)

    end :
        (task : GraphTask)
        → get t tasks ≡ some task
        → (r : Result (List String))
        → visit_all (visit fuel tasks (t ∷ visiting)) visited task.dependencies ≡ r
        → leave t r ≡ ok now
        → Fresh fuel tasks visiting visited t now
    end task h (raise x) parents k = absurd (ok≢raise k)
    end task h (ok v) parents k = record {
      task = task;
      found = h;
      before = v;
      parents = parents;
      new = ok-injective k;
    }

    look :
        (o : Option GraphTask)
        → get t tasks ≡ o
        → visit_task
            (visit fuel tasks (t ∷ visiting))
            visited
            t
            (elim o [ none ↦ raise (key_error t) | some task ↦ ok task.dependencies ])
          ≡ ok now
        → Fresh fuel tasks visiting visited t now
    look none h k = absurd (ok≢raise k)
    look (some task) h k =
        end task h (visit_all (visit fuel tasks (t ∷ visiting)) visited task.dependencies) refl k

visit-cases :
    (fuel : ℕ) (tasks : TaskGraph) (visiting visited : List String) (t : String) (now : List String)
    → visit (suc fuel) tasks visiting visited t ≡ ok now
    → ((contains t visited ≡ true) × (visited ≡ now)) ⊎ Fresh fuel tasks visiting visited t now
unfolding visit
visit-cases fuel tasks visiting visited t now e = elim (Bool-cases (contains t visiting)) [
  | inl cyclic ↦ ground (arith, cyclic, e)
  | inr apart ↦ elim (Bool-cases (contains t visited)) [
    | inl known ↦ inl (known, ground (arith, apart, known, e))
    | inr unknown ↦
        inr (visit_task-Fresh fuel tasks visiting visited t now (ground (arith, apart, unknown, e)))
  ]
]

module _ (tasks : TaskGraph) where
  pub visit_all-Grown :
      (go : List String → String → Result (List String))
      → Visits tasks go
      → (visited ts now : List String) → Ordered tasks visited
      → visit_all go visited ts ≡ ok now
      → Grown tasks visited now × (subset ts now ≡ true)
  unfolding visit_all subset
  visit_all-Grown go visits visited [] now o e =
      let same : visited ≡ now = ok-injective e in
      (
        record {
          ordered = subst (Ordered tasks) same o;
          keeps = λ k. subst (λ l. contains k l ≡ true) same;
        },
        refl,
      )
  visit_all-Grown go visits visited (t ∷ ts) now o e =
      let (v, one, others) = visit_all-first go visited t ts now e in
      let (g, here) = visits visited t v o one in
      let (g', rest) = visit_all-Grown go visits v ts now g.ordered others in
      (
        record { ordered = g'.ordered; keeps = λ k h. g'.keeps k (g.keeps k h) },
        rw (g'.keeps t here) rest,
      )

  pub visit-Grown : (fuel : ℕ) (visiting : List String) → Visits tasks (visit fuel tasks visiting)
  unfolding visit contains
  visit-Grown zero visiting visited t now o e = absurd (ok≢raise e)
  visit-Grown (suc fuel) visiting visited t now o e =
      elim (visit-cases fuel tasks visiting visited t now e) [
        | inl (known, same) ↦ (
          record {
            ordered = subst (Ordered tasks) same o;
            keeps = λ k. subst (λ l. contains k l ≡ true) same;
          },
          subst (λ l. contains t l ≡ true) same known,
        )
        | inr f ↦
            let (g, all_in) =
              visit_all-Grown (visit fuel tasks (t ∷ visiting)) (visit-Grown fuel (t ∷ visiting))
                visited f.task.dependencies f.before o f.parents in
            (
              record {
                ordered =
                    subst (Ordered tasks) f.new
                      (record { task = f.task; found = f.found; known = all_in }, g.ordered);
                keeps = λ k h. subst (λ l. contains k l ≡ true) f.new (ground (arith, g.keeps k h));
              },
              subst (λ l. contains t l ≡ true) f.new (ground (arith, eq_refl t)),
            )
      ]

-- An order has no cycle in it.
module _ (tasks : TaskGraph) where
  Placed-Depends :
      (x b : String) (xs : List String)
      → Placed tasks x xs
      → Depends tasks x b
      → contains b xs ≡ true
  Placed-Depends x b xs p d = subset-contains b p.task.dependencies xs p.known (
      subst (λ (t : GraphTask). contains b t.dependencies ≡ true)
        (some-injective (sym d.found ∙ p.found)) d.among)

  Ordered-closed :
      (xs : List String) (a b : String)
      → Ordered tasks xs
      → contains a xs ≡ true
      → Depends tasks a b
      → contains b xs ≡ true
  unfolding contains
  Ordered-closed [] a b o h d = absurd (false≢true h)
  Ordered-closed (x ∷ xs) a b o h d = elim (Bool-cases (a == x)) [
    | inl same ↦
        ground (
          arith,
          Placed-Depends x b xs o.0 (subst (λ k. Depends tasks k b) ((eq_iff a x).0 same) d),
        )
    | inr other ↦ ground (arith, Ordered-closed xs a b o.1 (ground (arith, other, h)) d)
  ]

  Ordered-Needs :
      (xs : List String) (a b : String)
      → Ordered tasks xs
      → contains a xs ≡ true
      → Needs tasks a b
      → contains b xs ≡ true
  Ordered-Needs xs a b o h (direct d) = Ordered-closed xs a b o h d
  Ordered-Needs xs a b o h (through {b = c} n d) =
      Ordered-closed xs c b o (Ordered-Needs xs a c o h n) d

  Placed-Needs :
      (x b : String) (xs : List String)
      → Placed tasks x xs
      → Ordered tasks xs
      → Needs tasks x b
      → contains b xs ≡ true
  Placed-Needs x b xs p o (direct d) = Placed-Depends x b xs p d
  Placed-Needs x b xs p o (through {b = c} n d) =
      Ordered-closed xs c b o (Placed-Needs x c xs p o n) d

  pub Ordered-acyclic :
      (xs : List String) (a : String)
      → Ordered tasks xs
      → contains a xs ≡ true
      → ¬ (Needs tasks a a)
  unfolding contains
  Ordered-acyclic [] a o h n = false≢true h
  Ordered-acyclic (x ∷ xs) a o h n = elim (Bool-cases (a == x)) [
    | inl same ↦
        Ordered-acyclic xs a o.1
          (Placed-Needs a a xs (subst (λ k. Placed tasks k xs) (sym ((eq_iff a x).0 same)) o.0) o.1
            n)
          n
    | inr other ↦ Ordered-acyclic xs a o.1 (ground (arith, other, h)) n
  ]
