-- ===== src/Autonomy/TaskGraph/Acyclic.antt =====
-- `validate` decides whether a task graph is sound, and its recursion never runs out of fuel.
use brainless_agent.Common.{
  ℕ, zero, suc, ◌<◌, String, true, ◌≡◌, ◌↔◌, refl, sym, ◌∙◌, ap, subst, ◌⊎◌, inl, inr, List, [],
  ◌∷◌, arith, Option-cases, Result, ok, raise, Error, contains, subset, subset-contains, Bool-cases,
  eq_iff, eq_refl, ◌==◌, All, length, difference, length-difference_lt, difference-empty, is_empty,
  difference-subset, false≢true,
}
use brainless_agent.Common.Dict.{get, has, keys, values, contains-keys, All-values}
use brainless_agent.Autonomy.TaskGraph.{
  GraphTask, TaskGraph, visit, visit_all, validate, depth, check_known, done,
}
use brainless_agent.Autonomy.TaskGraph.Order.{
  Depends, Needs, direct, through, visit_all-Grown, visit-Grown, Ordered-acyclic,
}

-- Every dependency of a task is a task of the graph.
abbrev pub AllKnown : TaskGraph → Type 0
AllKnown tasks = All (λ task. subset task.dependencies (keys tasks) ≡ true) (values tasks)

abbrev pub IsAcyclic : TaskGraph → Type 0
IsAcyclic tasks = (a : String) → ¬ (Needs tasks a a)

abbrev Finishes : {A : Type 0} → Result A → Type 0
Finishes {A} r = (a : A) × (r ≡ ok a)

visit_all-Finishes :
    (go : List String → String → Result (List String)) (ts : List String)
    → ((visited : List String) (p : String) → contains p ts ≡ true → Finishes (go visited p))
    → (visited : List String) → Finishes (visit_all go visited ts)
unfolding visit_all contains
visit_all-Finishes go [] total visited = (visited, refl)
visit_all-Finishes go (t ∷ ts) total visited =
    let (v, one) = total visited t (ground (arith, eq_refl t)) in
    let (now, others) = visit_all-Finishes go ts (λ w p h. total w p (ground (arith, h))) v in
    (now, ground (arith, one, others))

module _ (tasks : TaskGraph) (known : AllKnown tasks) (acyclic : IsAcyclic tasks) where
  visit-Finishes :
      (fuel : ℕ) (visiting : List String)
      → length (difference (keys tasks) visiting) < fuel
      → (visited : List String) (t : String) → has t tasks ≡ true
      → ((k : String) → contains k visiting ≡ true → Needs tasks k t)
      → Finishes (visit fuel tasks visiting visited t)
  unfolding visit contains
  visit-Finishes zero visiting room visited t there chain = ground (arith, room)
  visit-Finishes (suc fuel) visiting room visited t there chain =
      elim (Bool-cases (contains t visiting)) [
        | inl cyclic ↦ absurd (acyclic t (chain t cyclic))
        | inr apart ↦ elim (Bool-cases (contains t visited)) [
          | inl seen ↦ (visited, ground (arith, apart, seen))
          | inr unseen ↦ elim (Option-cases (get t tasks)) [
            | inl absent ↦ ground (arith, absent, there)
            | inr (task, found) ↦
                let (now, parents) =
                  visit_all-Finishes (visit fuel tasks (t ∷ visiting)) task.dependencies
                    (λ w p h.
                      visit-Finishes fuel (t ∷ visiting)
                        (omega (
                          arith,
                          room,
                          length-difference_lt t (keys tasks) visiting
                              (contains-keys t tasks ∙ there) apart,
                        ))
                        w p
                        (sym (contains-keys p tasks)
                          ∙ subset-contains p task.dependencies (keys tasks)
                              (All-values _ t task tasks known found) h)
                        (λ k in_path.
                          let d : Depends tasks t p = record {
                            task = task;
                            found = found;
                            among = h;
                          } in
                          elim (Bool-cases (k == t)) [
                            | inl same ↦
                                subst (λ x. Needs tasks x p) (sym ((eq_iff k t).0 same)) (direct d)
                            | inr other ↦ through (chain k (ground (arith, other, in_path))) d
                          ]))
                    visited in
                (t ∷ now, ground (arith, apart, unseen, found, parents))
          ]
        ]
      ]

Result-cases : (r : Result (Unit {0})) → (r ≡ ok tt) ⊎ ((e : Error) × (r ≡ raise e))
Result-cases (ok tt) = inl refl
Result-cases (raise e) = inr (e, refl)

check_known-AllKnown :
    (ts : List GraphTask) (tasks : TaskGraph)
    → (check_known ts tasks ≡ ok tt) ↔ All (λ task. subset task.dependencies (keys tasks) ≡ true) ts
unfolding check_known
check_known-AllKnown [] tasks = (λ _. tt, λ _. refl)
check_known-AllKnown (t ∷ ts) tasks =
    let rest = check_known-AllKnown ts tasks in
    let same = difference-subset t.dependencies (keys tasks) in
    (
      λ e. elim (Bool-cases (is_empty (difference t.dependencies (keys tasks)))) [
        | inl none_missing ↦ (sym same ∙ none_missing, rest.0 (ground (arith, none_missing, e)))
        | inr missing ↦ ground (arith, missing, e)
      ],
      λ h. ground (arith, same, h.0, rest.1 h.1),
    )

-- The two halves of `validate`.
validate-first :
    (tasks : TaskGraph) → validate tasks ≡ ok tt → check_known (values tasks) tasks ≡ ok tt
unfolding validate
validate-first tasks e = elim (Result-cases (check_known (values tasks) tasks)) [
  | inl passed ↦ passed
  | inr (x, stuck) ↦ ground (arith, stuck, e)
]

validate-visits :
    (tasks : TaskGraph)
    → check_known (values tasks) tasks ≡ ok tt
    → (validate tasks ≡ ok tt) ↔ Finishes (visit_all (visit (depth tasks) tasks []) [] (keys tasks))
unfolding validate
validate-visits tasks e = (λ h. back _ (ground (arith, e, h)), λ f. ground (arith, e, f.1))
  where
    back : {A : Type 0} (r : Result A) → done r ≡ ok tt → Finishes r
    back (ok a) h = (a, refl)
    back (raise x) h = cc

length-keys : (tasks : TaskGraph) → length (keys tasks) ≡ length tasks
unfolding keys
length-keys [] = refl
length-keys ((k, t) ∷ tasks) = ground (arith, length-keys tasks)

Needs-has : (tasks : TaskGraph) (a b : String) → Needs tasks a b → has a tasks ≡ true
Needs-has tasks a b (direct d) = rw d.found refl
Needs-has tasks a b (through {b = c} n d) = Needs-has tasks a c n

nothing : (x : String) → ¬ (contains x [] ≡ true)
unfolding contains
nothing x e = false≢true e

-- `validate` passes a graph just when every dependency is a task of the graph and no task needs
-- itself, directly or through others; no such graph is refused for want of fuel.
pub validate-decides :
    (tasks : TaskGraph) → (validate tasks ≡ ok tt) ↔ (AllKnown tasks × IsAcyclic tasks)
validate-decides tasks = (λ e. (known e, acyclic e), complete)
  where
    known : validate tasks ≡ ok tt → AllKnown tasks
    known e = (check_known-AllKnown (values tasks) tasks).0 (validate-first tasks e)

    acyclic : validate tasks ≡ ok tt → IsAcyclic tasks
    acyclic e a n =
        let (order, visited) = (validate-visits tasks (validate-first tasks e)).0 e in
        let (g, all_in) =
          visit_all-Grown tasks (visit (depth tasks) tasks []) (visit-Grown tasks (depth tasks) [])
            [] (keys tasks) order tt visited in
        Ordered-acyclic tasks order a g.ordered
          (subset-contains a (keys tasks) order all_in
            (contains-keys a tasks ∙ Needs-has tasks a a n))
          n

    complete : AllKnown tasks × IsAcyclic tasks → validate tasks ≡ ok tt
    complete (k, h) = (validate-visits tasks ((check_known-AllKnown (values tasks) tasks).1 k)).1 (
        visit_all-Finishes (visit (depth tasks) tasks []) (keys tasks)
          (λ w p in_keys.
            visit-Finishes tasks k h (depth tasks) []
              (omega (arith, ap length (difference-empty (keys tasks)), length-keys tasks)) w p
              (sym (contains-keys p tasks) ∙ in_keys) (λ x no. absurd (nothing x no)))
          [])
