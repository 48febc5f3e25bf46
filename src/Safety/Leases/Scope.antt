-- ===== src/Safety/Leases/Scope.antt =====
-- What a lease permits: its agent, its permission, its task, until it expires.
use brainless_agent.Common.{
  ℕ, ◌+◌, ◌≤◌, String, Bool, false, not, ◌&&◌, ◌||◌, ◌==◌, Option, none, some, ◌≡◌, refl, ◌∙◌, ap,
  [], ◌∷◌, arith, ltb, leb, ok, any, Bool-cases, pure, throw, inl, inr,
}
use brainless_agent.Common.Dict.{Dict, get, put, values, keep_values}
use brainless_agent.Safety.Leases.{
  CapabilityLease, Registry, active, grant, prune, permits, matches, for_task, microseconds,
}

-- The agent works on the task `t`.
abbrev pub is_for : Option String → String → Bool
is_for none t = false
is_for (some u) t = t == u

-- A new entry among the values that are kept.
any-put :
    {V : Type 0} (f p : V → Bool) (k : String) (v : V) (d : Dict V)
    → get k d ≡ none
    → any (values (keep_values f (put k v d))) p
      ≡ ((f v && p v) || any (values (keep_values f d)) p)
unfolding any values keep_values put get
any-put f p k v [] fresh = ground arith
any-put f p k v ((j, w) ∷ d) fresh = ground (arith, fresh, any-put f p k v d)

permits-put :
    (later : ℕ) (b q : String) (u : Option String) (id : String) (lease : CapabilityLease)
    (leases : Registry) (before : Bool)
    → get id leases ≡ none
    → (permits later b q u leases).0 ≡ ok before
    → (permits later b q u (put id lease leases)).0 ≡ ok (matches later b q u lease || before)
unfolding permits prune matches pure
permits-put later b q u id lease leases before fresh e =
    ground (arith, e, any-put (active later) (matches later b q u) id lease leases fresh)

-- The lease that `grant` makes, and where it puts it.
record Granted (id : String) (now : ℕ) (a p t : String) (seconds : ℕ) (leases : Registry)
    (lease : CapabilityLease) : Type 0 where
  stored : (grant id now a p t seconds leases).1 ≡ put id lease leases
  of_agent : lease.agent_id ≡ a
  of_permission : lease.permission ≡ p
  of_task : lease.task_id ≡ t
  expires : lease.expires_at ≡ now + microseconds seconds
  bounded : seconds ≤ 86400

grant-Granted :
    (id : String) (now : ℕ) (a p t : String) (seconds : ℕ) (leases : Registry)
    (lease : CapabilityLease)
    → (grant id now a p t seconds leases).0 ≡ ok lease
    → Granted id now a p t seconds leases lease
unfolding grant pure throw
grant-Granted id now a p t seconds leases lease e =
    elim (Bool-cases ((t == "") || not (leb 1 seconds && leb seconds 86400))) [
      | inl refused ↦ ground (arith, refused, e)
      | inr fine ↦ record {
        stored = ground (arith, fine);
        of_agent = ground (arith, fine, e);
        of_permission = ground (arith, fine, e);
        of_task = ground (arith, fine, e);
        expires = ground (arith, fine, e);
        bounded = ground (arith, fine);
      }
    ]

-- A lease that is granted under a new identifier, for a task and at most a day, adds to what
-- `permits` allows just its permission for its agent on its task as long as it has not expired;
-- all else is as before.
pub permits-grant :
    (id : String) (now later : ℕ) (a p t b q : String) (u : Option String) (seconds : ℕ)
    (leases : Registry) (lease : CapabilityLease) (before : Bool)
    → get id leases ≡ none
    → (grant id now a p t seconds leases).0 ≡ ok lease
    → (permits later b q u leases).0 ≡ ok before
    → ((permits later b q u (grant id now a p t seconds leases).1).0
        ≡ ok (
            ((a == b) && ((p == q) && (is_for u t && ltb later (now + microseconds seconds))))
            || before))
      × (seconds ≤ 86400)
unfolding matches active for_task
permits-grant id now later a p t b q (some u) seconds leases lease before fresh granted e =
    let g = grant-Granted id now a p t seconds leases lease granted in
    (
      ap (λ r. (permits later b q (some u) r).0) g.stored
          ∙ permits-put later b q (some u) id lease leases before fresh e
          ∙ rw (g.of_agent, g.of_permission, g.of_task, g.expires) refl,
      g.bounded,
    )
permits-grant id now later a p t b q none seconds leases lease before fresh granted e =
    let g = grant-Granted id now a p t seconds leases lease granted in
    (
      ap (λ r. (permits later b q none r).0) g.stored
          ∙ permits-put later b q none id lease leases before fresh e
          ∙ rw (g.of_agent, g.of_permission) refl,
      g.bounded,
    )
