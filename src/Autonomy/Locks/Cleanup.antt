-- ===== src/Autonomy/Locks/Cleanup.antt =====
-- What `finally` gives back.
use brainless_agent.Common.{
  String, Bool, true, false, not, ◌&&◌, none, some, ◌≡◌, ◌≢◌, refl, sym, ◌∙◌, ap, List, [], ◌∷◌,
  arith, ◌==◌, eq_iff, eq_refl, Bool-cases, inl, inr, if◌then◌else◌, contains, discard,
  contains-discard, sorted, to_set, subst, concat, resource_busy, Result, ok, raise, Error,
  ok-injective, ok≢raise,
}
use brainless_agent.Common.Dict.{get, put, pop, get-put, get-pop}
use brainless_agent.Autonomy.Locks.{
  Locks, new_locks, owned_by, take_all, give_back, release_all, or_release, acquire, owned,
  free_all, release_agent,
}

-- The same locks are held, by the same owners.
pub record SameLocks (l l' : Locks) : Type 0 where
  pub held : (j : String) → contains j l'.locked ≡ contains j l.locked
  pub owner : (j : String) → get j l'.owners ≡ get j l.owners

-- Only a held lock has an owner.
pub record IsConsistent (l : Locks) : Type 0 where
  pub consistent : (j : String) → contains j l.locked ≡ false → get j l.owners ≡ none

held-give_back :
    (a r j : String) (l : Locks)
    → contains j (give_back a r l).locked ≡ (not (r == j) && contains j l.locked)
held-give_back a r j l = elim (Bool-cases (contains r l.locked)) [
  | inl locked ↦ ground (arith, locked, contains-discard r j l.locked)
  | inr free ↦ ground (arith, free, eq_iff r j)
]

owner-give_back :
    (a r j : String) (l : Locks)
    → get j (give_back a r l).owners
      ≡ (if (r == j) && owned_by a (get r l.owners) then none else get j l.owners)
owner-give_back a r j l = elim (Bool-cases (owned_by a (get r l.owners))) [
  | inl mine ↦ ground (arith, mine, get-pop r j l.owners)
  | inr other ↦ ground (arith, other)
]

give_back-Same :
    (a r : String) (l l' : Locks) → SameLocks l l' → SameLocks (give_back a r l) (give_back a r l')
give_back-Same a r l l' s = record {
  held = λ j.
      held-give_back a r j l'
      ∙ ap (λ b. not (r == j) && b) (s.held j)
      ∙ sym (held-give_back a r j l);
  owner = λ j.
      owner-give_back a r j l'
      ∙ ground (arith, s.owner j, s.owner r)
      ∙ sym (owner-give_back a r j l);
}

release_all-Same :
    (a : String) (taken : List String) (l l' : Locks)
    → SameLocks l l'
    → SameLocks (release_all a taken l) (release_all a taken l')
unfolding release_all
release_all-Same a [] l l' s = s
release_all-Same a (r ∷ taken) l l' s =
    release_all-Same a taken (give_back a r l) (give_back a r l') (give_back-Same a r l l' s)

abbrev take_one : String → String → Locks → Locks
take_one a r l = record { locked = r ∷ l.locked; owners = put r a l.owners }

take_one-IsConsistent : (a r : String) (l : Locks) → IsConsistent l → IsConsistent (take_one a r l)
unfolding contains
take_one-IsConsistent a r l c = record {
  consistent = λ j free.
      ground (arith, free, get-put r j a l.owners, eq_iff r j, eq_iff j r, c.consistent j);
}

take_one-back :
    (a r : String) (l : Locks)
    → IsConsistent l
    → contains r l.locked ≡ false
    → SameLocks l (give_back a r (take_one a r l))
unfolding contains
take_one-back a r l c free = record {
  held = λ j. held-give_back a r j (take_one a r l) ∙ ground (arith, free, eq_iff r j, eq_iff j r);
  owner = λ j.
      owner-give_back a r j (take_one a r l)
      ∙ ground (
        arith,
        free,
        get-put r r a l.owners,
        get-put r j a l.owners,
        eq_refl r,
        eq_refl a,
        eq_iff r j,
        c.consistent j,
        c.consistent r,
      );
}

SameLocks-then : {l m n : Locks} → SameLocks l m → SameLocks m n → SameLocks l n
SameLocks-then s t = record { held = λ j. t.held j ∙ s.held j; owner = λ j. t.owner j ∙ s.owner j }

-- What the loop took, given back, leaves the locks as they were in `l0`.
abbrev Back : String → Locks → Result (Unit {0}) × List String × Locks → Type 0
Back a l0 (result, taken, l) = SameLocks l0 (release_all a taken l)

take_all-Back :
    (a : String) (taken rest : List String) (l l0 : Locks)
    → IsConsistent l
    → Back a l0 (ok tt, taken, l)
    → Back a l0 (take_all a taken rest l)
unfolding take_all release_all
take_all-Back a taken [] l l0 c s = s
take_all-Back a taken (r ∷ rest) l l0 c s =
    go (contains r l.locked) (take_all a (r ∷ taken) rest (take_one a r l))
      (λ free.
        take_all-Back a (r ∷ taken) rest (take_one a r l) l0 (take_one-IsConsistent a r l c) (
          SameLocks-then s (
            release_all-Same a taken l (give_back a r (take_one a r l))
              (take_one-back a r l c free))))
      refl
  where
    go :
        (b : Bool) (more : Result (Unit {0}) × List String × Locks)
        → (contains r l.locked ≡ false → Back a l0 more)
        → contains r l.locked ≡ b
        → Back a l0 (
            if b
            then (raise (resource_busy (concat "Timed out waiting for resource " r)), taken, l)
            else more)
    go true more h e = s
    go false more h e = h e

-- What `acquire` takes, it gives back: with locks of which only the held ones have an owner, an
-- `acquire` that raises leaves the same locks held by the same owners, and so does one that
-- returns, once `finally` has run through what it returned.
pub acquire-release :
    (a : String) (resources : List String) (l : Locks)
    → IsConsistent l
    → ((taken : List String)
        → (acquire a resources l).0 ≡ ok taken
        → SameLocks l (release_all a taken (acquire a resources l).1))
      × ((e : Error) → (acquire a resources l).0 ≡ raise e → SameLocks l (acquire a resources l).1)
unfolding acquire release_all
acquire-release a resources l c = go (take_all a [] (sorted (to_set resources)) l) (
    take_all-Back a [] (sorted (to_set resources)) l l c
      (record { held = λ j. refl; owner = λ j. refl }))
  where
    go :
        (o : Result (Unit {0}) × List String × Locks)
        → Back a l o
        → ((taken : List String)
            → (or_release a o).0 ≡ ok taken
            → SameLocks l (release_all a taken (or_release a o).1))
          × ((e : Error) → (or_release a o).0 ≡ raise e → SameLocks l (or_release a o).1)
    go (ok u, taken, m) h = (
      λ t e. subst (λ x. SameLocks l (release_all a x m)) (ok-injective e) h,
      λ x e. absurd (ok≢raise (sym e)),
    )
    go (raise x, taken, m) h = (λ t e. absurd (ok≢raise e), λ y e. h)

-- A lock that is taken from its holder: after `release_agent a` on the locks that `a` holds, `b`
-- acquires the resource, and the `finally` of `a` releases the lock that `b` holds, which goes on
-- being its owner.
pub release_agent-breaks :
    (a b r : String)
    → a ≢ b
    → let held = (acquire a (r ∷ []) new_locks).1 in
      let freed = (release_agent a held).1 in
      let taken = (acquire b (r ∷ []) freed).1 in
      let after = release_all a (r ∷ []) taken in
      (contains r taken.locked ≡ true)
      × (contains r after.locked ≡ false)
      × (get r after.owners ≡ some b)
unfolding acquire release_agent owned free_all take_all release_all contains discard get put pop
    sorted to_set
release_agent-breaks a b r apart =
    let held = (acquire a (r ∷ []) new_locks).1 in
    let freed : (release_agent a held).1 ≡ new_locks = rw (eq_refl a, eq_refl r) refl in
    subst
      (λ l.
        let taken = (acquire b (r ∷ []) l).1 in
        let after = release_all a (r ∷ []) taken in
        (contains r taken.locked ≡ true)
        × (contains r after.locked ≡ false)
        × (get r after.owners ≡ some b))
      (sym freed)
      (
        ground (arith, eq_refl r),
        ground (arith, eq_refl r),
        ground (arith, eq_refl r, eq_iff b a, apart),
      )
