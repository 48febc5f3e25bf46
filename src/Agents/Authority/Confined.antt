-- ===== src/Agents/Authority/Confined.antt =====
-- The invariant of the hierarchy, and the changes of single agents that keep it.
use brainless_agent.Common.{
  Bool, false, Option, List, ap, some-injective, All, All-map, String, true, none, some, ◌≡◌, refl,
  sym, ◌∙◌, subst, ◌⊎◌, inl, inr, contains, pure,
}
use brainless_agent.Common.Dict.{values, get, get-modify_back, get-modify_forth}
use brainless_agent.Common.Keeps.{Keeps}
use brainless_agent.Safety.Leases.{Registry, CapabilityLease}
use brainless_agent.Agents.Frames.{SameAuthority}
use brainless_agent.Agents.Models.{Agent}
use brainless_agent.Agents.Manager.{Manager, change}

abbrev pub Holds : Agent → String → Type 0
Holds a p = contains p a.permissions ≡ true

abbrev pub IsRoot : Agent → Type 0
IsRoot a = a.parent_agent_id ≡ none

-- Some root of `m` holds the permission.
abbrev pub RootHas : Manager → String → Type 0
RootHas m p = (j : String) × (r : Agent) × (get j m.agents ≡ some r) × IsRoot r × Holds r p

-- Every permission that is leased is held by the root.
abbrev pub Backed : Manager → Registry → Type 0
Backed m leases = All (λ (l : CapabilityLease). RootHas m l.permission) (values leases)

-- A root and the permissions that it was given, or nothing known of it.
abbrev pub Base : Type 0
Base = Option (String × List String)

-- There is one root where there is an agent, no agent holds a permission that it lacks, no
-- lease gives one, and the root of `base` has the permissions that it was given there, no more and
-- no fewer.
pub record IsConfined (base : Base) (m : Manager) : Type 0 where
  pub keyed : (i : String) (a : Agent) → get i m.agents ≡ some a → a.agent_id ≡ i
  pub unique :
      (i j : String) (a b : Agent)
      → get i m.agents ≡ some a
      → get j m.agents ≡ some b
      → IsRoot a
      → IsRoot b
      → i ≡ j
  pub rooted :
      (i : String) (a : Agent)
      → get i m.agents ≡ some a
      → (j : String) × (r : Agent) × (get j m.agents ≡ some r) × IsRoot r
  pub bounded :
      (i j : String) (a r : Agent) (p : String)
      → get i m.agents ≡ some a
      → get j m.agents ≡ some r
      → IsRoot r
      → Holds a p
      → Holds r p
  pub backed : Backed m m.leases
  pub kept :
      (i : String) (given : List String)
      → base ≡ some (i, given)
      → (r : Agent) × (get i m.agents ≡ some r)
        × IsRoot r
        × ((p : String) → contains p r.permissions ≡ contains p given)

-- Every root of `m` holds the permission.
abbrev pub RootsHold : Manager → String → Type 0
RootsHold m p = (j : String) (r : Agent) → get j m.agents ≡ some r → IsRoot r → Holds r p

-- `b` is `a` with the same place in the hierarchy and no permission that is new and not held by
-- the root; a root keeps its own.
pub record Narrowed (m : Manager) (a b : Agent) : Type 0 where
  pub same_id : b.agent_id ≡ a.agent_id
  pub same_parent : b.parent_agent_id ≡ a.parent_agent_id
  pub no_more : (p : String) → Holds b p → Holds a p ⊎ RootsHold m p
  pub root_keeps : IsRoot a → (p : String) → Holds a p → Holds b p

pub Narrowed-refl : (m : Manager) (a : Agent) → Narrowed m a a
Narrowed-refl m a = record {
  same_id = refl;
  same_parent = refl;
  no_more = λ p h. inl h;
  root_keeps = λ _ p h. h;
}

pub record Narrows (m n : Manager) : Type 0 where
  pub back :
      (i : String) (b : Agent)
      → get i n.agents ≡ some b
      → (a : Agent) × (get i m.agents ≡ some a) × Narrowed m a b
  pub forth :
      (i : String) (a : Agent)
      → get i m.agents ≡ some a
      → (b : Agent) × (get i n.agents ≡ some b) × Narrowed m a b
  pub leases : Backed m m.leases → Backed m n.leases

both_ways : (a b : Bool) → (a ≡ true → b ≡ true) → (b ≡ true → a ≡ true) → a ≡ b
both_ways true b f g = sym (f refl)
both_ways false true f g = g refl
both_ways false false f g = refl

-- Of a root that is there, all that it has is known.
pub based-IsConfined :
    (i : String) (r : Agent) (m : Manager)
    → get i m.agents ≡ some r
    → IsRoot r
    → IsConfined none m
    → IsConfined (some (i, r.permissions)) m
based-IsConfined i r m found top h = record {
  keyed = h.keyed;
  unique = h.unique;
  rooted = h.rooted;
  bounded = h.bounded;
  backed = h.backed;
  kept = λ j given e.
      let id : i ≡ j = ap (λ (x : String × List String). x.0) (some-injective e) in
      let perms : r.permissions ≡ given =
        ap (λ (x : String × List String). x.1) (some-injective e) in
      (r, subst (λ k. get k m.agents ≡ some r) id found, top, λ p. ap (contains p) perms);
}

module _ {base : Base} where
  pub Narrows-IsConfined : {m n : Manager} → Narrows m n → IsConfined base m → IsConfined base n
  Narrows-IsConfined {m} {n} c h = record {
    keyed = λ i b e. let (a, found, w) = c.back i b e in w.same_id ∙ h.keyed i a found;
    unique = λ i j b b' e e' top top'.
        let (a, found, w) = c.back i b e in
        let (a', found', w') = c.back j b' e' in
        h.unique i j a a' found found' (sym w.same_parent ∙ top) (sym w'.same_parent ∙ top');
    rooted = λ i b e.
        let (a, found, w) = c.back i b e in
        let (j, r, at, top) = h.rooted i a found in
        let (r', at', w') = c.forth j r at in (j, r', at', w'.same_parent ∙ top);
    bounded = λ i j b r' p e e' top held.
        let (a, found, w) = c.back i b e in
        let (r, found', w') = c.back j r' e' in
        let was_root : IsRoot r = sym w'.same_parent ∙ top in
        w'.root_keeps was_root p (elim (w.no_more p held) [
          | inl had ↦ h.bounded i j a r p found found' was_root had
          | inr all ↦ all j r found' was_root
        ]);
    backed =
        All-map
          (λ l root.
            let (j, r, found, top, held) = root in
            let (r', found', w) = c.forth j r found in
            (j, r', found', w.same_parent ∙ top, w.root_keeps top l.permission held))
          (values n.leases) (c.leases h.backed);
    kept = λ i given e.
        let (r, found, top, same) = h.kept i given e in
        let (r', found', w) = c.forth i r found in
        (
          r',
          found',
          w.same_parent ∙ top,
          λ p.
              both_ways (contains p r'.permissions) (contains p r.permissions)
                (λ held. elim (w.no_more p held) [ inl had ↦ had | inr all ↦ all i r found top ])
                (w.root_keeps top p)
              ∙ same p,
        );
  }

pub change-Narrows :
    (k : String) (f : Agent → Agent) (m : Manager)
    → ((a : Agent) → get k m.agents ≡ some a → Narrowed m a (f a))
    → Narrows m (change k f m).1
unfolding change pure
change-Narrows k f m n = record {
  back = λ i b e.
      let (a, found, how) = get-modify_back k f m.agents i e in
      (a, found, narrowed i a b found how);
  forth = λ i a e.
      let (b, found, how) = get-modify_forth k f m.agents i e in (b, found, narrowed i a b e how);
  leases = λ l. l;
}
  where
    narrowed :
        (i : String) (a b : Agent)
        → get i m.agents ≡ some a
        → (k ≡ i) × (b ≡ f a) ⊎ (b ≡ a)
        → Narrowed m a b
    narrowed i a b e (inl (here, new)) =
        subst (Narrowed m a) (sym new) (n a (subst (λ j. get j m.agents ≡ some a) (sym here) e))
    narrowed i a b e (inr same) = subst (Narrowed m a) (sym same) (Narrowed-refl m a)

module _ {base : Base} where
  -- A change of fields that have nothing to do with authority.
  pub change-IsConfined :
      (k : String) (f : Agent → Agent)
      → ((m : Manager) (a : Agent) → Narrowed m a (f a))
      → Keeps (IsConfined base) (change k f)
  change-IsConfined k f n = record {
    from = λ m h. Narrows-IsConfined (change-Narrows k f m (λ a _. n m a)) h;
  }

  -- Nothing but the table of agents and the leases matters.
  pub same_agents-IsConfined :
      {m n : Manager}
      → n.agents ≡ m.agents
      → Backed m n.leases
      → IsConfined base m
      → IsConfined base n
  same_agents-IsConfined {m} {n} e backed = Narrows-IsConfined (record {
    back = λ i b found. (b, subst (λ d. get i d ≡ some b) e found, Narrowed-refl m b);
    forth = λ i a found. (a, subst (λ d. get i d ≡ some a) (sym e) found, Narrowed-refl m a);
    leases = λ _. backed;
  })

  pub unchanged-IsConfined :
      {m n : Manager} → SameAuthority m n → IsConfined base m → IsConfined base n
  unchanged-IsConfined {m} same h =
      same_agents-IsConfined same.agents
        (same.leases (λ (l : CapabilityLease). RootHas m l.permission) h.backed) h
