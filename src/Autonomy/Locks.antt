-- ===== src/Autonomy/Locks.antt =====
-- app/autonomy/resources.py: locks on resources, taken in the order of their names. `locked` lists
-- the resources whose `asyncio.Lock` is held. A wait for a lock ends when it is free, so a call here
-- is one whose waits are over: it finds the lock free, or the time is up.
pub mod Cleanup
use brainless_agent.Common.{
  String, concat, Bool, true, false, Option, none, some, List, [], ◌∷◌, ◌==◌, if◌then◌else◌,
  contains, discard, sorted, to_set, Result, ok, raise, resource_busy,
}
use brainless_agent.Common.Dict.{Dict, get, put, pop, keys}

pub record Locks : Type 0 where
  pub locked : List String
  pub owners : Dict String

abbrev pub new_locks : Locks
new_locks = record { locked = []; owners = [] }

-- `self._owners.get(resource) == agent_id`
abbrev pub owned_by : String → Option String → Bool
owned_by agent_id none = false
owned_by agent_id (some owner) = owner == agent_id

-- The loop of `acquire`: the resources taken, newest first, also where it raises.
unfoldable pub take_all :
    (agent_id : String) (taken : List String)
    → List String
    → Locks
    → Result (Unit {0}) × List String × Locks
take_all agent_id taken [] locks = (ok tt, taken, locks)
take_all agent_id taken (resource ∷ rest) locks =
    if contains resource locks.locked
    then (raise (resource_busy (concat "Timed out waiting for resource " resource)), taken, locks)
    else take_all agent_id (resource ∷ taken) rest
        (record { locked = resource ∷ locks.locked; owners = put resource agent_id locks.owners })

-- The body of the loop in `finally`.
abbrev pub give_back : String → String → Locks → Locks
give_back agent_id resource locks = record {
  locked = if contains resource locks.locked then discard resource locks.locked else locks.locked;
  owners =
      if owned_by agent_id (get resource locks.owners)
      then pop resource locks.owners
      else locks.owners;
}

unfoldable pub release_all : String → List String → Locks → Locks
release_all agent_id [] locks = locks
release_all agent_id (resource ∷ rest) locks =
    release_all agent_id rest (give_back agent_id resource locks)

abbrev pub or_release :
    String → Result (Unit {0}) × List String × Locks → Result (List String) × Locks
or_release agent_id (ok u, taken, locks) = (ok taken, locks)
or_release agent_id (raise e, taken, locks) = (raise e, release_all agent_id taken locks)

-- `acquire` up to its `yield`; what it returns is the list that `finally` runs through.
unfoldable pub acquire :
    (agent_id : String) (resources : List String) → Locks → Result (List String) × Locks
unfolding take_all release_all
acquire agent_id resources locks =
    or_release agent_id (take_all agent_id [] (sorted (to_set resources)) locks)

-- The comprehension of `release_agent`
unfoldable pub owned : String → Dict String → List String
owned agent_id [] = []
owned agent_id ((resource, owner) ∷ rest) =
    if owner == agent_id then resource ∷ owned agent_id rest else owned agent_id rest

-- The loop of `release_agent`, which does not look at the owner again.
unfoldable pub free_all : List String → Locks → Locks
free_all [] locks = locks
free_all (resource ∷ rest) locks = free_all rest (record {
  locked = if contains resource locks.locked then discard resource locks.locked else locks.locked;
  owners = pop resource locks.owners;
})

unfoldable pub release_agent : String → Locks → List String × Locks
unfolding owned free_all
release_agent agent_id locks =
    let released = owned agent_id locks.owners in (released, free_all released locks)
