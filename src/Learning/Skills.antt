-- ===== src/Learning/Skills.antt =====
-- `SkillRegistry` of app/learning/core.py: learned skills and the audit of their life. A table of
-- SQLite is the list of its rows in the order of insertion, and JSON gives a skill back as it was
-- written. A call that raises leaves no write behind that is committed later. `terms` is `_terms`.
mod Evaluated
mod Trail
mod Samples
use brainless_agent.Common.{
  ℕ, String, Bool, true, false, not, ◌&&◌, ◌||◌, ◌==◌, Option, none, some, List, [], ◌∷◌, ◌++◌,
  if◌then◌else◌, is_empty, any, keep, concat, disjoint, nat_eq, Exec, pure, throw, reads,
  value_error, type_error, external, Error, Result, ok, raise, ◌>>=◌,
}
use brainless_agent.Common.Dict.{Dict, get, put, modify, has, values}

pub data SkillStatus : Type 0 where
  untrusted candidate tested verified trusted rejected deprecated : SkillStatus

abbrev pub status_value : SkillStatus → String
status_value SkillStatus.untrusted = "untrusted"
status_value SkillStatus.candidate = "candidate"
status_value SkillStatus.tested = "tested"
status_value SkillStatus.verified = "verified"
status_value SkillStatus.trusted = "trusted"
status_value SkillStatus.rejected = "rejected"
status_value SkillStatus.deprecated = "deprecated"

pub record Skill (V : Type 0) : Type 0 where
  pub name : String
  pub description : String
  pub required_capabilities : List String
  pub required_permissions : List String
  pub workflow : List (Dict V)
  pub expected_outcomes : List String
  pub version : ℕ
  pub status : SkillStatus
  pub preconditions : Dict V
  pub failure_modes : List String
  pub recovery_strategy : String
  pub verification_strategy : String
  pub risk_level : String
  pub success_metrics : Dict V
  pub source_experience_id : Option String
  pub evaluation : Dict V
  pub skill_id : String

-- A row of the table `skills`, under its id.
pub record SkillRow (V : Type 0) : Type 0 where
  pub name : String
  pub version : ℕ
  pub status : SkillStatus
  pub payload : Skill V

-- A row of the table `skill_audit`, beside the id of its skill.
pub record AuditEvent : Type 0 where
  pub event : String
  pub actor : String
  pub reason : String
  pub created_at : String

pub record SkillRegistry (V : Type 0) : Type 0 where
  pub skills : Dict (SkillRow V)
  pub audit : List (String × AuditEvent)

abbrev pub no_skills : {V : Type 0} → SkillRegistry V
no_skills = record { skills = []; audit = [] }

-- `SELECT ... FROM skill_audit WHERE skill_id=? ORDER BY event_id`
unfoldable pub events_of : String → List (String × AuditEvent) → List AuditEvent
events_of skill_id [] = []
events_of skill_id ((k, e) ∷ rest) =
    if k == skill_id then e ∷ events_of skill_id rest else events_of skill_id rest

-- The statuses that a skill does not enter with
abbrev pub is_evaluated : SkillStatus → Bool
is_evaluated SkillStatus.trusted = true
is_evaluated SkillStatus.verified = true
is_evaluated status = false

-- `allowed` of `set_status`
abbrev pub allowed : SkillStatus → List SkillStatus
allowed SkillStatus.untrusted = SkillStatus.candidate ∷ SkillStatus.rejected ∷ []
allowed SkillStatus.candidate =
    SkillStatus.tested ∷ SkillStatus.verified ∷ SkillStatus.rejected ∷ SkillStatus.deprecated ∷ []
allowed SkillStatus.tested =
    SkillStatus.verified ∷ SkillStatus.rejected ∷ SkillStatus.deprecated ∷ []
allowed SkillStatus.verified = SkillStatus.trusted ∷ SkillStatus.deprecated ∷ []
allowed SkillStatus.trusted = SkillStatus.deprecated ∷ []
allowed SkillStatus.rejected = []
allowed SkillStatus.deprecated = []

-- `a is b`
abbrev pub is_same : SkillStatus → SkillStatus → Bool
is_same a b = status_value a == status_value b

unfoldable pub may_become : (old new : SkillStatus) → Bool
unfolding any
may_become old new = is_same new old || any (allowed old) (is_same new)

-- `_audit`
abbrev pub write_audit :
    (now skill_id event actor reason : String)
    → List (String × AuditEvent)
    → List (String × AuditEvent)
write_audit now skill_id event actor reason audit =
    audit
    ++ (skill_id, record { event = event; actor = actor; reason = reason; created_at = now }) ∷ []

module _ {V : Type 0} where
  abbrev pub audit_trail : String → SkillRegistry V → List AuditEvent
  audit_trail skill_id r = events_of skill_id r.audit

  -- A new row breaks `id TEXT PRIMARY KEY` or `UNIQUE(name, version)`.
  unfoldable pub is_taken : Skill V → Dict (SkillRow V) → Bool
  unfolding any
  is_taken skill skills =
      has skill.skill_id skills
      || any (values skills) (λ row. row.name == skill.name && nat_eq row.version skill.version)

  abbrev pub row_of : Skill V → SkillRow V
  row_of skill = record {
    name = skill.name;
    version = skill.version;
    status = skill.status;
    payload = skill;
  }

  -- The writes of `register`
  abbrev pub insert : (now : String) → Skill V → SkillRegistry V → SkillRegistry V
  insert now skill r = record {
    skills = put skill.skill_id (row_of skill) r.skills;
    audit = write_audit now skill.skill_id "created" "system" "registered candidate" r.audit;
  }

  unfoldable pub register : (now : String) → Skill V → Exec (SkillRegistry V) Unit
  unfolding is_taken
  register now skill r =
      if is_evaluated skill.status
      then throw (value_error "Learned skills must enter as candidates and be evaluated first") r
      else if is_empty skill.workflow
      then throw (value_error "A skill needs an executable workflow") r
      else if is_taken skill r.skills
      then throw (external "UNIQUE constraint failed") r
      else pure tt (insert now skill r)

  abbrev pub payload_of : Option (SkillRow V) → Result (Skill V)
  payload_of none = raise (type_error "'NoneType' object is not subscriptable")
  payload_of (some row) = ok row.payload

  unfoldable pub fetch : String → SkillRegistry V → Result (Skill V)
  fetch skill_id r = payload_of (get skill_id r.skills)

  -- `UPDATE skills SET status=?,payload_json=? WHERE id=?`
  abbrev pub update_status : SkillStatus → SkillRow V → SkillRow V
  update_status status row = record row {
    status = status;
    payload = record row.payload { status = status };
  }

  -- The writes of `set_status`
  abbrev pub move :
      (now skill_id : String)
      → SkillStatus
      → (actor reason : String) → SkillRegistry V
      → SkillRegistry V
  move now skill_id status actor reason r = record {
    skills = modify skill_id (update_status status) r.skills;
    audit = write_audit now skill_id (status_value status) actor reason r.audit;
  }

  unfoldable pub change_status :
      (now skill_id : String)
      → SkillStatus
      → (actor reason : String) → Result (Skill V)
      → Exec (SkillRegistry V) Unit
  unfolding may_become
  change_status now skill_id status actor reason (raise e) r = throw e r
  change_status now skill_id status actor reason (ok skill) r =
      if may_become skill.status status
      then pure tt (move now skill_id status actor reason r)
      else throw
          (value_error (
            concat "Invalid skill lifecycle transition: "
              (concat (status_value skill.status) (concat " -> " (status_value status)))))
          r

  unfoldable pub set_status :
      (now skill_id : String) → SkillStatus → (actor reason : String) → Exec (SkillRegistry V) Unit
  unfolding change_status fetch
  set_status now skill_id status actor reason r =
      change_status now skill_id status actor reason (fetch skill_id r) r

  unfoldable pub approve_tested :
      (now skill_id actor reason : String) → Result (Skill V) → Exec (SkillRegistry V) Unit
  unfolding set_status
  approve_tested now skill_id actor reason (raise e) r = throw e r
  approve_tested now skill_id actor reason (ok skill) r =
      if is_same skill.status SkillStatus.tested
      then set_status now skill_id SkillStatus.verified actor reason r
      else throw (value_error "Only sandbox-tested skills may be approved") r

  unfoldable pub approve : (now skill_id actor reason : String) → Exec (SkillRegistry V) Unit
  unfolding approve_tested
  approve now skill_id actor reason r =
      approve_tested now skill_id actor reason (fetch skill_id r) r

  abbrev pub reject : (now skill_id actor reason : String) → Exec (SkillRegistry V) Unit
  reject now skill_id actor reason = set_status now skill_id SkillStatus.rejected actor reason

  abbrev pub deprecate : (now skill_id actor reason : String) → Exec (SkillRegistry V) Unit
  deprecate now skill_id actor reason = set_status now skill_id SkillStatus.deprecated actor reason

  unfoldable pub payloads : List (SkillRow V) → List (Skill V)
  payloads [] = []
  payloads (row ∷ rows) = row.payload ∷ payloads rows

  -- `_all`
  unfoldable pub list_skills : SkillRegistry V → List (Skill V)
  unfolding payloads
  list_skills r = payloads (values r.skills)

  unfoldable pub candidates : SkillRegistry V → List (Skill V)
  unfolding list_skills
  candidates r = keep (λ skill. is_same skill.status SkillStatus.candidate) (list_skills r)

  -- `search`, with the statuses verified and trusted where none are given
  unfoldable pub search :
      (terms : String → List String) (goal : String) (statuses : List SkillStatus)
      → SkillRegistry V
      → List (Skill V)
  unfolding list_skills
  search terms goal statuses r =
      keep
        (λ skill.
          any statuses (is_same skill.status)
          && not (disjoint (terms goal) (terms (concat skill.name (concat " " skill.description)))))
        (list_skills r)
