-- ===== src/Learning/Skills/Samples.antt =====
-- Two skills and their lives.
use brainless_agent.Common.{
  contains, pure, throw, keep, disjoint, ℕ, String, true, false, none, some, ◌≡◌, refl, ◌⊎◌, List,
  [], ◌∷◌, any, ok, raise, value_error, type_error, type_error, external,
}
use brainless_agent.Common.Dict.{get, put, modify, values}
use brainless_agent.Learning.Skills.{
  SkillStatus, Skill, SkillRow, SkillRegistry, no_skills, is_evaluated, audit_trail, register,
  approve, set_status, search, list_skills, payloads, candidates,
}
use brainless_agent.Learning.Skills.Trail.{Earned}
use brainless_agent.Learning.Skills.Evaluated.{
  Call, registers, sets_status, approves, calls, says_verified, calls-Earned,
}

abbrev skill : String → SkillStatus → Skill ℕ
skill name status = record {
  name = name;
  description = "fill in a form";
  required_capabilities = [];
  required_permissions = [];
  workflow = (("tool", 1) ∷ []) ∷ [];
  expected_outcomes = [];
  version = 1;
  status = status;
  preconditions = [];
  failure_modes = [];
  recovery_strategy = "reobserve";
  verification_strategy = "runtime_goal_verifier";
  risk_level = "low";
  success_metrics = [];
  source_experience_id = none;
  evaluation = [];
  skill_id = name;
}

-- A candidate that is tested, approved and trusted.
abbrev career : List (Call ℕ)
career =
    registers "1" (skill "form" SkillStatus.candidate)
    ∷ sets_status "2" "form" SkillStatus.trusted "system" "too early"
    ∷ sets_status "3" "form" SkillStatus.tested "evaluator" "passed"
    ∷ approves "4" "form" "ann" "looks right"
    ∷ sets_status "5" "form" SkillStatus.trusted "ann" "used well"
    ∷ []

abbrev after : SkillRegistry ℕ
after = calls career no_skills

abbrev trusted_row : SkillRow ℕ
trusted_row = record {
  name = "form";
  version = 1;
  status = SkillStatus.trusted;
  payload = skill "form" SkillStatus.trusted;
}

found : get "form" after.skills ≡ some trusted_row
unfolding get calls put modify values pure throw
found = refl

calls-Earned_example :
    (SkillStatus.trusted ≡ SkillStatus.trusted)
    × Earned (audit_trail "form" after) SkillStatus.trusted
    × ((is_evaluated SkillStatus.trusted ≡ false)
        ⊎ (any (audit_trail "form" after) says_verified ≡ true))
calls-Earned_example = calls-Earned career "form" trusted_row found

-- A skill may enter as tested; then an approval verifies it without an evaluation.
entered_as_tested :
    (approve "2" "form" "ann" "ok" (register "1" (skill "form" SkillStatus.tested) no_skills).1).0
    ≡ ok tt
unfolding register approve get put modify values pure throw
entered_as_tested = refl

no_way_back :
    (set_status "6" "form" SkillStatus.candidate "system" "again" after).0
    ≡ raise (value_error "Invalid skill lifecycle transition: trusted -> candidate")
unfolding set_status get calls put modify values pure throw
no_way_back = refl

unknown_skill :
    (approve "6" "other" "ann" "ok" after).0
    ≡ raise (type_error "'NoneType' object is not subscriptable")
unfolding approve get calls put modify values pure throw
unknown_skill = refl

same_version :
    (register "6" (skill "form" SkillStatus.candidate) after).0
    ≡ raise (external "UNIQUE constraint failed")
unfolding register get calls put modify values pure throw
same_version = refl

-- The only term of a text is "form".
search_trusted :
    search (λ s. "form" ∷ []) "a form" (SkillStatus.verified ∷ SkillStatus.trusted ∷ []) after
    ≡ trusted_row.payload ∷ []
unfolding search calls get put modify values pure throw keep any disjoint contains list_skills
    payloads
search_trusted = refl

no_candidates : candidates after ≡ []
unfolding candidates calls get put modify values pure throw keep any disjoint list_skills payloads
no_candidates = refl
