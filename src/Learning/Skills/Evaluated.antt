-- ===== src/Learning/Skills/Evaluated.antt =====
-- The calls of the registry in any order, and what the audit says of a skill after them.
use brainless_agent.Common.{
  String, Bool, true, false, ◌||◌, ◌==◌, some, ◌≡◌, refl, sym, ◌∙◌, subst, ◌⊎◌, inl, inr, List, [],
  ◌∷◌, ◌++◌, any, arith, Bool-cases,
}
use brainless_agent.Common.Dict.{get}
use brainless_agent.Learning.Skills.{
  SkillStatus, Skill, SkillRow, AuditEvent, SkillRegistry, no_skills, status_value, is_evaluated,
  may_become, audit_trail, register, set_status, approve,
}
use brainless_agent.Learning.Skills.Trail.{
  Earned, created, moved, Accounted, register-Accounted, set_status-Accounted, approve-Accounted,
  no_skills-Accounted,
}

-- The calls that change a registry; `reject` and `deprecate` are calls of `set_status`.
pub data Call (V : Type 0) : Type 0 where
  registers : (now : String) → Skill V → Call V
  sets_status : (now skill_id : String) → SkillStatus → (actor reason : String) → Call V
  approves : (now skill_id actor reason : String) → Call V

unfoldable pub call : {V : Type 0} → Call V → SkillRegistry V → SkillRegistry V
unfolding register set_status approve
call (registers now skill) r = (register now skill r).1
call (sets_status now skill_id status actor reason) r =
    (set_status now skill_id status actor reason r).1
call (approves now skill_id actor reason) r = (approve now skill_id actor reason r).1

unfoldable pub calls : {V : Type 0} → List (Call V) → SkillRegistry V → SkillRegistry V
unfolding call
calls [] r = r
calls (c ∷ cs) r = calls cs (call c r)

call-Accounted :
    {V : Type 0} (c : Call V) (r : SkillRegistry V) → Accounted r → Accounted (call c r)
unfolding call
call-Accounted (registers now skill) r a = register-Accounted now skill r a
call-Accounted (sets_status now skill_id status actor reason) r a =
    set_status-Accounted now skill_id status actor reason r a
call-Accounted (approves now skill_id actor reason) r a =
    approve-Accounted now skill_id actor reason r a

calls-Accounted :
    {V : Type 0} (cs : List (Call V)) (r : SkillRegistry V) → Accounted r → Accounted (calls cs r)
unfolding calls
calls-Accounted [] r a = a
calls-Accounted (c ∷ cs) r a = calls-Accounted cs (call c r) (call-Accounted c r a)

abbrev pub says_verified : AuditEvent → Bool
says_verified e = e.event == "verified"

any-append :
    (es : List AuditEvent) (e : AuditEvent)
    → any (es ++ e ∷ []) says_verified ≡ (any es says_verified || says_verified e)
unfolding any
any-append [] e = ground arith
any-append (f ∷ es) e = ground (arith, any-append es e)

-- The way into the evaluated statuses is the status verified.
entered :
    (s t : SkillStatus)
    → may_become s t ≡ true
    → is_evaluated t ≡ true
    → (is_evaluated s ≡ true) ⊎ (status_value t ≡ "verified")
unfolding may_become any
entered s SkillStatus.verified may e = inr refl
entered SkillStatus.verified SkillStatus.trusted may e = inl refl
entered SkillStatus.trusted SkillStatus.trusted may e = inl refl
entered SkillStatus.untrusted SkillStatus.trusted may e = cc
entered SkillStatus.candidate SkillStatus.trusted may e = cc
entered SkillStatus.tested SkillStatus.trusted may e = cc
entered SkillStatus.rejected SkillStatus.trusted may e = cc
entered SkillStatus.deprecated SkillStatus.trusted may e = cc
entered s SkillStatus.untrusted may e = cc
entered s SkillStatus.candidate may e = cc
entered s SkillStatus.tested may e = cc
entered s SkillStatus.rejected may e = cc
entered s SkillStatus.deprecated may e = cc

Earned-verified :
    (es : List AuditEvent) (s : SkillStatus)
    → Earned es s
    → is_evaluated s ≡ true
    → any es says_verified ≡ true
Earned-verified es t (created e s at unearned) evaluated = cc
Earned-verified es u (moved old e s t before may at) evaluated = elim (entered s t may evaluated) [
  | inl earlier ↦ any-append old e ∙ rw (Earned-verified old s before earlier) refl
  | inr now ↦ any-append old e ∙ rw (at, now) (ground arith)
]

-- After any calls on a new registry, each skill has its status in both columns, the audit of the
-- skill is a life that starts with its registration and takes allowed steps to this status, and
-- where the status is verified or trusted the audit has an event that says so.
pub calls-Earned :
    {V : Type 0} (cs : List (Call V)) (k : String) (row : SkillRow V)
    → get k (calls cs no_skills).skills ≡ some row
    → (row.status ≡ row.payload.status)
      × Earned (audit_trail k (calls cs no_skills)) row.status
      × ((is_evaluated row.status ≡ false)
          ⊎ (any (audit_trail k (calls cs no_skills)) says_verified ≡ true))
calls-Earned {V} cs k row e =
    let a = calls-Accounted cs no_skills (no_skills-Accounted {V = V}) in
    let life =
      subst (λ (x : SkillStatus). Earned (audit_trail k (calls cs no_skills)) x)
        (sym (a.column k row e)) (a.earned k row e) in
    (
      a.column k row e,
      life,
      elim (Bool-cases (is_evaluated row.status)) [
        | inl evaluated ↦
            inr (Earned-verified (audit_trail k (calls cs no_skills)) row.status life evaluated)
        | inr other ↦ inl other
      ],
    )
