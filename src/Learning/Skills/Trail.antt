-- ===== src/Learning/Skills/Trail.antt =====
-- The audit of a skill tells how it came to its status.
use brainless_agent.Common.{
  String, true, false, ◌==◌, Option, none, some, ◌≡◌, refl, sym, ◌∙◌, ap, subst, inl, inr, List, [],
  ◌∷◌, ◌++◌, is_empty, if◌then◌else◌, arith, Bool-cases, Option-cases, Result, ok, raise, throw,
  pure, some-injective, none≢some,
}
use brainless_agent.Common.Dict.{Dict, get, put, modify, get-put, get-modify}
use brainless_agent.Learning.Skills.{
  SkillStatus, Skill, SkillRow, AuditEvent, SkillRegistry, no_skills, status_value, events_of,
  is_evaluated, is_same, may_become, audit_trail, is_taken, register, change_status, set_status,
  approve_tested, approve, fetch, insert, move, update_status, payload_of, row_of,
}
use text.Mathlib.TextEquality.{eq_iff}

-- A life of a skill: what the audit says of it, and the status that it has then.
pub data Earned : List AuditEvent → SkillStatus → Type 0 where
  created :
      (e : AuditEvent) (s : SkillStatus)
      → e.event ≡ "created"
      → is_evaluated s ≡ false
      → Earned (e ∷ []) s
  moved :
      (es : List AuditEvent) (e : AuditEvent) (s t : SkillStatus)
      → Earned es s
      → may_become s t ≡ true
      → e.event ≡ status_value t
      → Earned (es ++ e ∷ []) t

pub record Accounted {V : Type 0} (r : SkillRegistry V) : Type 0 where
  pub column :
      (k : String) (row : SkillRow V) → get k r.skills ≡ some row → row.status ≡ row.payload.status
  pub earned :
      (k : String) (row : SkillRow V)
      → get k r.skills ≡ some row
      → Earned (audit_trail k r) row.payload.status
  pub silent : (k : String) → get k r.skills ≡ none → audit_trail k r ≡ []

-- One more row of the audit.
events_of-append :
    (k j : String) (e : AuditEvent) (rows : List (String × AuditEvent))
    → events_of k (rows ++ (j, e) ∷ [])
      ≡ (if j == k then events_of k rows ++ e ∷ [] else events_of k rows)
unfolding events_of
events_of-append k j e [] = ground arith
events_of-append k j e ((i, f) ∷ rows) = elim (Bool-cases (j == k)) [
  | inl here ↦ ground (arith, here, events_of-append k j e rows)
  | inr other ↦ ground (arith, other, events_of-append k j e rows)
]

events_here :
    (k j : String) (e : AuditEvent) (rows : List (String × AuditEvent))
    → (j == k) ≡ true
    → events_of k (rows ++ (j, e) ∷ []) ≡ events_of k rows ++ e ∷ []
events_here k j e rows here = events_of-append k j e rows ∙ rw here refl

events_other :
    (k j : String) (e : AuditEvent) (rows : List (String × AuditEvent))
    → (j == k) ≡ false
    → events_of k (rows ++ (j, e) ∷ []) ≡ events_of k rows
events_other k j e rows other = events_of-append k j e rows ∙ rw other refl

Earned-at : {es fs : List AuditEvent} {s : SkillStatus} → fs ≡ es → Earned es s → Earned fs s
Earned-at {es} {fs} {s} e = subst (λ (x : List AuditEvent). Earned x s) (sym e)

module _ {V : Type 0} where
  get-put_here :
      (k : String) (v : SkillRow V) (d : Dict (SkillRow V)) (row : SkillRow V) (j : String)
      → (k == j) ≡ true
      → get j (put k v d) ≡ some row
      → v ≡ row
  get-put_here k v d row j here e = some-injective (sym (get-put k j v d ∙ rw here refl) ∙ e)

  get-put_other :
      (k : String) (v : SkillRow V) (d : Dict (SkillRow V)) (o : Option (SkillRow V)) (j : String)
      → (k == j) ≡ false
      → get j (put k v d) ≡ o
      → get j d ≡ o
  get-put_other k v d o j other e = sym (get-put k j v d ∙ rw other refl) ∙ e

  insert-Accounted :
      (now : String) (skill : Skill V) (r : SkillRegistry V)
      → is_evaluated skill.status ≡ false
      → get skill.skill_id r.skills ≡ none
      → Accounted r
      → Accounted (insert now skill r)
  insert-Accounted now skill r unearned fresh a = record {
    column = λ k row e. elim (Bool-cases (skill.skill_id == k)) [
      | inl here ↦
          subst (λ (x : SkillRow V). x.status ≡ x.payload.status)
            (get-put_here skill.skill_id (row_of skill) r.skills row k here e) refl
      | inr other ↦
          a.column k row (get-put_other skill.skill_id (row_of skill) r.skills (some row) k other e)
    ];
    earned = λ k row e. elim (Bool-cases (skill.skill_id == k)) [
      | inl here ↦
          let at : skill.skill_id ≡ k = (eq_iff skill.skill_id k).0 here in
          let none_yet : events_of k r.audit ≡ [] =
            a.silent k (subst (λ (x : String). get x r.skills ≡ none) at fresh) in
          Earned-at
            (events_here k skill.skill_id first_event r.audit here
              ∙ ap (λ (x : List AuditEvent). x ++ first_event ∷ []) none_yet)
            (subst (λ (x : SkillRow V). Earned (first_event ∷ []) x.payload.status)
              (get-put_here skill.skill_id (row_of skill) r.skills row k here e)
              (created first_event skill.status refl unearned))
      | inr other ↦ Earned-at (events_other k skill.skill_id first_event r.audit other) (
          a.earned k row
            (get-put_other skill.skill_id (row_of skill) r.skills (some row) k other e))
    ];
    silent = λ k e. elim (Bool-cases (skill.skill_id == k)) [
      | inl here ↦ absurd (
          none≢some {a = row_of skill}
            (sym e ∙ get-put skill.skill_id k (row_of skill) r.skills ∙ rw here refl))
      | inr other ↦
          events_other k skill.skill_id first_event r.audit other
          ∙ a.silent k (get-put_other skill.skill_id (row_of skill) r.skills none k other e)
    ];
  }
    where
      first_event : AuditEvent
      first_event = record {
        event = "created";
        actor = "system";
        reason = "registered candidate";
        created_at = now;
      }

  is_taken-fresh :
      (skill : Skill V) (skills : Dict (SkillRow V))
      → is_taken skill skills ≡ false
      → get skill.skill_id skills ≡ none
  unfolding is_taken
  is_taken-fresh skill skills free = ground (arith, free)

  pub register-Accounted :
      (now : String) (skill : Skill V) (r : SkillRegistry V)
      → Accounted r
      → Accounted (register now skill r).1
  unfolding register throw pure
  register-Accounted now skill r a = elim (Bool-cases (is_evaluated skill.status)) [
    | inl evaluated ↦ rw evaluated a
    | inr unearned ↦ elim (Bool-cases (is_empty skill.workflow)) [
      | inl empty ↦ rw (unearned, empty) a
      | inr steps ↦ elim (Bool-cases (is_taken skill r.skills)) [
        | inl taken ↦ rw (unearned, steps, taken) a
        | inr free ↦
            rw (unearned, steps, free)
              (insert-Accounted now skill r unearned (is_taken-fresh skill r.skills free) a)
      ]
    ]
  ]

  get-modify_here :
      (k : String) (f : SkillRow V → SkillRow V) (d : Dict (SkillRow V)) (row : SkillRow V)
      (j : String)
      → (k == j) ≡ true
      → get j (modify k f d) ≡ some row
      → (old : SkillRow V) × (get j d ≡ some old) × (f old ≡ row)
  get-modify_here k f d row j here e = elim (Option-cases (get j d)) [
    | inl absent ↦ absurd (none≢some (sym (get-modify k j f d ∙ rw (here, absent) refl) ∙ e))
    | inr (old, found) ↦
        (old, found, some-injective (sym (get-modify k j f d ∙ rw (here, found) refl) ∙ e))
  ]

  get-modify_other :
      (k : String) (f : SkillRow V → SkillRow V) (d : Dict (SkillRow V)) (o : Option (SkillRow V))
      (j : String)
      → (k == j) ≡ false
      → get j (modify k f d) ≡ o
      → get j d ≡ o
  get-modify_other k f d o j other e = sym (get-modify k j f d ∙ rw other refl) ∙ e

  move-Accounted :
      (now k : String) (status : SkillStatus) (actor reason : String) (r : SkillRegistry V)
      (row : SkillRow V)
      → get k r.skills ≡ some row
      → may_become row.payload.status status ≡ true
      → Accounted r
      → Accounted (move now k status actor reason r)
  move-Accounted now k status actor reason r row found may a = record {
    column = λ j new e. elim (Bool-cases (k == j)) [
      | inl here ↦
          let (old, at, same) = get-modify_here k (update_status status) r.skills new j here e in
          subst (λ (x : SkillRow V). x.status ≡ x.payload.status) same refl
      | inr other ↦
          a.column j new (get-modify_other k (update_status status) r.skills (some new) j other e)
    ];
    earned = λ j new e. elim (Bool-cases (k == j)) [
      | inl here ↦
          let (old, at, same) = get-modify_here k (update_status status) r.skills new j here e in
          let is_row : row ≡ old = some-injective (
            sym found
            ∙ subst (λ (x : String). get x r.skills ≡ some old) (sym ((eq_iff k j).0 here)) at) in
          Earned-at (events_here j k last_event r.audit here) (
            subst
              (λ (x : SkillRow V). Earned (events_of j r.audit ++ last_event ∷ []) x.payload.status)
              same
              (moved (events_of j r.audit) last_event old.payload.status status (a.earned j old at)
                (subst (λ (x : SkillRow V). may_become x.payload.status status ≡ true) is_row may)
                refl))
      | inr other ↦
          Earned-at (events_other j k last_event r.audit other) (
            a.earned j new
              (get-modify_other k (update_status status) r.skills (some new) j other e))
    ];
    silent = λ j e. elim (Bool-cases (k == j)) [
      | inl here ↦
          let at : get j r.skills ≡ some row =
            subst (λ (x : String). get x r.skills ≡ some row) ((eq_iff k j).0 here) found in
          absurd (
            none≢some {a = update_status status row}
              (sym e ∙ get-modify k j (update_status status) r.skills ∙ rw (here, at) refl))
      | inr other ↦
          events_other j k last_event r.audit other
          ∙ a.silent j (get-modify_other k (update_status status) r.skills none j other e)
    ];
  }
    where
      last_event : AuditEvent
      last_event = record {
        event = status_value status;
        actor = actor;
        reason = reason;
        created_at = now;
      }

  pub set_status-Accounted :
      (now k : String) (status : SkillStatus) (actor reason : String) (r : SkillRegistry V)
      → Accounted r
      → Accounted (set_status now k status actor reason r).1
  unfolding set_status change_status fetch throw pure
  set_status-Accounted now k status actor reason r a = go (get k r.skills) refl
    where
      go :
          (o : Option (SkillRow V))
          → get k r.skills ≡ o
          → Accounted (change_status now k status actor reason (payload_of o) r).1
      go none e = a
      go (some row) e = elim (Bool-cases (may_become row.payload.status status)) [
        | inl may ↦ rw may (move-Accounted now k status actor reason r row e may a)
        | inr not_now ↦ rw not_now a
      ]

  pub approve-Accounted :
      (now k actor reason : String) (r : SkillRegistry V)
      → Accounted r
      → Accounted (approve now k actor reason r).1
  unfolding approve approve_tested throw
  approve-Accounted now k actor reason r a = go (fetch k r)
    where
      go : (o : Result (Skill V)) → Accounted (approve_tested now k actor reason o r).1
      go (raise e) = a
      go (ok skill) = elim (Bool-cases (is_same skill.status SkillStatus.tested)) [
        | inl tested ↦ rw tested (set_status-Accounted now k SkillStatus.verified actor reason r a)
        | inr other ↦ rw other a
      ]

  pub no_skills-Accounted : Accounted {V = V} no_skills
  unfolding get events_of
  no_skills-Accounted = record {
    column = λ k row e. absurd (none≢some e);
    earned = λ k row e. absurd (none≢some e);
    silent = λ k e. refl;
  }
