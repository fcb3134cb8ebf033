-- ===== src/Preflight/InForce.antt =====
-- assertCurrentTaskApproval: what an approval that passes has shown.
use cmap.Common.{
  ℕ, ◌≤◌, ◌<◌, ◌≡◌, refl, Bool, true, false, String, ◌==◌, ==→eq, Option, none, some, arith, not,
  ◌||◌, &&_left, &&_right, Platform, ◌&&◌, trim, trim_start, trim_end, starts_with_any_case,
  earlier, not_later, inl, inr, ◌⊎◌,
}
use cmap.TaskState.{TaskState}
use cmap.Entities.{TaskRecord, RiskLevel, same_risk, needs_approval, read_meta, read_sensitive}
use cmap.Approval.{Approval, ApprovalDecision, approved, same_decision, is_time}
use cmap.Preflight.{is_current_approval, is_machine, text_or, is_dispatchable}

same_risk→eq : (a b : RiskLevel) → same_risk a b ≡ true → a ≡ b
same_risk→eq a b h = ground arith

same_decision→eq : (a b : ApprovalDecision) → same_decision a b ≡ true → a ≡ b
same_decision→eq a b h = ground arith

-- the states from which a task is handed to a runner
pub dispatchable-cases :
    (s : TaskState)
    → is_dispatchable s ≡ true
    → (s ≡ TaskState.ready) ⊎ ((s ≡ TaskState.queued) ⊎ (s ≡ TaskState.waiting_resource))
unfolding is_dispatchable
dispatchable-cases TaskState.ready h = inl refl
dispatchable-cases TaskState.queued h = inr (inl refl)
dispatchable-cases TaskState.waiting_resource h = inr (inr refl)
dispatchable-cases _ h = absurd (ground arith)

-- the risks that need no approval
pub unguarded_risk :
    (r : RiskLevel) → needs_approval r ≡ false → (r ≡ read_meta) ⊎ (r ≡ read_sensitive)
unfolding needs_approval
unguarded_risk read_meta h = inl refl
unguarded_risk read_sensitive h = inr refl
unguarded_risk _ h = absurd (ground arith)

is_time-some : (a : Option ℕ) → is_time a ≡ true → (x : ℕ) × (a ≡ some x)
is_time-some none h = absurd (ground arith)
is_time-some (some x) h = (x, refl)

&&_parts : (a b : Bool) → (a && b) ≡ true → (a ≡ true) × (b ≡ true)
&&_parts a b h = (&&_left a b h, &&_right a b h)

not-true : (a : Bool) → not a ≡ true → a ≡ false
not-true a h = ground arith

or_left : (a b : Bool) → (a || b) ≡ false → a ≡ false
or_left a b h = ground arith

or_right : (a b : Bool) → (a || b) ≡ false → b ≡ false
or_right a b h = ground arith

not_earlier : (x y : ℕ) → earlier (some x) (some y) ≡ false → y ≤ x
not_earlier x y h = ground arith

is_later : (x y : ℕ) → not_later (some x) (some y) ≡ false → y < x
is_later x y h = ground arith

module _ (p : Platform) where
  -- the approval is for this task and risk, granted by a person other than the one who asked, after it
  -- was asked for, and in force now
  pub record InForce (now : ℕ) (t : TaskRecord) (id : String) (a : Approval) : Type 0 where
    pub named : a.id ≡ id
    pub task : a.task_id ≡ t.id
    pub mission : a.mission_id ≡ t.mission_id
    pub scope : a.scope ≡ t.risk
    pub granted : a.decision ≡ approved
    pub who : String
    pub decided_by : a.decided_by ≡ some who
    pub no_blank : (trim who == "") ≡ false
    pub other_person : (trim who == trim a.requested_by) ≡ false
    pub no_agent : starts_with_any_case "agent:" (trim who) ≡ false
    pub no_system : starts_with_any_case "system:" (trim who) ≡ false
    pub created : ℕ
    pub decided : ℕ
    pub expires : ℕ
    pub created_at : p.date_parse a.created_at ≡ some created
    pub decided_at : p.date_parse (elim a.decided_at [ none ↦ "" | some at ↦ at ]) ≡ some decided
    pub expires_at : p.date_parse a.expires_at ≡ some expires
    pub after : created ≤ decided
    pub past : decided ≤ now
    pub valid : now < expires

  decider :
      (by : Option String) → (trim (text_or "" by) == "") ≡ false → (who : String) × (by ≡ some who)
  unfolding trim_start trim_end
  decider none h = absurd (ground arith)
  decider (some who) h = (who, refl)

  decided_is :
      (at : Option String) (x : ℕ)
      → p.date_parse (text_or "" at) ≡ some x
      → p.date_parse (elim at [ none ↦ "" | some d ↦ d ]) ≡ some x
  decided_is none x h = h
  decided_is (some d) x h = h

  pub current-InForce :
      (now : ℕ) (t : TaskRecord) (id : String) (a : Approval)
      → is_current_approval p now t id a ≡ true
      → InForce now t id a
  unfolding is_current_approval is_machine
  current-InForce now t id a h =
      let (r13, c_valid) = &&_parts _ _ h in
      let (r12, c_expires) = &&_parts _ _ r13 in
      let (r11, c_past) = &&_parts _ _ r12 in
      let (r10, c_after) = &&_parts _ _ r11 in
      let (r9, c_decided) = &&_parts _ _ r10 in
      let (r8, c_created) = &&_parts _ _ r9 in
      let (r7, c_human) = &&_parts _ _ r8 in
      let (r6, c_other) = &&_parts _ _ r7 in
      let (r5, c_blank) = &&_parts _ _ r6 in
      let (r4, c_granted) = &&_parts _ _ r5 in
      let (r3, c_scope) = &&_parts _ _ r4 in
      let (r2, c_mission) = &&_parts _ _ r3 in
      let (c_id, c_task) = &&_parts _ _ r2 in
      let (created, created_at) = is_time-some (p.date_parse a.created_at) c_created in
      let (decided, decided_at) = is_time-some (p.date_parse (text_or "" a.decided_at)) c_decided in
      let (expires, expires_at) = is_time-some (p.date_parse a.expires_at) c_expires in
      let no_blank : (trim (text_or "" a.decided_by) == "") ≡ false = not-true _ c_blank in
      let (who, by) = decider a.decided_by no_blank in
      let machine = not-true _ c_human in
      let other : (trim (text_or "" a.decided_by) == trim a.requested_by) ≡ false =
        not-true _ c_other in
      let no_agent : starts_with_any_case "agent:" (trim (text_or "" a.decided_by)) ≡ false =
        or_left _ _ machine in
      let no_system : starts_with_any_case "system:" (trim (text_or "" a.decided_by)) ≡ false =
        or_right _ _ machine in
      let after : earlier (p.date_parse (text_or "" a.decided_at)) (p.date_parse a.created_at)
          ≡ false =
        not-true _ c_after in
      let past : earlier (some now) (p.date_parse (text_or "" a.decided_at)) ≡ false =
        not-true _ c_past in
      let valid : not_later (p.date_parse a.expires_at) (some now) ≡ false = not-true _ c_valid in
      record {
        named = ==→eq a.id id c_id;
        task = ==→eq a.task_id t.id c_task;
        mission = ==→eq a.mission_id t.mission_id c_mission;
        scope = same_risk→eq a.scope t.risk c_scope;
        granted = same_decision→eq a.decision approved c_granted;
        who = who;
        decided_by = by;
        no_blank = rw by at no_blank;
        other_person = rw by at other;
        no_agent = rw by at no_agent;
        no_system = rw by at no_system;
        created = created;
        decided = decided;
        expires = expires;
        created_at = created_at;
        decided_at = decided_is a.decided_at decided decided_at;
        expires_at = expires_at;
        after = not_earlier _ _ (rw (decided_at, created_at) at after);
        past = not_earlier _ _ (rw decided_at at past);
        valid = is_later _ _ (rw expires_at at valid);
      }
