-- ===== src/Ledger/TaskSteps.antt =====
-- What one call does to the tasks of the ledger.
use cmap.Common.{
  ℕ, true, String, ◌==◌, ==→eq, Option, none, some, get, put, get-put, Dict, Platform, ◌≡◌, refl,
  sym, ◌∙◌, ◌⊎◌, inl, inr, arith, Bool-cases, subst,
}
use cmap.TaskState.{TaskState, running, can_transition}
use cmap.TaskState.Paths.{Walk, here, step}
use cmap.Entities.{TaskRecord, RemoteTaskBinding}
use cmap.Store.{MemoryStore, IsKeyed, EventInput, record_event, push_event}
use cmap.Store.Missions.Proofs.{create_mission-cases, set_mission_state-cases}
use cmap.Store.Tasks.{moved_task}
use cmap.Store.Tasks.Creation.{create_task-cases, with_result, set_task_result-cases}
use cmap.Store.Tasks.Transition.{transition_task-cases}
use cmap.Store.Tasks.Binding.{claim-cases, claimed_task, is_claimable}
use cmap.Store.Events.{append_event-cases}
use cmap.Ledger.{
  Call, creates_mission, sets_mission_state, creates_task, transitions, claims, sets_result,
  appends, after,
}

-- what stays the same of a task, and how its state moves
pub record Continues (t t' : TaskRecord) : Type 0 where
  pub walk : Walk t.state t'.state
  pub id : t'.id ≡ t.id
  pub mission_id : t'.mission_id ≡ t.mission_id
  pub envelope : t'.envelope ≡ t.envelope
  pub risk : t'.risk ≡ t.risk
  pub deps : t'.deps ≡ t.deps
  pub binding : (t.binding ≡ none) ⊎ (t'.binding ≡ t.binding)

pub Continues-refl : (t : TaskRecord) → Continues t t
Continues-refl t = record {
  walk = here;
  id = refl;
  mission_id = refl;
  envelope = refl;
  risk = refl;
  deps = refl;
  binding = inr refl;
}

pub Walk-append : {a b c : TaskState} → Walk a b → Walk b c → Walk a c
Walk-append w here = w
Walk-append w (step v h) = step (Walk-append w v) h

binding_trans :
    {a b c : Option RemoteTaskBinding}
    → (a ≡ none) ⊎ (b ≡ a)
    → (b ≡ none) ⊎ (c ≡ b)
    → (a ≡ none) ⊎ (c ≡ a)
binding_trans (inl unbound) next = inl unbound
binding_trans (inr same) (inl unbound) = inl (sym same ∙ unbound)
binding_trans (inr same) (inr kept) = inr (kept ∙ same)

pub Continues-trans : {t u v : TaskRecord} → Continues t u → Continues u v → Continues t v
Continues-trans f g = record {
  walk = Walk-append f.walk g.walk;
  id = g.id ∙ f.id;
  mission_id = g.mission_id ∙ f.mission_id;
  envelope = g.envelope ∙ f.envelope;
  risk = g.risk ∙ f.risk;
  deps = g.deps ∙ f.deps;
  binding = binding_trans f.binding g.binding;
}

-- what one call does to a task: its state stays or makes one legal transition
pub record Steps (t t' : TaskRecord) : Type 0 where
  pub move : (t'.state ≡ t.state) ⊎ (can_transition t.state t'.state ≡ true)
  pub same : Continues t t'

Steps-refl : (t : TaskRecord) → Steps t t
Steps-refl t = record { move = inl refl; same = Continues-refl t }

-- every task of `s` is in `s'`, and continues there
pub record KeepsTasks (s s' : MemoryStore) : Type 0 where
  pub task :
      (k : String) (t : TaskRecord)
      → get s.tasks k ≡ some t
      → (t' : TaskRecord) × (get s'.tasks k ≡ some t') × Steps t t'
  pub keyed : IsKeyed s → IsKeyed s'

pub KeepsTasks-same : {s s' : MemoryStore} → s'.tasks ≡ s.tasks → KeepsTasks s s'
KeepsTasks-same e = record {
  task = λ k t found. (t, rw e found, Steps-refl t);
  keyed = λ h k t found. h k t (rw e at found);
}

pub some_eq : {t u : TaskRecord} → ◌≡◌ {A = Option TaskRecord} (some t) (some u) → t ≡ u
some_eq e = cc

module _ (m : Dict TaskRecord) (j : String) (new : TaskRecord) where
  put-Steps :
      (old : TaskRecord)
      → get m j ≡ some old
      → Steps old new
      → (k : String) (t : TaskRecord) → get m k ≡ some t
      → (t' : TaskRecord) × (get (put m j new) k ≡ some t') × Steps t t'
  put-Steps old there goes k t found = elim (Bool-cases (j == k)) [
    | inr other ↦ (t, ground (arith, get-put m j k new), Steps-refl t)
    | inl same ↦
        let e : j ≡ k = ==→eq j k same in
        let same_task : old ≡ t =
          some_eq (sym there ∙ subst (λ x. get m x ≡ some t) (sym e) found) in
        (
          new,
          ground (arith, get-put m j k new),
          subst (λ (x : TaskRecord). Steps x new) same_task goes,
        )
  ]

  put-fresh :
      get m j ≡ none
      → (k : String) (t : TaskRecord) → get m k ≡ some t
      → (t' : TaskRecord) × (get (put m j new) k ≡ some t') × Steps t t'
  put-fresh free k t found = elim (Bool-cases (j == k)) [
    | inr other ↦ (t, ground (arith, get-put m j k new), Steps-refl t)
    | inl same ↦
        let e : j ≡ k = ==→eq j k same in
        absurd (ground (arith, subst (λ x. get m x ≡ some t) (sym e) found))
  ]

  put-keyed :
      ((k : String) (t : TaskRecord) → get m k ≡ some t → t.id ≡ k)
      → new.id ≡ j
      → (k : String) (t : TaskRecord) → get (put m j new) k ≡ some t
      → t.id ≡ k
  put-keyed keyed id k t found = elim (Bool-cases (j == k)) [
    | inr other ↦ keyed k t (ground (arith, get-put m j k new))
    | inl same ↦
        let e : j ≡ k = ==→eq j k same in
        let it : new ≡ t = ground (arith, get-put m j k new) in
        subst (λ (x : TaskRecord). x.id ≡ k) it (id ∙ e)
  ]

claimable-can_run : (s : TaskState) → is_claimable s ≡ true → can_transition s running ≡ true
unfolding is_claimable can_transition
claimable-can_run s h = ground arith

module _ (p : Platform) where
  -- a task that stands under its id is replaced by one that continues it
  KeepsTasks-put :
      (s s' : MemoryStore) (k : String) (t t' : TaskRecord)
      → IsKeyed s
      → get s.tasks k ≡ some t
      → s'.tasks ≡ put s.tasks t.id t'
      → Steps t t'
      → KeepsTasks s s'
  KeepsTasks-put s s' k t t' keyed found e goes =
      let there : get s.tasks t.id ≡ some t =
        subst (λ x. get s.tasks x ≡ some t) (sym (keyed k t found)) found in
      record {
        task = λ j u h. rw e (put-Steps s.tasks t.id t' t there goes j u h);
        keyed = λ h j u g. put-keyed s.tasks t.id t' h goes.same.id j u (rw e at g);
      }

  record-tasks :
      (now : ℕ) (i : EventInput) (w s' : MemoryStore)
      → s' ≡ record_event p now i w
      → s'.tasks ≡ w.tasks
  unfolding record_event
  record-tasks now i w s' h = rw h refl

  moved-Steps :
      (now : ℕ) (t : TaskRecord) (to : TaskState) (s : MemoryStore)
      → can_transition t.state to ≡ true
      → Steps t (moved_task p now t to s)
  unfolding moved_task
  moved-Steps now t to s h = record {
    move = inr h;
    same = record {
      walk = step here h;
      id = refl;
      mission_id = refl;
      envelope = refl;
      risk = refl;
      deps = refl;
      binding = inr refl;
    };
  }

  claimed-Steps :
      (now : ℕ) (b : RemoteTaskBinding) (t : TaskRecord) (s : MemoryStore)
      → t.binding ≡ none
      → is_claimable t.state ≡ true
      → Steps t (claimed_task p now b t s)
  unfolding claimed_task
  claimed-Steps now b t s free fit = record {
    move = inr (claimable-can_run t.state fit);
    same = record {
      walk = step here (claimable-can_run t.state fit);
      id = refl;
      mission_id = refl;
      envelope = refl;
      risk = refl;
      deps = refl;
      binding = inl free;
    };
  }

  pub after-KeepsTasks :
      (now : ℕ) (c : Call) (s : MemoryStore) → IsKeyed s → KeepsTasks s (after p now c s)
  unfolding after
  after-KeepsTasks now (creates_mission m actor) s keyed =
      elim (create_mission-cases p now m actor s) [
        | inl same ↦ KeepsTasks-same (rw same refl)
        | inr (_, e) ↦ KeepsTasks-same (record-tasks now _ _ _ e)
      ]
  after-KeepsTasks now (sets_mission_state id state actor key) s keyed =
      elim (set_mission_state-cases p now id state actor key s) [
        | inl same ↦ KeepsTasks-same (rw same refl)
        | inr (_, _, _, e) ↦ KeepsTasks-same (record-tasks now _ _ _ e)
      ]
  after-KeepsTasks now (creates_task t actor cause) s keyed =
      elim (create_task-cases p now t actor cause s) [
        | inl same ↦ KeepsTasks-same (rw same refl)
        | inr (free, e) ↦
            let tasks = record-tasks now _ _ _ e in
            record {
              task = λ k u found. rw tasks (put-fresh s.tasks t.id t free k u found);
              keyed = λ h k u found. put-keyed s.tasks t.id t h refl k u (rw tasks at found);
            }
      ]
  after-KeepsTasks now (transitions i) s keyed = elim (transition_task-cases p now i s) [
    | inl same ↦ KeepsTasks-same (rw same refl)
    | inr (t, found, legal, e) ↦
        KeepsTasks-put s _ i.task_id t (moved_task p now t i.to s) keyed found
          (record-tasks now _ _ _ e) (moved-Steps now t i.to s legal)
  ]
  after-KeepsTasks now (claims id b actor) s keyed = elim (claim-cases p now id b actor s) [
    | inl same ↦ KeepsTasks-same (rw same refl)
    | inr (t, found, free, fit, e) ↦
        KeepsTasks-put s _ id t (claimed_task p now b t s) keyed found (record-tasks now _ _ _ e)
          (claimed-Steps now b t s free fit)
  ]
  after-KeepsTasks now (sets_result id r) s keyed = elim (set_task_result-cases p now id r s) [
    | inl same ↦ KeepsTasks-same (rw same refl)
    | inr (t, found, e) ↦
        let id_of : t.id ≡ id = keyed id t found in
        KeepsTasks-put s _ id t (with_result p now t r) keyed found (rw (e, id_of) refl) (record {
          move = inl refl;
          same = record {
            walk = here;
            id = refl;
            mission_id = refl;
            envelope = refl;
            risk = refl;
            deps = refl;
            binding = inr refl;
          };
        })
  ]
  after-KeepsTasks now (appends e) s keyed = elim (append_event-cases e s) [
    | inl same ↦ KeepsTasks-same (rw same refl)
    | inr h ↦ KeepsTasks-same (unfold push_event in rw h refl)
  ]
