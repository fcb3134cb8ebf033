-- ===== src/Ledger/MissionHistory.antt =====
-- The life of a mission in the ledger: it is never lost, keeps what it was created with, and once it
-- has ended stays ended.
use cmap.Common.{
  ℕ, Bool, true, false, String, ◌==◌, ==→eq, Option, some, List, [], ◌∷◌, get, get-put, Platform,
  ◌≡◌, refl, sym, ◌∙◌, ◌⊎◌, inl, inr, arith, Bool-cases, subst, not, ◌&&◌,
}
use cmap.Entities.{Mission, MissionState, is_terminal_mission}
use cmap.Store.{MemoryStore, EventInput, record_event, push_event}
use cmap.Store.Missions.Proofs.{changed_mission, create_mission-cases, set_mission_state-cases}
use cmap.Store.Tasks.Creation.{create_task-cases, set_task_result-cases}
use cmap.Store.Tasks.Transition.{transition_task-cases}
use cmap.Store.Tasks.Binding.{claim-cases}
use cmap.Store.Events.{append_event-cases}
use cmap.Ledger.{
  Call, creates_mission, sets_mission_state, creates_task, transitions, claims, sets_result,
  appends, after, after_all,
}

-- what stays the same of a mission, and that an ended one stays ended
pub record Endures (m m' : Mission) : Type 0 where
  pub tenant : m'.tenant ≡ m.tenant
  pub owner : m'.owner ≡ m.owner
  pub goal : m'.goal ≡ m.goal
  pub acceptance : m'.acceptance ≡ m.acceptance
  pub constraints : m'.constraints ≡ m.constraints
  pub ended : (is_terminal_mission m.state ≡ false) ⊎ (is_terminal_mission m'.state ≡ true)

Endures-refl : (m : Mission) → Endures m m
Endures-refl m = record {
  tenant = refl;
  owner = refl;
  goal = refl;
  acceptance = refl;
  constraints = refl;
  ended = elim (Bool-cases (is_terminal_mission m.state)) [
    | inl over ↦ inr over
    | inr going ↦ inl going
  ];
}

ended_trans :
    {a b c : Bool} → (a ≡ false) ⊎ (b ≡ true) → (b ≡ false) ⊎ (c ≡ true) → (a ≡ false) ⊎ (c ≡ true)
ended_trans (inl going) next = inl going
ended_trans (inr over) (inl going) = absurd (ground arith)
ended_trans (inr over) (inr still) = inr still

Endures-trans : {a b c : Mission} → Endures a b → Endures b c → Endures a c
Endures-trans f g = record {
  tenant = g.tenant ∙ f.tenant;
  owner = g.owner ∙ f.owner;
  goal = g.goal ∙ f.goal;
  acceptance = g.acceptance ∙ f.acceptance;
  constraints = g.constraints ∙ f.constraints;
  ended = ended_trans f.ended g.ended;
}

-- every mission of `s` is in `s'`, and endures there
record KeepsMissions (s s' : MemoryStore) : Type 0 where
  mission :
      (k : String) (m : Mission)
      → get s.missions k ≡ some m
      → (m' : Mission) × (get s'.missions k ≡ some m') × Endures m m'

KeepsMissions-same : {s s' : MemoryStore} → s'.missions ≡ s.missions → KeepsMissions s s'
KeepsMissions-same e = record { mission = λ k m found. (m, rw e found, Endures-refl m) }

some_eq : {a b : Mission} → ◌≡◌ {A = Option Mission} (some a) (some b) → a ≡ b
some_eq e = cc

module _ (p : Platform) where
  record-missions :
      (now : ℕ) (i : EventInput) (w s' : MemoryStore)
      → s' ≡ record_event p now i w
      → s'.missions ≡ w.missions
  unfolding record_event
  record-missions now i w s' h = rw h refl

  changed-Endures :
      (now : ℕ) (m : Mission) (state : MissionState)
      → (is_terminal_mission m.state && not (is_terminal_mission state)) ≡ false
      → Endures m (changed_mission p now m state)
  changed-Endures now m state allowed = record {
    tenant = refl;
    owner = refl;
    goal = refl;
    acceptance = refl;
    constraints = refl;
    ended = elim (Bool-cases (is_terminal_mission m.state)) [
      | inl over ↦ inr (ground arith)
      | inr going ↦ inl going
    ];
  }

  after-KeepsMissions : (now : ℕ) (c : Call) (s : MemoryStore) → KeepsMissions s (after p now c s)
  unfolding after
  after-KeepsMissions now (creates_mission n actor) s =
      elim (create_mission-cases p now n actor s) [
        | inl same ↦ KeepsMissions-same (rw same refl)
        | inr (free, e) ↦
            let missions = record-missions now _ _ _ e in
            record {
              mission = λ k m found. elim (Bool-cases (n.id == k)) [
                | inl same ↦
                    let id : n.id ≡ k = ==→eq n.id k same in
                    absurd (ground (arith, subst (λ x. get s.missions x ≡ some m) (sym id) found))
                | inr other ↦
                    (m, rw missions (ground (arith, get-put s.missions n.id k n)), Endures-refl m)
              ];
            }
      ]
  after-KeepsMissions now (sets_mission_state id state actor key) s =
      elim (set_mission_state-cases p now id state actor key s) [
        | inl same ↦ KeepsMissions-same (rw same refl)
        | inr (old, there, allowed, e) ↦
            let missions = record-missions now _ _ _ e in
            let new = changed_mission p now old state in
            record {
              mission = λ k m found. elim (Bool-cases (id == k)) [
                | inl same ↦
                    let key_eq : id ≡ k = ==→eq id k same in
                    let it : old ≡ m =
                      some_eq
                        (sym there ∙ subst (λ x. get s.missions x ≡ some m) (sym key_eq) found) in
                    (
                      new,
                      rw missions (ground (arith, get-put s.missions id k new)),
                      subst (λ (x : Mission). Endures x new) it
                          (changed-Endures now old state allowed),
                    )
                | inr other ↦
                    (m, rw missions (ground (arith, get-put s.missions id k new)), Endures-refl m)
              ];
            }
      ]
  after-KeepsMissions now (creates_task t actor cause) s =
      elim (create_task-cases p now t actor cause s) [
        | inl same ↦ KeepsMissions-same (rw same refl)
        | inr (_, e) ↦ KeepsMissions-same (record-missions now _ _ _ e)
      ]
  after-KeepsMissions now (transitions i) s = elim (transition_task-cases p now i s) [
    | inl same ↦ KeepsMissions-same (rw same refl)
    | inr (_, _, _, e) ↦ KeepsMissions-same (record-missions now _ _ _ e)
  ]
  after-KeepsMissions now (claims id b actor) s = elim (claim-cases p now id b actor s) [
    | inl same ↦ KeepsMissions-same (rw same refl)
    | inr (_, _, _, _, e) ↦ KeepsMissions-same (record-missions now _ _ _ e)
  ]
  after-KeepsMissions now (sets_result id r) s = elim (set_task_result-cases p now id r s) [
    | inl same ↦ KeepsMissions-same (rw same refl)
    | inr (_, _, e) ↦ KeepsMissions-same (rw e refl)
  ]
  after-KeepsMissions now (appends e) s = elim (append_event-cases e s) [
    | inl same ↦ KeepsMissions-same (rw same refl)
    | inr h ↦ KeepsMissions-same (unfold push_event in rw h refl)
  ]

  -- After any calls at any times, a mission of the ledger is still there with its tenant, owner,
  -- goal, acceptance and constraints, and if it had ended it has ended.
  pub mission-Endures :
      (cs : List (ℕ × Call)) (s : MemoryStore) (k : String) (m : Mission)
      → get s.missions k ≡ some m
      → (m' : Mission) × (get (after_all p cs s).missions k ≡ some m') × Endures m m'
  unfolding after_all
  mission-Endures [] s k m found = (m, found, Endures-refl m)
  mission-Endures ((now, c) ∷ cs) s k m found =
      let (n, next, one) = (after-KeepsMissions now c s).mission k m found in
      let (m', there, rest) = mission-Endures cs (after p now c s) k n next in
      (m', there, Endures-trans one rest)
