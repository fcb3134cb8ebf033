-- ===== src/Entities/Missions.antt =====
-- The guard of mission states, and which risks need a human approval.
use cmap.Common.{String, true, ◌≡◌, ◌↔◌, ◌≤◌, ok, arith}
use cmap.Entities.{
  RiskLevel, controlled, risk_rank, needs_approval, MissionState, is_terminal_mission,
  assert_mission_state_change,
}

-- A risk needs an approval exactly when it ranks at least as high as `controlled`.
pub needs_approval_iff :
    (r : RiskLevel) → (needs_approval r ≡ true) ↔ (risk_rank controlled ≤ risk_rank r)
unfolding needs_approval
needs_approval_iff r = (λ h. ground arith, λ h. ground arith)

-- What the guard lets through keeps a terminal mission terminal.
pub terminal_mission_stays :
    (id : String) (from to : MissionState)
    → assert_mission_state_change id from to ≡ ok tt
    → is_terminal_mission from ≡ true
    → is_terminal_mission to ≡ true
unfolding assert_mission_state_change is_terminal_mission
terminal_mission_stays id from to h t = ground arith
