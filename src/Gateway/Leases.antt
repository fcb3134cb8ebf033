-- ===== src/Gateway/Leases.antt =====
-- How reports, renewals and cancels move one lease: expiry and closing are final.
use cmap.Common.{
  ==→eq, ◌∙◌, ◌+◌, ℕ, ◌≤◌, true, false, String, ◌==◌, ◌≡◌, refl, ◌⊎◌, Option, none, some, List, [],
  ◌∷◌, Platform, ◌&&◌, if◌then◌else◌, arith,
}
use cmap.Gateway.{
  GatewayLease, leased, closed, Report, Cancel, ReportOutcome, advanced, refused, is_queued,
  expired_by, is_lease_expired, can_renew_lease, claimed_lease, renewed_lease, advance_lease,
  apply_gateway_report, apply_gateway_cancel,
}

module _ (p : Platform) where
  open p use {date_parse, iso}

  -- What a refused report leaves behind, and what an accepted one may change.
  pub record Advances (l l' : GatewayLease) (runner : String) (body : Report) (now : ℕ)
      : Type 0 where
    pub holder : l.runner_id ≡ runner
    pub was_leased : l.state ≡ leased
    pub in_time : is_lease_expired p l now ≡ false
    pub same_lease : l'.lease_id ≡ l.lease_id
    pub same_holder : l'.runner_id ≡ l.runner_id
    pub same_dispatch : l'.dispatch ≡ l.dispatch
    pub end :
        ((l'.state ≡ leased) × (l'.outcome ≡ l.outcome))
        ⊎ ((l'.state ≡ closed) × (l'.outcome ≡ some body))

  advance_lease-Advances :
      (l l' : GatewayLease) (runner : String) (first : Option Report) (body : Report) (now : ℕ)
      (until : String)
      → l.runner_id ≡ runner
      → l.state ≡ leased
      → is_lease_expired p l now ≡ false
      → advance_lease p l first body now until ≡ advanced l'
      → Advances l l' runner body now
  unfolding advance_lease
  advance_lease-Advances l l' runner first body now until h s t e = ground arith

  -- A report that is accepted comes from the holder of a leased, unexpired lease; it leaves the
  -- dispatch as it was, and either keeps the lease leased with its outcome untouched or closes it
  -- with the report as the outcome.
  report-Advances :
      (l l' : GatewayLease) (runner : String) (body : Report) (now : ℕ) (until : String)
      → apply_gateway_report p (some l) runner body now until ≡ advanced l'
      → Advances l l' runner body now
  unfolding apply_gateway_report
  report-Advances l l' runner body now until h =
      advance_lease-Advances l l' runner l.accepted body now until (==→eq _ _ (ground arith))
        (ground arith) (ground arith) (ground arith)

-- What can happen to one lease.
pub data Move : Type 0 where
  claim : String → String → Move  -- runner, expires_at
  renew : String → String → Move  -- runner, expires_at
  report : String → Report → String → Move  -- runner, body, expires_at
  withdraw : Cancel → Move

module _ (p : Platform) where
  abbrev settle : GatewayLease → ReportOutcome → GatewayLease
  settle l (advanced l') = l'
  settle l (refused e) = l

  -- the effect on the lease: what is refused leaves it as it is
  unfoldable pub move : ℕ → Move → GatewayLease → GatewayLease
  unfolding claimed_lease renewed_lease
  move now (claim runner until) l =
      if l.runner_id == runner && is_queued l.state then claimed_lease p l now until else l
  move now (renew runner until) l =
      if can_renew_lease p (some l) runner now then renewed_lease p l now until else l
  move now (report runner body until) l =
      settle l (apply_gateway_report p (some l) runner body now until)
  move now (withdraw c) l = apply_gateway_cancel p l c now

  -- timed moves, each at or after the one before
  unfoldable pub run : ℕ → List (ℕ × Move) → GatewayLease → GatewayLease
  unfolding move
  run start [] l = l
  run start ((wait, m) ∷ ms) l = run (start + wait) ms (move (start + wait) m l)

  move_closed : (now : ℕ) (m : Move) (l : GatewayLease) → l.state ≡ closed → move now m l ≡ l
  unfolding move can_renew_lease apply_gateway_report apply_gateway_cancel
  move_closed now (claim r u) l h = ground arith
  move_closed now _ l h = ground arith

  -- A closed lease stays as it is, whatever is reported, renewed, claimed or canceled later.
  pub closed_is_final :
      (start : ℕ) (ms : List (ℕ × Move)) (l : GatewayLease) → l.state ≡ closed → run start ms l ≡ l
  unfolding run
  closed_is_final start [] l h = refl
  closed_is_final start ((wait, m) ∷ ms) l h =
      rw (move_closed (start + wait) m l h) (closed_is_final (start + wait) ms l h)

  expired_by_mono :
      (at : Option String) (t now : ℕ)
      → t ≤ now
      → expired_by p at t ≡ true
      → expired_by p at now ≡ true
  expired_by_mono none t now h e = e
  expired_by_mono (some at) t now h e = ground arith

  -- the part of a lease that decides whether it is expired, and its outcome
  pub record SameFate (l l' : GatewayLease) : Type 0 where
    pub state : l'.state ≡ l.state
    pub expires_at : l'.expires_at ≡ l.expires_at
    pub outcome : l'.outcome ≡ l.outcome
    pub accepted : l'.accepted ≡ l.accepted

  move_expired :
      (now : ℕ) (m : Move) (l : GatewayLease)
      → is_lease_expired p l now ≡ true
      → SameFate l (move now m l)
  unfolding move can_renew_lease apply_gateway_report apply_gateway_cancel is_lease_expired
  move_expired now (claim r u) l h = ground arith
  move_expired now _ l h = ground arith

  is_lease_expired_later :
      (t wait : ℕ) (l : GatewayLease)
      → is_lease_expired p l t ≡ true
      → is_lease_expired p l (t + wait) ≡ true
  unfolding is_lease_expired
  is_lease_expired_later t wait l h =
      ground (arith, expired_by_mono l.expires_at t (t + wait) (omega arith))

  is_lease_expired-SameFate :
      (now : ℕ) (l l' : GatewayLease)
      → SameFate l l'
      → is_lease_expired p l' now ≡ is_lease_expired p l now
  unfolding is_lease_expired
  is_lease_expired-SameFate now l l' h = rw (h.state, h.expires_at)

  -- A lease that has expired is never revived: as time goes on no report, renewal, claim or cancel
  -- changes its state, its deadline, its acceptance or its outcome.
  pub expired_is_final :
      (t : ℕ) (ms : List (ℕ × Move)) (l : GatewayLease)
      → is_lease_expired p l t ≡ true
      → SameFate l (run t ms l)
  unfolding run
  expired_is_final t [] l h = record {
    state = refl;
    expires_at = refl;
    outcome = refl;
    accepted = refl;
  }
  expired_is_final t ((wait, m) ∷ ms) l h =
      let now = t + wait in
      let late : is_lease_expired p l now ≡ true = is_lease_expired_later t wait l h in
      let one : SameFate l (move now m l) = move_expired now m l late in
      let rest : SameFate (move now m l) (run now ms (move now m l)) =
        expired_is_final now ms (move now m l)
          (is_lease_expired-SameFate now l (move now m l) one ∙ late) in
      record {
        state = rest.state ∙ one.state;
        expires_at = rest.expires_at ∙ one.expires_at;
        outcome = rest.outcome ∙ one.outcome;
        accepted = rest.accepted ∙ one.accepted;
      }
