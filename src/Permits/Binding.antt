-- ===== src/Permits/Binding.antt =====
-- One token is good for one dispatch, and for one short time.
use cmap.Common.{
  ℕ, ◌+◌, ◌/◌, ◌≤◌, ◌<◌, ◌≡◌, sym, ◌∙◌, subst, ap, true, String, ==→eq, Option, Outcome, ok, arith,
  eqb→eq,
}
use cmap.Permits.{envelope_hash, decode_payload, same_claims, verify_dispatch_permit}
use cmap.Permits.Claims.{PermitError, KeyObject, DispatchPermit, Node, Dispatch, ◌or◌}
use cmap.Permits.Accepted.{IsAccepted, verify-IsAccepted}

ok_eq {ℓ} : {A : Type ℓ} {a b : A} → ◌≡◌ {A = Outcome PermitError A} (ok a) (ok b) → a ≡ b
ok_eq e = cc

module _ (n : Node) where
  -- the two dispatches are about the same task, for the same runner and adapter
  pub record SameDispatch (d e : Dispatch) : Type 0 where
    pub issuer : d.issuer ≡ e.issuer
    pub adapter : d.adapter_id ≡ e.adapter_id
    pub runner : d.runner_id ≡ e.runner_id
    pub mission : d.envelope.mission_id ≡ e.envelope.mission_id
    pub task : d.envelope.task_id ≡ e.envelope.task_id
    pub revision : d.envelope.revision ≡ e.envelope.revision
    pub idempotency : d.envelope.idempotency_key ≡ e.envelope.idempotency_key
    pub envelope : envelope_hash n d.envelope ≡ envelope_hash n e.envelope

  same_claims-SameDispatch :
      (p : DispatchPermit) (d e : Dispatch)
      → same_claims n p d ≡ true
      → same_claims n p e ≡ true
      → SameDispatch d e
  unfolding same_claims
  same_claims-SameDispatch p d e h g = record {
    issuer = sym (==→eq p.issuer d.issuer (ground arith)) ∙ ==→eq p.issuer e.issuer (ground arith);
    adapter =
        sym (==→eq p.audience d.adapter_id (ground arith))
        ∙ ==→eq p.audience e.adapter_id (ground arith);
    runner =
        sym (==→eq p.runner_id d.runner_id (ground arith))
        ∙ ==→eq p.runner_id e.runner_id (ground arith);
    mission =
        sym (==→eq p.mission_id d.envelope.mission_id (ground arith))
        ∙ ==→eq p.mission_id e.envelope.mission_id (ground arith);
    task =
        sym (==→eq p.task_id d.envelope.task_id (ground arith))
        ∙ ==→eq p.task_id e.envelope.task_id (ground arith);
    revision =
        sym (eqb→eq p.revision d.envelope.revision (ground arith))
        ∙ eqb→eq p.revision e.envelope.revision (ground arith);
    idempotency =
        sym (==→eq p.idempotency_key d.envelope.idempotency_key (ground arith))
        ∙ ==→eq p.idempotency_key e.envelope.idempotency_key (ground arith);
    envelope =
        sym (==→eq p.envelope_sha256 (envelope_hash n d.envelope) (ground arith))
        ∙ ==→eq p.envelope_sha256 (envelope_hash n e.envelope) (ground arith);
  }

  same_permit :
      {token : String} {key key' : KeyObject} {d e : Dispatch} {now now' skew skew' : ℕ}
      (a : IsAccepted n token key d now skew) (b : IsAccepted n token key' e now' skew')
      → a.permit ≡ b.permit
  same_permit a b =
      let parts = ok_eq (sym a.parted ∙ b.parted) in
      let decoded = ok_eq (
        sym (
          subst (λ t. decode_payload n t ≡ ok (a.payload, a.permit)) (ap (λ t. t.0) parts)
            a.decoded)
        ∙ b.decoded) in
      ap (λ t. t.1) decoded

  -- If one token is accepted twice, under whatever keys and at whatever times, both dispatches name
  -- the same mission, task, revision, idempotency key, runner, adapter and envelope hash, and the
  -- second time is less than 64 seconds after the first.
  pub token_is_bound :
      (token : String) (key key' : KeyObject) (d e : Dispatch) (now now' : ℕ)
      (skew skew' : Option ℕ)
      → verify_dispatch_permit n token key d now skew ≡ ok tt
      → verify_dispatch_permit n token key' e now' skew' ≡ ok tt
      → SameDispatch d e × (now' / 1000 < now / 1000 + 64)
  token_is_bound token key key' d e now now' skew skew' h g =
      let a = verify-IsAccepted n token key d now skew h in
      let b = verify-IsAccepted n token key' e now' skew' g in
      let same = same_permit a b in
      let start : b.permit.issued_at ≤ now / 1000 + (skew or 0) =
        subst (λ (p : DispatchPermit). p.issued_at ≤ now / 1000 + (skew or 0)) same a.started in
      (
        same_claims-SameDispatch b.permit d e (subst (λ p. same_claims n p d ≡ true) same a.claims)
            b.claims,
        omega (arith, start, b.short, b.open_still, a.skewed, b.skewed),
      )
