-- ===== src/Permits/Accepted.antt =====
-- What a verified permit has shown.
use cmap.Common.{
  ℕ, ◌+◌, ◌/◌, ◌≤◌, ◌<◌, ◌≡◌, refl, sym, subst, Bool, true, false, String, ◌==◌, Option, length,
  Outcome, ok, ◌>>◌, >>=-eq-ok, ◌&&◌, eqb, leb, leb→le, arith, split,
}
use cmap.Permits.{
  public_key_id, decode_b64url, decode_payload, signing_bytes, same_claims, assert_claims,
  check_permit, verify_dispatch_permit,
}
use cmap.Permits.Claims.{
  PermitError, malformed, bad_signature, not_yet_valid, invalid_lifetime, max_safe, unknown_key,
  clock_skew_out_of_range, claim_mismatch, KeyObject, public_key, DispatchPermit, Bytes, Node,
  Dispatch, require, assert_ed25519, trusted_now_seconds, assert_lifetime, assert_time, take_parts,
  ◌or◌,
}

pub require-ok : (b : Bool) (e : PermitError) → require b e ≡ ok tt → b ≡ true
unfolding require
require-ok true e h = refl
require-ok false e h = absurd (ground arith)

-- a check passed, and what follows returned
pub require-then {ℓ} :
    {A : Type ℓ} (b : Bool) (e : PermitError) (rest : Outcome PermitError A) {last : A}
    → (require b e >> rest) ≡ ok last
    → (b ≡ true) × (rest ≡ ok last)
unfolding require
require-then true e rest h = (refl, h)
require-then false e rest h = cc

pub trusted_now_seconds-ok :
    (now_ms now : ℕ) → trusted_now_seconds now_ms ≡ ok now → now_ms / 1000 ≡ now
unfolding trusted_now_seconds
trusted_now_seconds-ok now_ms now h =
    let e = (require-then (leb (now_ms / 1000) max_safe) invalid_lifetime _ h).1 in cc

module _ (n : Node) where
  -- what is known when a token is accepted
  pub record IsAccepted (token : String) (key : KeyObject) (d : Dispatch) (now_ms skew : ℕ)
      : Type 0 where
    pub payload_part : String
    pub signature_part : String
    pub payload : Bytes
    pub permit : DispatchPermit
    pub signature : Bytes
    pub parted : take_parts (split b'.' token) ≡ ok (payload_part, signature_part)
    pub decoded : decode_payload n payload_part ≡ ok (payload, permit)
    pub signed : n.verify (signing_bytes n payload) key signature ≡ true
    pub kid : (permit.kid == public_key_id n key) ≡ true
    pub claims : same_claims n permit d ≡ true
    pub short : permit.expires_at ≤ permit.issued_at + 60
    pub started : permit.issued_at ≤ (now_ms / 1000) + skew
    pub open_still : now_ms / 1000 < permit.expires_at + skew
    pub skewed : skew ≤ 2

  -- what the checks on the permit have shown
  record IsChecked (p : DispatchPermit) (d : Dispatch) (now skew : ℕ) : Type 0 where
    claims : same_claims n p d ≡ true
    short : p.expires_at ≤ p.issued_at + 60
    started : p.issued_at ≤ now + skew
    open_still : now < p.expires_at + skew

  assert_lifetime-ok :
      (p : DispatchPermit) → assert_lifetime p ≡ ok tt → p.expires_at ≤ p.issued_at + 60
  unfolding assert_lifetime
  assert_lifetime-ok p h = let b = require-ok _ _ h in ground arith

  assert_claims-ok :
      (p : DispatchPermit) (d : Dispatch) (kid : String)
      → assert_claims n p d kid ≡ ok tt
      → same_claims n p d ≡ true
  unfolding assert_claims
  assert_claims-ok p d kid h =
      require-ok (same_claims n p d) claim_mismatch (require-then (p.kid == kid) unknown_key _ h).1

  assert_time-ok :
      (p : DispatchPermit) (now skew : ℕ)
      → assert_time p now skew ≡ ok tt
      → (p.issued_at ≤ now + skew) × (now < p.expires_at + skew)
  unfolding assert_time
  assert_time-ok p now skew h =
      let (begun, rest) =
        require-then (leb p.issued_at (now + skew) && leb p.not_before (now + skew)) not_yet_valid _
          h in
      let ends = require-ok _ _ rest in (ground arith, ground arith)

  check_permit-IsChecked :
      (p : DispatchPermit) (d : Dispatch) (kid : String) (now_ms skew : ℕ)
      → check_permit n p d kid now_ms skew ≡ ok tt
      → IsChecked p d (now_ms / 1000) skew
  unfolding check_permit
  check_permit-IsChecked p d kid now_ms skew h =
      let (_, life, h1) = >>=-eq-ok (assert_lifetime p) _ h in
      let (_, claimed, h2) = >>=-eq-ok (assert_claims n p d kid) _ h1 in
      let (now, clock, h3) =
        >>=-eq-ok (trusted_now_seconds now_ms) (λ s. assert_time p s skew) h2 in
      let times = assert_time-ok p now skew h3 in
      let e = trusted_now_seconds-ok now_ms now clock in
      record {
        claims = assert_claims-ok p d kid claimed;
        short = assert_lifetime-ok p life;
        started = subst (λ s. p.issued_at ≤ s + skew) (sym e) times.0;
        open_still = subst (λ s. s < p.expires_at + skew) (sym e) times.1;
      }

  -- A permit that is accepted has shown all of this.
  pub verify-IsAccepted :
      (token : String) (key : KeyObject) (d : Dispatch) (now_ms : ℕ) (skew : Option ℕ)
      → verify_dispatch_permit n token key d now_ms skew ≡ ok tt
      → IsAccepted token key d now_ms (skew or 0)
  unfolding verify_dispatch_permit
  verify-IsAccepted token key d now_ms skew h =
      let (_, _, h1) = >>=-eq-ok (assert_ed25519 key public_key) _ h in
      let (small, h2) = require-then (leb (skew or 0) 2) clock_skew_out_of_range _ h1 in
      let (_, h3) = require-then (leb (length (n.to_utf8 token)) 8192) malformed _ h2 in
      let ((payload_part, signature_part), parted, h4) =
        >>=-eq-ok (take_parts (split b'.' token)) _ h3 in
      let ((payload, permit), decoded, h5) = >>=-eq-ok (decode_payload n payload_part) _ h4 in
      let (kid, h6) = require-then (permit.kid == public_key_id n key) unknown_key _ h5 in
      let (signature, _, h7) = >>=-eq-ok (decode_b64url n signature_part 64) _ h6 in
      let (_, h8) = require-then (eqb (length signature) 64) malformed _ h7 in
      let (signed, h9) =
        require-then (n.verify (signing_bytes n payload) key signature) bad_signature _ h8 in
      let checked = check_permit-IsChecked permit d (public_key_id n key) now_ms (skew or 0) h9 in
      record {
        payload_part = payload_part;
        signature_part = signature_part;
        payload = payload;
        permit = permit;
        signature = signature;
        parted = parted;
        decoded = decoded;
        signed = signed;
        kid = kid;
        claims = checked.claims;
        short = checked.short;
        started = checked.started;
        open_still = checked.open_still;
        skewed = leb→le (skew or 0) 2 small;
      }
