-- ===== src/Permits.antt =====
-- packages/domain-model/src/dispatch-permit.ts: the dispatch permit, a signed token that lets a runner
-- start one task for at most a minute. Node's crypto, `Buffer`, `TextDecoder` and `JSON`, and the
-- schema that ajv compiles, are the record `Node`. Times and lifetimes are whole numbers, not negative;
-- so a subtraction of the source is an addition on the other side here.
pub mod Claims
pub mod Accepted
pub mod Binding
pub mod Issued
use cmap.Common.{
  ℕ, ◌+◌, ◌/◌, ◌≡◌, Bool, true, false, String, ◌==◌, ◌⧺◌, Option, none, some, List, [], ◌∷◌, ◌++◌,
  length, Outcome, ok, err, ◌>>=◌, ◌>>◌, not, ◌&&◌, ◌||◌, eqb, leb, ltb, if◌then◌else◌, split,
  some_chars, is_blank,
}
use cmap.Entities.{Envelope}
use cmap.Permits.Claims.{
  PermitError, KeyType, KeyObject, DispatchPermit, Bytes, Node, Dispatch, Checked, require,
  same_key_type, assert_ed25519, is_b64url, max_safe, trusted_now_seconds, no_value,
  assert_lifetime, assert_time, ◌or◌, take_parts, malformed, bad_signature, unknown_key,
  claim_mismatch, not_yet_valid, expired, invalid_lifetime, clock_skew_out_of_range, private_key,
  public_key, secret_key,
}

module _ (n : Node) where
  open n use {
    sha256_hex, to_utf8, decode_utf8, b64url, from_b64url, validate_permit, stringify, parse_valid,
    stringify_envelope, export_spki, create_public_key, sign, verify,
  }

  abbrev pub public_key_id : KeyObject → String
  public_key_id key = sha256_hex (export_spki key)

  abbrev pub envelope_hash : Envelope → String
  envelope_hash e = sha256_hex (to_utf8 (stringify_envelope e))

  unfoldable pub decode_b64url : String → ℕ → Outcome PermitError Bytes
  unfolding require is_b64url
  decode_b64url value max_bytes = do
    require (some_chars is_b64url value) malformed
    require (leb (length (from_b64url value)) max_bytes && b64url (from_b64url value) == value)
        malformed
    ok (from_b64url value)

  unfoldable pub decode_payload : String → Outcome PermitError (Bytes × DispatchPermit)
  unfolding decode_b64url
  decode_payload encoded = do
    bytes ← decode_b64url encoded 4096
    text ← no_value (decode_utf8 bytes)
    permit ← no_value (parse_valid text)
    ok (bytes, permit)

  -- Buffer.concat([SIGNING_PREFIX, payload])
  abbrev pub signing_bytes : Bytes → Bytes
  signing_bytes payload = to_utf8 "cmap1." ++ payload

  unfoldable pub expected_claims : Dispatch → String → ℕ → ℕ → String → DispatchPermit
  expected_claims d kid issued_at expires_at nonce = record {
    kid = kid;
    issuer = d.issuer;
    audience = d.adapter_id;
    runner_id = d.runner_id;
    mission_id = d.envelope.mission_id;
    task_id = d.envelope.task_id;
    revision = d.envelope.revision;
    idempotency_key = d.envelope.idempotency_key;
    envelope_sha256 = envelope_hash d.envelope;
    issued_at = issued_at;
    not_before = issued_at;
    expires_at = expires_at;
    nonce = nonce;
  }

  unfoldable pub same_claims : DispatchPermit → Dispatch → Bool
  same_claims p d =
      p.issuer == d.issuer
      && p.audience == d.adapter_id
      && p.runner_id == d.runner_id
      && p.mission_id == d.envelope.mission_id
      && p.task_id == d.envelope.task_id
      && eqb p.revision d.envelope.revision
      && p.idempotency_key == d.envelope.idempotency_key
      && p.envelope_sha256 == envelope_hash d.envelope

  unfoldable pub assert_claims : DispatchPermit → Dispatch → String → Checked
  unfolding same_claims require
  assert_claims p d kid =
      require (p.kid == kid) unknown_key >> require (same_claims p d) claim_mismatch

  -- the token of a permit: from JSON.stringify on
  unfoldable pub seal : KeyObject → DispatchPermit → Outcome PermitError String
  unfolding require
  seal key permit =
      let payload = to_utf8 (stringify permit) in
      let signature = sign (signing_bytes payload) key in
      let token = "cmap1" ⧺ ("." ⧺ (b64url payload ⧺ ("." ⧺ b64url signature))) in
      do
        require (validate_permit permit) malformed
        require (leb (length payload) 4096) malformed
        require (eqb (length signature) 64) bad_signature
        require (leb (length (to_utf8 token)) 8192) malformed
        ok token

  -- `nonce` is randomUUID()
  unfoldable pub issue_dispatch_permit :
      KeyObject → Dispatch → ℕ → Option ℕ → String → Outcome PermitError String
  unfolding assert_ed25519 trusted_now_seconds expected_claims seal require
  issue_dispatch_permit key d now_ms ttl_seconds nonce =
      let ttl = ttl_seconds or 60 in
      do
        assert_ed25519 key private_key
        require (leb 1 ttl && leb ttl 60) invalid_lifetime
        issued_at ← trusted_now_seconds now_ms
        seal key (
            expected_claims d (public_key_id (create_public_key key)) issued_at (issued_at + ttl)
              nonce)

  -- the checks on the permit that a token holds
  unfoldable pub check_permit : DispatchPermit → Dispatch → String → ℕ → ℕ → Checked
  unfolding assert_lifetime assert_claims assert_time trusted_now_seconds
  check_permit permit d kid now_ms skew = do
    assert_lifetime permit
    assert_claims permit d kid
    now ← trusted_now_seconds now_ms
    assert_time permit now skew

  unfoldable pub verify_dispatch_permit : String → KeyObject → Dispatch → ℕ → Option ℕ → Checked
  unfolding assert_ed25519 decode_b64url decode_payload require check_permit
  verify_dispatch_permit token key d now_ms clock_skew_seconds =
      let skew = clock_skew_seconds or 0 in
      do
        assert_ed25519 key public_key
        require (leb skew 2) clock_skew_out_of_range
        require (leb (length (to_utf8 token)) 8192) malformed
        (payload_part, signature_part) ← take_parts (split b'.' token)
        (payload, permit) ← decode_payload payload_part
        require (permit.kid == public_key_id key) unknown_key
        signature ← decode_b64url signature_part 64
        require (eqb (length signature) 64) malformed
        require (verify (signing_bytes payload) key signature) bad_signature
        check_permit permit d (public_key_id key) now_ms skew
