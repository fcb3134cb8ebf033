-- ===== src/Permits/Issued.antt =====
-- What is issued is accepted, while it is in time.
use cmap.Common.{
  ℕ, ◌+◌, ◌/◌, ◌≤◌, ◌<◌, ◌≡◌, refl, ◌∙◌, subst, ap, Bool, true, false, String, ◌==◌, ==_refl, ==_ne,
  ◌⧺◌, Option, some, [], ◌∷◌, length, Outcome, ok, ◌>>◌, >>=-eq-ok, ◌&&◌, eqb, leb, ltb, leb→le,
  arith, split, split-append, split-lacks, some_chars, all_chars, lacks,
}
use text.Mathlib.TextLemmas.{nil-append, cons-append, cons-ne-nil}
use Prim.Native.Char.{Char}
use cmap.Permits.{
  public_key_id, envelope_hash, decode_b64url, decode_payload, signing_bytes, expected_claims,
  same_claims, assert_claims, seal, issue_dispatch_permit, check_permit, verify_dispatch_permit,
}
use cmap.Permits.Claims.{
  PermitError, malformed, bad_signature, unknown_key, invalid_lifetime, max_safe, KeyObject,
  private_key, public_key, DispatchPermit, Bytes, Node, Dispatch, require, assert_ed25519,
  is_b64url, trusted_now_seconds, assert_lifetime, assert_time, take_parts, ◌or◌,
}
use cmap.Permits.Accepted.{require-then, trusted_now_seconds-ok}

-- what node documents of the functions that the code calls, and of a key that it has generated
pub record IsDocumented (n : Node) (key : KeyObject) : Type 0 where
  pub verifies : (b : Bytes) → n.verify b (n.create_public_key key) (n.sign b key) ≡ true
  pub public : assert_ed25519 (n.create_public_key key) public_key ≡ ok tt
  pub decodes : (b : Bytes) → n.from_b64url (n.b64url b) ≡ b
  pub alphabet : (b : Bytes) → 0 < length b → some_chars is_b64url (n.b64url b) ≡ true
  pub utf8 : (p : DispatchPermit) → n.decode_utf8 (n.to_utf8 (n.stringify p)) ≡ some (n.stringify p)
  pub nonempty : (p : DispatchPermit) → 0 < length (n.to_utf8 (n.stringify p))
  pub parses :
      (p : DispatchPermit) → n.validate_permit p ≡ true → n.parse_valid (n.stringify p) ≡ some p

-- a check passes, and the rest goes on
then-require {ℓ} :
    {A : Type ℓ} {b : Bool} (e : PermitError) {rest result : Outcome PermitError A}
    → b ≡ true
    → rest ≡ result
    → (require b e >> rest) ≡ result
unfolding require
then-require e h g = rw h g

all_chars-lacks : (s : String) → all_chars is_b64url s ≡ true → lacks b'.' s ≡ true
unfolding all_chars is_b64url
all_chars-lacks String.[] h = refl
all_chars-lacks (String.◌∷◌ c s) h = ground (arith, all_chars-lacks s)

some_chars-lacks :
    (s : String) → some_chars is_b64url s ≡ true → (lacks b'.' s ≡ true) × ((s == "") ≡ false)
unfolding some_chars
some_chars-lacks String.[] h = absurd (ground arith)
some_chars-lacks (String.◌∷◌ c s) h =
    (all_chars-lacks (String.◌∷◌ c s) h, ==_ne (String.◌∷◌ c s) "" (cons-ne-nil c s))

abbrev dot : Char
dot = "."

-- the text after a separator
dot-append : (s : String) → "." ⧺ s ≡ String.◌∷◌ dot s
dot-append s = cons-append dot "" s ∙ ap (λ t. String.◌∷◌ dot t) (nil-append s)

-- the token comes apart as it was put together
parts :
    (a b : String)
    → some_chars is_b64url a ≡ true
    → some_chars is_b64url b ≡ true
    → take_parts (split b'.' ("cmap1" ⧺ ("." ⧺ (a ⧺ ("." ⧺ b))))) ≡ ok (a, b)
unfolding split all_chars
parts a b h g =
    let (no_dot, filled) = some_chars-lacks a h in
    let (no_dot', filled') = some_chars-lacks b g in
    let inner : split b'.' (a ⧺ ("." ⧺ b)) ≡ a ∷ b ∷ [] =
      ap (λ t. split b'.' (a ⧺ t)) (dot-append b)
      ∙ split-append dot a b no_dot
      ∙ ap (λ ss. a ∷ ss) (split-lacks b'.' b no_dot') in
    let outer : split b'.' ("cmap1" ⧺ ("." ⧺ (a ⧺ ("." ⧺ b)))) ≡ "cmap1" ∷ a ∷ b ∷ [] =
      ap (λ t. split b'.' ("cmap1" ⧺ t)) (dot-append (a ⧺ ("." ⧺ b)))
      ∙ split-append dot "cmap1" (a ⧺ ("." ⧺ b)) refl
      ∙ ap (λ ss. "cmap1" ∷ ss) inner in
    rw (outer, filled, filled') refl

module _ (n : Node) (key : KeyObject) (doc : IsDocumented n key) where
  pub decode-b64url :
      (b : Bytes) (max : ℕ)
      → 0 < length b
      → length b ≤ max
      → decode_b64url n (n.b64url b) max ≡ ok b
  unfolding decode_b64url require
  decode-b64url b max some_bytes short =
      let plain = doc.alphabet b some_bytes in
      let back = doc.decodes b in
      let fits : leb (length b) max ≡ true = ground arith in
      rw (plain, back, fits, ==_refl (n.b64url b)) refl

  decode_payload-stringify :
      (p : DispatchPermit)
      → n.validate_permit p ≡ true
      → length (n.to_utf8 (n.stringify p)) ≤ 4096
      → decode_payload n (n.b64url (n.to_utf8 (n.stringify p))) ≡ ok (n.to_utf8 (n.stringify p), p)
  unfolding decode_payload
  decode_payload-stringify p valid short =
      rw
        (
          decode-b64url (n.to_utf8 (n.stringify p)) 4096 (doc.nonempty p) short,
          doc.utf8 p,
          doc.parses p valid,
        )
        refl

  -- the claims of a permit are those of the dispatch it is issued for
  check-expected_claims :
      (d : Dispatch) (kid nonce : String) (issued ttl now_ms skew : ℕ)
      → 1 ≤ ttl
      → ttl ≤ 60
      → now_ms / 1000 ≤ max_safe
      → issued ≤ now_ms / 1000 + skew
      → now_ms / 1000 < issued + ttl + skew
      → check_permit n (expected_claims n d kid issued (issued + ttl) nonce) d kid now_ms skew
        ≡ ok tt
  unfolding check_permit assert_lifetime assert_claims same_claims trusted_now_seconds assert_time
      expected_claims require
  check-expected_claims d kid nonce issued ttl now_ms skew h1 h2 h3 h4 h5 =
      let self = ==_refl in
      let t1 : leb issued issued ≡ true = ground arith in
      let t2 : ltb issued (issued + ttl) ≡ true = ground arith in
      let t3 : leb (issued + ttl) (issued + 60) ≡ true = ground arith in
      let t4 : leb (now_ms / 1000) max_safe ≡ true = ground arith in
      let t5 : leb issued (now_ms / 1000 + skew) ≡ true = ground arith in
      let t6 : ltb (now_ms / 1000) (issued + ttl + skew) ≡ true = ground arith in
      let t7 : eqb d.envelope.revision d.envelope.revision ≡ true = ground arith in
      rw
        (
          t1,
          t2,
          t3,
          t4,
          t5,
          t6,
          t7,
          ==_refl kid,
          ==_refl d.issuer,
          ==_refl d.adapter_id,
          ==_refl d.runner_id,
          ==_refl d.envelope.mission_id,
          ==_refl d.envelope.task_id,
          ==_refl d.envelope.idempotency_key,
          ==_refl (envelope_hash n d.envelope),
        )
        refl

  -- what a token seals is what is checked
  seal-verifies :
      (p : DispatchPermit) (d : Dispatch) (token : String) (now_ms : ℕ) (skew : Option ℕ)
      → seal n key p ≡ ok token
      → p.kid ≡ public_key_id n (n.create_public_key key)
      → (skew or 0) ≤ 2
      → check_permit n p d (public_key_id n (n.create_public_key key)) now_ms (skew or 0) ≡ ok tt
      → verify_dispatch_permit n token (n.create_public_key key) d now_ms skew ≡ ok tt
  unfolding seal verify_dispatch_permit require
  seal-verifies p d token now_ms skew h kid small checked =
      let payload = n.to_utf8 (n.stringify p) in
      let signature = n.sign (signing_bytes n payload) key in
      let whole = "cmap1" ⧺ ("." ⧺ (n.b64url payload ⧺ ("." ⧺ n.b64url signature))) in
      let (valid, h1) = require-then (n.validate_permit p) malformed _ h in
      let (short, h2) = require-then (leb (length payload) 4096) malformed _ h1 in
      let (long, h3) = require-then (eqb (length signature) 64) bad_signature _ h2 in
      let (fits, h4) = require-then (leb (length (n.to_utf8 whole)) 8192) malformed _ h3 in
      let e : whole ≡ token = cc in
      let near : leb (skew or 0) 2 ≡ true = ground arith in
      let same : (p.kid == public_key_id n (n.create_public_key key)) ≡ true =
        rw kid (==_refl (public_key_id n (n.create_public_key key))) in
      let b = decode-b64url signature 64 (ground arith) (ground arith) in
      subst (λ t. verify_dispatch_permit n t (n.create_public_key key) d now_ms skew ≡ ok tt) e
        (rw
          (
            doc.public,
            near,
            fits,
            parts (n.b64url payload) (n.b64url signature) (doc.alphabet payload (doc.nonempty p))
                (doc.alphabet signature (ground arith)),
            decode_payload-stringify p valid (leb→le (length payload) 4096 short),
          )
          (then-require unknown_key same (
            rw b (
              then-require malformed long
                (then-require bad_signature (doc.verifies (signing_bytes n payload)) checked)))))

  -- A token that is issued is accepted for the same dispatch under the public key, at every time from
  -- the skew before the second of its issue to the skew after its lifetime. The lifetime is a minute
  -- unless a shorter one is asked for. Node's functions and the schema do as documented.
  pub issued-verifies :
      (d : Dispatch) (issued_ms now_ms : ℕ) (ttl : Option ℕ) (skew : Option ℕ)
      (nonce token : String)
      → issue_dispatch_permit n key d issued_ms ttl nonce ≡ ok token
      → (skew or 0) ≤ 2
      → now_ms / 1000 ≤ max_safe
      → issued_ms / 1000 ≤ now_ms / 1000 + (skew or 0)
      → now_ms / 1000 < issued_ms / 1000 + (ttl or 60) + (skew or 0)
      → verify_dispatch_permit n token (n.create_public_key key) d now_ms skew ≡ ok tt
  unfolding issue_dispatch_permit
  issued-verifies d issued_ms now_ms ttl skew nonce token h small s2 s3 s4 =
      let (_, _, h1) = >>=-eq-ok (assert_ed25519 key private_key) _ h in
      let (good, h2) =
        require-then (leb 1 (ttl or 60) && leb (ttl or 60) 60) invalid_lifetime _ h1 in
      let (issued, clock, h3) = >>=-eq-ok (trusted_now_seconds issued_ms) _ h2 in
      let e = trusted_now_seconds-ok issued_ms issued clock in
      seal-verifies
        (expected_claims n d (public_key_id n (n.create_public_key key)) issued
          (issued + (ttl or 60)) nonce)
        d token now_ms skew h3 refl small
        (check-expected_claims d (public_key_id n (n.create_public_key key)) nonce issued
          (ttl or 60) now_ms (skew or 0) (ground arith) (ground arith) s2
          (subst (λ t. t ≤ now_ms / 1000 + (skew or 0)) e s3)
          (subst (λ t. now_ms / 1000 < t + (ttl or 60) + (skew or 0)) e s4))
