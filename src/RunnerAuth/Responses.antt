-- ===== src/RunnerAuth/Responses.antt =====
-- Signed answers: what is signed is accepted.
use cmap.Common.{ℕ, ◌≡◌, subst, String, Option, some, List, [], ◌∷◌, length, ok, >>=-eq-ok, all}
use cmap.Permits.Claims.{KeyObject, private_key, Bytes, Node, assert_ed25519}
use cmap.Permits.Issued.{IsDocumented}
use cmap.RunnerAuth.{text_bytes, response_body_sha256, sign_runner_response, verify_runner_response}
use cmap.RunnerAuth.Fields.{Scheme, ResponseFields, response_lines, key_check, is_line_safe}
use cmap.RunnerAuth.Requests.{authorize-then, then-authorize, check_signature-sign}

-- The signature that signRunnerResponse returns is accepted for the same scheme, audience, request
-- nonce, status and body, or announced hash of the body. A signature is 64 bytes.
pub signed_response-verifies :
    (n : Node) (key : KeyObject)
    → IsDocumented n key
    → (scheme : Scheme) (audience request_nonce : String) (status : ℕ) (body : Option Bytes)
      (hash : Option String) (signature : String)
    → sign_runner_response n key scheme audience request_nonce status body hash ≡ ok signature
    → ((ls : List String) → length (n.sign (text_bytes n ls) key) ≡ 64)
    → verify_runner_response n
        (n.create_public_key key)
        scheme
        audience
        request_nonce
        status
        body
        hash
        (some signature)
      ≡ ok tt
unfolding sign_runner_response verify_runner_response
signed_response-verifies n key doc scheme audience request_nonce status body hash signature h long =
    let (_, _, h1) = >>=-eq-ok (key_check (assert_ed25519 key private_key)) _ h in
    let (safe, h2) = authorize-then (all is_line_safe (audience ∷ request_nonce ∷ [])) _ h1 in
    let (covered, hashed, h3) = >>=-eq-ok (response_body_sha256 n body hash) _ h2 in
    let f : ResponseFields = record {
      audience = audience;
      request_nonce = request_nonce;
      status = status;
      body_sha256 = covered;
    } in
    let e : n.b64url (n.sign (text_bytes n (response_lines scheme f)) key) ≡ signature = cc in
    subst
      (λ s.
        verify_runner_response n (n.create_public_key key) scheme audience request_nonce status body
          hash (some s)
        ≡ ok tt)
      e
      (rw doc.public (
        then-authorize safe (
          rw hashed (
            check_signature-sign n key doc (response_lines scheme f)
              (long (response_lines scheme f))))))
