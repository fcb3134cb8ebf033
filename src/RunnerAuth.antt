-- ===== src/RunnerAuth.antt =====
-- packages/domain-model/src/dispatch-permit.ts, from RunnerAuthError on: the signatures on the requests
-- between control plane and runner, and on their answers. The functions of node are the record `Node`
-- of `Permits`. A signed text is made of lines; its parts are joined here by `lines`, where the source
-- writes '\n' between them.
pub mod Fields
pub mod Framing
pub mod Requests
pub mod Verified
pub mod Responses
use Prim.Native.String
use cmap.Common.{
  ℕ, ◌+◌, suc, ◌≡◌, Bool, true, false, String, ◌==◌, Option, none, some, List, [], ◌∷◌, length,
  Dict, get, Outcome, ok, err, ◌>>=◌, ◌>>◌, not, ◌&&◌, ◌||◌, eqb, leb, all, if◌then◌else◌, lacks,
  lines, all_chars, decimal, number_of,
}
use cmap.Permits.{decode_b64url}
use cmap.Permits.Claims.{
  PermitError, KeyObject, private_key, public_key, Bytes, Node, assert_ed25519, is_b64url, ◌or◌,
}
use cmap.RunnerAuth.Fields.{
  AuthError, Scheme, request_domain, response_domain, identity_header, is_digit, is_hex,
  count_chars, is_timestamp, is_auth_nonce, is_sha256, Authorized, authorize, key_check,
  or_unauthorized, is_line_safe, assert_line_safe, RequestFields, ResponseFields, request_lines,
  response_lines, unauthorized, refused_key, runner, gateway,
}

-- a header is one text, or several
pub data HeaderValue : Type 0 where
  one : String → HeaderValue
  many : List String → HeaderValue

-- the function `one` of verifyRunnerRequest
abbrev pub single : Option HeaderValue → Authorized String
single none = err unauthorized
single (some (one s)) = ok s
single (some (many ss)) = err unauthorized

-- the texts, as headers that came in
unfoldable pub received : Dict String → Dict HeaderValue
received [] = []
received ((k, v) ∷ m) = (k, one v) ∷ received m

module _ (n : Node) where
  open n use {sha256_hex, to_utf8, b64url, sign, verify}

  -- the bytes of the lines
  abbrev pub text_bytes : List String → Bytes
  text_bytes ls = to_utf8 (lines ls)

  abbrev pub body_sha256 : Option Bytes → String
  body_sha256 body = sha256_hex (body or [])

  -- `fields` of signRunnerRequest
  unfoldable pub request_of :
      String → String → Option Bytes → Option String → String → ℕ → String → RequestFields
  request_of method target body content_sha256 audience now_ms nonce = record {
    method = method;
    target = target;
    content_sha256 = content_sha256 or body_sha256 body;
    timestamp = decimal now_ms;
    nonce = nonce;
    audience = audience;
  }

  -- the headers that it returns
  unfoldable pub request_headers : KeyObject → Scheme → RequestFields → Dict String
  unfolding request_lines
  request_headers key scheme f =
      ("x-cmap-timestamp", f.timestamp)
      ∷ ("x-cmap-nonce", f.nonce)
      ∷ (identity_header scheme, f.audience)
      ∷ ("x-cmap-content-sha256", f.content_sha256)
      ∷ ("x-cmap-signature", b64url (sign (text_bytes (request_lines scheme f)) key))
      ∷ []

  -- `now_ms` is the clock's time in milliseconds, `nonce` randomBytes(18) as base64url
  unfoldable pub sign_runner_request :
      KeyObject
      → Scheme
      → String
      → String
      → Option Bytes
      → Option String
      → String
      → ℕ
      → String
      → Authorized (Dict String)
  unfolding assert_ed25519 authorize is_sha256 request_of request_headers
  sign_runner_request key scheme method target body content_sha256 audience now_ms nonce = do
    key_check (assert_ed25519 key private_key)
    assert_line_safe (method ∷ target ∷ audience ∷ [])
    authorize (elim content_sha256 [ none ↦ true | some s ↦ is_sha256 s ])
    ok (
        request_headers key scheme
          (request_of method target body content_sha256 audience now_ms nonce))

  -- the signature, decoded and verified
  unfoldable pub check_signature : KeyObject → List String → String → Authorized (Unit {0})
  unfolding decode_b64url authorize
  check_signature key signed signature = do
    bytes ← or_unauthorized (decode_b64url n signature 64)
    authorize (eqb (length bytes) 64)
    authorize (verify (text_bytes signed) key bytes)

  -- the checks on the headers that were read; the nonce and the announced hash of the body come back
  unfoldable pub check_request :
      KeyObject → Scheme → String → RequestFields → String → ℕ → Authorized (String × String)
  unfolding authorize is_timestamp is_auth_nonce is_sha256 check_signature request_lines
  check_request key scheme own_audience f signature now_ms = do
    assert_line_safe (f.method ∷ f.target ∷ own_audience ∷ [])
    authorize (is_timestamp f.timestamp && is_auth_nonce f.nonce && is_sha256 f.content_sha256)
    authorize
        (leb now_ms (number_of f.timestamp + 2000) && leb (number_of f.timestamp) (now_ms + 2000))
    authorize (f.audience == own_audience)
    check_signature key (request_lines scheme f) signature
    ok (f.nonce, f.content_sha256)

  unfoldable pub verify_runner_request :
      KeyObject
      → Scheme
      → String
      → String
      → String
      → Dict HeaderValue
      → ℕ
      → Authorized (String × String)
  unfolding assert_ed25519 check_request
  verify_runner_request key scheme method target own_audience headers now_ms = do
    key_check (assert_ed25519 key public_key)
    timestamp ← single (get headers "x-cmap-timestamp")
    nonce ← single (get headers "x-cmap-nonce")
    audience ← single (get headers (identity_header scheme))
    content_sha256 ← single (get headers "x-cmap-content-sha256")
    signature ← single (get headers "x-cmap-signature")
    check_request key scheme own_audience
        (record {
          method = method;
          target = target;
          content_sha256 = content_sha256;
          timestamp = timestamp;
          nonce = nonce;
          audience = audience;
        })
        signature now_ms

  unfoldable pub response_body_sha256 : Option Bytes → Option String → Authorized String
  unfolding authorize is_sha256
  response_body_sha256 body none = ok (body_sha256 body)
  response_body_sha256 body (some s) = authorize (is_sha256 s) >> ok s

  unfoldable pub sign_runner_response :
      KeyObject → Scheme → String → String → ℕ → Option Bytes → Option String → Authorized String
  unfolding assert_ed25519 authorize response_body_sha256 response_lines
  sign_runner_response key scheme audience request_nonce status body hash = do
    key_check (assert_ed25519 key private_key)
    assert_line_safe (audience ∷ request_nonce ∷ [])
    covered ← response_body_sha256 body hash
    ok (
        b64url (
          sign
            (text_bytes (
              response_lines scheme (record {
                audience = audience;
                request_nonce = request_nonce;
                status = status;
                body_sha256 = covered;
              })))
            key))

  unfoldable pub verify_runner_response :
      KeyObject
      → Scheme
      → String
      → String
      → ℕ
      → Option Bytes
      → Option String
      → Option String
      → Authorized (Unit {0})
  unfolding assert_ed25519 authorize response_body_sha256 check_signature response_lines
  verify_runner_response key scheme audience request_nonce status body hash signature = do
    key_check (assert_ed25519 key public_key)
    assert_line_safe (audience ∷ request_nonce ∷ [])
    text ← elim signature [ none ↦ err unauthorized | some s ↦ ok s ]
    covered ← response_body_sha256 body hash
    check_signature key
        (response_lines scheme (record {
          audience = audience;
          request_nonce = request_nonce;
          status = status;
          body_sha256 = covered;
        }))
        text
