-- ===== src/RunnerAuth/Fields.antt =====
-- What the signatures of packages/domain-model/src/dispatch-permit.ts cover: the schemes, the fields
-- and their forms, and the lines of the signed texts.
use cmap.Common.{
  ℕ, suc, Bool, true, false, String, List, [], ◌∷◌, Outcome, ok, err, ◌&&◌, ◌||◌, eqb, leb, all,
  lacks, all_chars, decimal,
}
use cmap.Permits.Claims.{PermitError, is_b64url}

-- RunnerAuthError, and the DispatchPermitError of assertEd25519
pub data AuthError : Type 0 where
  unauthorized : AuthError
  refused_key : PermitError → AuthError

-- RunnerAuthScheme
pub data Scheme : Type 0 where
  runner gateway : Scheme

-- SCHEMES, without the line feed at the end
abbrev pub request_domain : Scheme → String
request_domain runner = "cmap-runner-req1"
request_domain gateway = "cmap-gateway-req1"

abbrev pub response_domain : Scheme → String
response_domain runner = "cmap-runner-res1"
response_domain gateway = "cmap-gateway-res1"

abbrev pub identity_header : Scheme → String
identity_header runner = "x-cmap-audience"
identity_header gateway = "x-cmap-runner-id"

abbrev pub is_digit : ℕ → Bool
is_digit c = leb b'0' c && leb c b'9'

abbrev pub is_hex : ℕ → Bool
is_hex c = (leb b'a' c && leb c b'f') || is_digit c

-- the characters of the text
unfoldable pub count_chars : String → ℕ
count_chars String.[] = 0
count_chars (String.◌∷◌ c s) = suc (count_chars s)

-- AUTH_TIMESTAMP, AUTH_NONCE, AUTH_SHA256
unfoldable pub is_timestamp : String → Bool
unfolding count_chars
is_timestamp s = all_chars is_digit s && leb 10 (count_chars s) && leb (count_chars s) 16

unfoldable pub is_auth_nonce : String → Bool
unfolding count_chars is_b64url
is_auth_nonce s = all_chars is_b64url s && leb 16 (count_chars s) && leb (count_chars s) 64

unfoldable pub is_sha256 : String → Bool
unfolding count_chars
is_sha256 s = all_chars is_hex s && eqb (count_chars s) 64

abbrev pub Authorized {ℓ} : Type ℓ → Type ℓ
Authorized A = Outcome AuthError A

-- if (!b) authFail()
unfoldable pub authorize : Bool → Authorized (Unit {0})
authorize true = ok tt
authorize false = err unauthorized

-- a DispatchPermitError passes through
abbrev pub key_check {ℓ} : {A : Type ℓ} → Outcome PermitError A → Authorized A
key_check (ok a) = ok a
key_check (err e) = err (refused_key e)

-- try { ... } catch { authFail() }
abbrev pub or_unauthorized {ℓ} : {A : Type ℓ} → Outcome PermitError A → Authorized A
or_unauthorized (ok a) = ok a
or_unauthorized (err e) = err unauthorized

-- no line feed and no carriage return
abbrev pub is_line_safe : String → Bool
is_line_safe s = lacks b'\n' s && lacks b'\r' s

abbrev pub assert_line_safe : List String → Authorized (Unit {0})
assert_line_safe fields = authorize (all is_line_safe fields)

-- what the signature of a request covers
pub record RequestFields : Type 0 where
  pub method : String
  pub target : String
  pub content_sha256 : String
  pub timestamp : String
  pub nonce : String
  pub audience : String

-- what the signature of an answer covers
pub record ResponseFields : Type 0 where
  pub audience : String
  pub request_nonce : String
  pub status : ℕ
  pub body_sha256 : String

unfoldable pub request_lines : Scheme → RequestFields → List String
request_lines scheme f =
    request_domain scheme
    ∷ f.method
    ∷ f.target
    ∷ f.content_sha256
    ∷ f.timestamp
    ∷ f.nonce
    ∷ f.audience
    ∷ []

unfoldable pub response_lines : Scheme → ResponseFields → List String
response_lines scheme f =
    response_domain scheme ∷ f.audience ∷ f.request_nonce ∷ decimal f.status ∷ f.body_sha256 ∷ []
