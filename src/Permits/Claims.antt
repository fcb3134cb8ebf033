-- ===== src/Permits/Claims.antt =====
-- The state of a dispatch permit of packages/domain-model/src/dispatch-permit.ts, the functions of
-- node that the code calls, and the checks that need none of them.
use cmap.Common.{
  ℕ, ◌+◌, ◌/◌, Bool, true, false, String, ◌==◌, Option, none, some, List, [], ◌∷◌, Outcome, ok, err,
  ◌>>◌, not, ◌&&◌, ◌||◌, eqb, leb, ltb, if◌then◌else◌,
}
use cmap.Entities.{Envelope}

-- DispatchPermitErrorCode, and the RangeError on the clock's skew
pub data PermitError : Type 0 where
  malformed bad_signature unknown_key claim_mismatch not_yet_valid expired invalid_lifetime :
      PermitError
  clock_skew_out_of_range : PermitError

pub data KeyType : Type 0 where
  private_key public_key secret_key : KeyType

-- a KeyObject: what the code asks of it, and the key itself
pub record KeyObject : Type 0 where
  pub type : KeyType
  pub asymmetric_key_type : String
  pub material : String

-- DispatchPermitV1, whose `schema` is constant
pub record DispatchPermit : Type 0 where
  pub kid : String
  pub issuer : String
  pub audience : String
  pub runner_id : String
  pub mission_id : String
  pub task_id : String
  pub revision : ℕ
  pub idempotency_key : String
  pub envelope_sha256 : String
  pub issued_at : ℕ
  pub not_before : ℕ
  pub expires_at : ℕ
  pub nonce : String

abbrev pub Bytes : Type 0
Bytes = List ℕ

pub record Node : Type 0 where
  pub sha256_hex : Bytes → String  -- createHash('sha256').update(b).digest('hex')
  pub to_utf8 : String → Bytes  -- Buffer.from(s, 'utf8')
  pub decode_utf8 : Bytes → Option String  -- new TextDecoder('utf-8', { fatal: true }).decode(b)
  pub b64url : Bytes → String  -- Buffer.toString('base64url')
  pub from_b64url : String → Bytes  -- Buffer.from(s, 'base64url')
  pub validate_permit : DispatchPermit → Bool
  pub stringify : DispatchPermit → String  -- JSON.stringify
  pub parse_valid : String → Option DispatchPermit  -- JSON.parse, none where it throws or the schema refuses
  pub stringify_envelope : Envelope → String  -- JSON.stringify
  pub export_spki : KeyObject → Bytes
  pub create_public_key : KeyObject → KeyObject
  pub sign : Bytes → KeyObject → Bytes
  pub verify : Bytes → KeyObject → Bytes → Bool

-- what both sides state about the dispatch
pub record Dispatch : Type 0 where
  pub issuer : String
  pub runner_id : String
  pub adapter_id : String
  pub envelope : Envelope

abbrev pub Checked : Type 0
Checked = Outcome PermitError (Unit {0})

-- if (!b) fail(code)
unfoldable pub require : Bool → PermitError → Checked
require true e = ok tt
require false e = err e

abbrev pub same_key_type : KeyType → KeyType → Bool
same_key_type private_key private_key = true
same_key_type public_key public_key = true
same_key_type secret_key secret_key = true
same_key_type _ _ = false

unfoldable pub assert_ed25519 : KeyObject → KeyType → Checked
unfolding require
assert_ed25519 key type =
    require (same_key_type key.type type && key.asymmetric_key_type == "ed25519") unknown_key

-- [A-Za-z0-9_-]
unfoldable pub is_b64url : ℕ → Bool
is_b64url c =
    (leb b'A' c && leb c b'Z')
    || (leb b'a' c && leb c b'z')
    || (leb b'0' c && leb c b'9')
    || eqb c b'_'
    || eqb c b'-'

-- Number.MAX_SAFE_INTEGER
abbrev pub max_safe : ℕ
max_safe = 9007199254740991

unfoldable pub trusted_now_seconds : ℕ → Outcome PermitError ℕ
unfolding require
trusted_now_seconds now_ms =
    require (leb (now_ms / 1000) max_safe) invalid_lifetime >> ok (now_ms / 1000)

abbrev pub no_value {ℓ} : {A : Type ℓ} → Option A → Outcome PermitError A
no_value none = err malformed
no_value (some a) = ok a

unfoldable pub assert_lifetime : DispatchPermit → Checked
unfolding require
assert_lifetime p =
    require
      (leb p.issued_at p.not_before
        && ltb p.not_before p.expires_at
        && leb p.expires_at (p.issued_at + 60))
      invalid_lifetime

unfoldable pub assert_time : DispatchPermit → ℕ → ℕ → Checked
unfolding require
assert_time p now skew =
    require (leb p.issued_at (now + skew) && leb p.not_before (now + skew)) not_yet_valid
    >> require (ltb now (p.expires_at + skew)) expired

-- o ?? a
infix 40 ◌or◌
abbrev pub ◌or◌ {ℓ} : {A : Type ℓ} → Option A → A → A
none or a = a
some b or a = b

-- the parts of a token
abbrev pub take_parts : List String → Outcome PermitError (String × String)
take_parts (prefix ∷ payload ∷ signature ∷ []) =
    if prefix == "cmap1" && not (payload == "") && not (signature == "")
    then ok (payload, signature)
    else err malformed
take_parts _ = err malformed
