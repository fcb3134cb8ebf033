-- ===== src/Examples/Signatures.antt =====
-- The theorems on permits and signatures, with small functions in the place of node's.
use Prim.Native.Char.{code}
use cmap.Common.{
  ℕ, zero, suc, ◌≡◌, ◌<◌, ◌+◌, refl, ap, sym, ◌∙◌, Bool, true, String, ◌==◌, ==→eq, Option, none,
  some, [], ◌∷◌, all, length, eqb, eqb→eq, Dict, ok, ◌&&◌, some_chars, all_chars, split, lines,
  decimal, number_of, arith, if◌then◌else◌, get,
}
use cmap.Permits.{issue_dispatch_permit, verify_dispatch_permit}
use cmap.Permits.Claims.{
  KeyObject, private_key, public_key, DispatchPermit, Bytes, Node, Dispatch, require,
  assert_ed25519, is_b64url,
}
use cmap.Permits.Issued.{IsDocumented, issued-verifies}
use cmap.Permits.Binding.{SameDispatch, token_is_bound}
use cmap.RunnerAuth.{received, sign_runner_request, verify_runner_request}
use cmap.RunnerAuth.Fields.{runner, gateway, RequestFields, is_timestamp, is_auth_nonce, is_sha256}
use cmap.RunnerAuth.Framing.{IsOneLine, request_text-inj}
use cmap.RunnerAuth.Requests.{signed_request-verifies}
use cmap.RunnerAuth.Verified.{IsSent, IsVerified, request-IsVerified}
use package.cmap.Examples.{envelope_one}

abbrev hash_text : String
hash_text = "00112233445566778899aabbccddeeff00112233445566778899aabbccddeeff"

abbrev permit_one : DispatchPermit
permit_one = record {
  kid = hash_text;
  issuer = "cmap";
  audience = "codex";
  runner_id = "r1";
  mission_id = "m1";
  task_id = "t1";
  revision = 1;
  idempotency_key = "k1";
  envelope_sha256 = hash_text;
  issued_at = 5;
  not_before = 5;
  expires_at = 65;
  nonce = "n1";
}

-- the permit is the one of the example
is_permit_one : DispatchPermit → Bool
is_permit_one p =
    p.kid == hash_text
    && p.issuer == "cmap"
    && p.audience == "codex"
    && p.runner_id == "r1"
    && p.mission_id == "m1"
    && p.task_id == "t1"
    && eqb p.revision 1
    && p.idempotency_key == "k1"
    && p.envelope_sha256 == hash_text
    && eqb p.issued_at 5
    && eqb p.not_before 5
    && eqb p.expires_at 65
    && p.nonce == "n1"

is_permit_one-eq : (p : DispatchPermit) → is_permit_one p ≡ true → permit_one ≡ p
unfolding is_permit_one
is_permit_one-eq p h = λ i. record {
  kid = sym (==→eq p.kid hash_text (ground arith)) i;
  issuer = sym (==→eq p.issuer "cmap" (ground arith)) i;
  audience = sym (==→eq p.audience "codex" (ground arith)) i;
  runner_id = sym (==→eq p.runner_id "r1" (ground arith)) i;
  mission_id = sym (==→eq p.mission_id "m1" (ground arith)) i;
  task_id = sym (==→eq p.task_id "t1" (ground arith)) i;
  revision = sym (eqb→eq p.revision 1 (ground arith)) i;
  idempotency_key = sym (==→eq p.idempotency_key "k1" (ground arith)) i;
  envelope_sha256 = sym (==→eq p.envelope_sha256 hash_text (ground arith)) i;
  issued_at = sym (eqb→eq p.issued_at 5 (ground arith)) i;
  not_before = sym (eqb→eq p.not_before 5 (ground arith)) i;
  expires_at = sym (eqb→eq p.expires_at 65 (ground arith)) i;
  nonce = sym (==→eq p.nonce "n1" (ground arith)) i;
}

codes : String → Bytes
codes String.[] = []
codes (String.◌∷◌ c s) = code c ∷ codes s

-- a byte as that many 'a', and a 'b'
unary : ℕ → String → String
unary zero s = String.◌∷◌ "b" s
unary (suc n) s = String.◌∷◌ "a" (unary n s)

encode : Bytes → String
encode [] = ""
encode (b ∷ bs) = unary b (encode bs)

decode_from : ℕ → String → Bytes
decode_from n String.[] = []
decode_from n (String.◌∷◌ c s) =
    let one_more = decode_from (suc n) s in
    let next = decode_from 0 s in if eqb (code c) b'a' then one_more else n ∷ next

decode-unary : (k n : ℕ) (s : String) → decode_from k (unary n s) ≡ (n + k) ∷ decode_from 0 s
unfolding decode_from unary
decode-unary k zero s = ap (λ m. m ∷ decode_from 0 s) (omega arith)
decode-unary k (suc n) s = decode-unary (suc k) n s ∙ ap (λ m. m ∷ decode_from 0 s) (omega arith)

decode-encode : (bs : Bytes) → decode_from 0 (encode bs) ≡ bs
unfolding decode_from encode
decode-encode [] = refl
decode-encode (b ∷ bs) =
    decode-unary 0 b (encode bs)
    ∙ ap (λ t. (b + 0) ∷ t) (decode-encode bs)
    ∙ ap (λ m. m ∷ bs) (omega arith)

all_chars-unary :
    (n : ℕ) (s : String) → all_chars is_b64url s ≡ true → all_chars is_b64url (unary n s) ≡ true
unfolding unary all_chars is_b64url
all_chars-unary zero s h = h
all_chars-unary (suc n) s h = all_chars-unary n s h

all_chars-encode : (bs : Bytes) → all_chars is_b64url (encode bs) ≡ true
unfolding encode all_chars
all_chars-encode [] = refl
all_chars-encode (b ∷ bs) = all_chars-unary b (encode bs) (all_chars-encode bs)

some_chars-unary :
    (n : ℕ) (s : String) → all_chars is_b64url s ≡ true → some_chars is_b64url (unary n s) ≡ true
unfolding unary some_chars is_b64url all_chars
some_chars-unary zero s h = h
some_chars-unary (suc n) s h = all_chars-unary n s h

some_chars-encode : (bs : Bytes) → 0 < length bs → some_chars is_b64url (encode bs) ≡ true
unfolding encode
some_chars-encode [] h = absurd (omega (arith, h))
some_chars-encode (b ∷ bs) h = some_chars-unary b (encode bs) (all_chars-encode bs)

copies : ℕ → Bytes
copies zero = []
copies (suc n) = 0 ∷ copies n

unfoldable node_one : Node
unfolding is_permit_one codes encode unary decode_from copies
node_one = record {
  sha256_hex = λ b. hash_text;
  to_utf8 = codes;
  decode_utf8 = λ b. some "p";
  b64url = encode;
  from_b64url = decode_from 0;
  validate_permit = is_permit_one;
  stringify = λ p. "p";
  parse_valid = λ s. some permit_one;
  stringify_envelope = λ e. "e";
  export_spki = λ k. [];
  create_public_key = λ k. record k { type = public_key };
  sign = λ b k. copies 64;
  verify = λ b k s. all (λ x. eqb x 0) s;
}

abbrev key_one : KeyObject
key_one = record { type = private_key; asymmetric_key_type = "ed25519"; material = "k" }

node_one-IsDocumented : IsDocumented node_one key_one
unfolding node_one assert_ed25519 require
node_one-IsDocumented = record {
  verifies = λ b. refl;
  public = refl;
  decodes = decode-encode;
  alphabet = some_chars-encode;
  utf8 = λ p. refl;
  nonempty = λ p. omega arith;
  parses = λ p h. ap (λ q. Option.some q) (is_permit_one-eq p h);
}

abbrev dispatch_one : Dispatch
dispatch_one = record {
  issuer = "cmap";
  runner_id = "r1";
  adapter_id = "codex";
  envelope = envelope_one;
}

abbrev token_text : String
token_text =
    "cmap1.aaaaaaaaaaaaaaaaaaaaaaaaaaaaaaaaaaaaaaaaaaaaaaaaaaaaaaaaaaaaaaaaaaaaaaaaaaaaaaaaaaaaaaaaaaaaaaaaaaaaaaaaaaaaaaaab.bbbbbbbbbbbbbbbbbbbbbbbbbbbbbbbbbbbbbbbbbbbbbbbbbbbbbbbbbbbbbbbb"

issues_one : issue_dispatch_permit node_one key_one dispatch_one 5000 none "n1" ≡ ok token_text
unfolding issue_dispatch_permit node_one
issues_one = refl

issued-verifies_example :
    verify_dispatch_permit node_one token_text
      (node_one.create_public_key key_one)
      dispatch_one
      30000
      none
    ≡ ok tt
issued-verifies_example =
    issued-verifies node_one key_one node_one-IsDocumented dispatch_one 5000 30000 none none "n1"
      token_text issues_one (omega arith) (omega arith) (omega arith) (omega arith)

accepts_late :
    verify_dispatch_permit node_one token_text
      (node_one.create_public_key key_one)
      dispatch_one
      64000
      none
    ≡ ok tt
unfolding verify_dispatch_permit node_one split some_chars
accepts_late = refl

accepts_soon :
    verify_dispatch_permit node_one token_text
      (node_one.create_public_key key_one)
      dispatch_one
      30000
      none
    ≡ ok tt
unfolding verify_dispatch_permit node_one split some_chars
accepts_soon = refl

token_is_bound_example : SameDispatch node_one dispatch_one dispatch_one × (64 < 30 + 64)
token_is_bound_example =
    token_is_bound node_one token_text (node_one.create_public_key key_one)
      (node_one.create_public_key key_one) dispatch_one dispatch_one 30000 64000 none none
      accepts_soon accepts_late

abbrev nonce_text : String
nonce_text = "abcdefghijklmnopqrstuvwx"

abbrev headers_one : Dict String
headers_one =
    ("x-cmap-timestamp", "1700000000000")
    ∷ ("x-cmap-nonce", nonce_text)
    ∷ ("x-cmap-audience", "r1")
    ∷ ("x-cmap-content-sha256", hash_text)
    ∷ ("x-cmap-signature", "bbbbbbbbbbbbbbbbbbbbbbbbbbbbbbbbbbbbbbbbbbbbbbbbbbbbbbbbbbbbbbbb")
    ∷ []

signs_one :
    sign_runner_request node_one key_one runner "POST" "/dispatch" none none "r1" 1700000000000
      nonce_text
    ≡ ok headers_one
unfolding sign_runner_request node_one decimal all_chars
signs_one = refl

time_one : is_timestamp (decimal 1700000000000) ≡ true
unfolding is_timestamp decimal all_chars
time_one = refl

nonce_one : is_auth_nonce nonce_text ≡ true
unfolding is_auth_nonce all_chars
nonce_one = refl

hash_one : is_sha256 hash_text ≡ true
unfolding is_sha256 all_chars
hash_one = refl

signed_request-verifies_example :
    verify_runner_request node_one
      (node_one.create_public_key key_one)
      runner
      "POST"
      "/dispatch"
      "r1"
      (received headers_one)
      1700000001000
    ≡ ok (nonce_text, hash_text)
unfolding node_one
signed_request-verifies_example =
    signed_request-verifies node_one key_one node_one-IsDocumented runner "POST" "/dispatch" none
      none "r1" nonce_text 1700000000000 1700000001000 headers_one signs_one time_one nonce_one
      hash_one (λ ls. refl) (omega arith) (omega arith)

verifies_one :
    verify_runner_request node_one
      (node_one.create_public_key key_one)
      runner
      "POST"
      "/dispatch"
      "r1"
      (received headers_one)
      1700000001000
    ≡ ok (nonce_text, hash_text)
unfolding verify_runner_request node_one received get lines all_chars some_chars number_of
verifies_one = refl

request-IsVerified_example :
    (f : RequestFields) × (encoded : String) × IsSent runner f encoded (received headers_one)
    × IsVerified node_one (node_one.create_public_key key_one) runner 1700000001000 f encoded
    × (f.method ≡ "POST")
    × (f.target ≡ "/dispatch")
    × (f.audience ≡ "r1")
    × (f.nonce ≡ nonce_text)
    × (f.content_sha256 ≡ hash_text)
request-IsVerified_example =
    request-IsVerified node_one (node_one.create_public_key key_one) runner "POST" "/dispatch" "r1"
      nonce_text hash_text (received headers_one) 1700000001000 verifies_one

abbrev fields_one : RequestFields
fields_one = record {
  method = "GET";
  target = "/leases";
  content_sha256 = hash_text;
  timestamp = "1700000000000";
  nonce = nonce_text;
  audience = "r1";
}

fields_one-IsOneLine : IsOneLine fields_one
unfolding all_chars
fields_one-IsOneLine = record {
  method = refl;
  target = refl;
  content_sha256 = refl;
  timestamp = refl;
  nonce = refl;
  audience = refl;
}

request_text-inj_example : (gateway ≡ gateway) × (fields_one ≡ fields_one)
request_text-inj_example =
    request_text-inj gateway gateway fields_one fields_one fields_one-IsOneLine fields_one-IsOneLine
      refl
