-- ===== src/RunnerAuth/Verified.antt =====
-- verifyRunnerRequest: what an accepted request has shown.
use cmap.Common.{
  ℕ, ◌+◌, ◌≤◌, ◌≡◌, refl, sym, subst, ap, true, String, ◌==◌, ==→eq, Option, none, some, List, [],
  ◌∷◌, Dict, get, length, ok, >>=-eq-ok, not, ◌&&◌, eqb, leb, all, arith, lacks, some_chars,
  Bool-cases, inl, inr, all_chars-weaken, number_of, &&_left, &&_right, leb→le,
}
use cmap.Permits.{decode_b64url}
use cmap.Permits.Claims.{
  KeyObject, private_key, public_key, Bytes, Node, assert_ed25519, is_b64url, ◌or◌,
}
use cmap.RunnerAuth.{
  HeaderValue, one, many, single, text_bytes, check_signature, check_request, verify_runner_request,
}
use cmap.RunnerAuth.Fields.{
  Scheme, runner, gateway, RequestFields, request_lines, Authorized, key_check, or_unauthorized,
  is_line_safe, is_timestamp, is_auth_nonce, is_sha256, identity_header, is_digit, is_hex,
}
use cmap.RunnerAuth.Framing.{IsOneLine}
use cmap.RunnerAuth.Requests.{authorize-then, authorize-ok}

timestamp-lacks : (s : String) → is_timestamp s ≡ true → lacks b'\n' s ≡ true
unfolding is_timestamp
timestamp-lacks s h =
    all_chars-weaken is_digit (λ c. not (eqb c b'\n')) s (λ c d. ground arith) (ground arith)

nonce-lacks : (s : String) → is_auth_nonce s ≡ true → lacks b'\n' s ≡ true
unfolding is_auth_nonce is_b64url
nonce-lacks s h =
    all_chars-weaken is_b64url (λ c. not (eqb c b'\n')) s (λ c d. ground arith) (ground arith)

sha256-lacks : (s : String) → is_sha256 s ≡ true → lacks b'\n' s ≡ true
unfolding is_sha256
sha256-lacks s h =
    all_chars-weaken is_hex (λ c. not (eqb c b'\n')) s (λ c d. ground arith) (ground arith)

-- what the headers of a request carry, each in its own header
pub record IsSent (scheme : Scheme) (fields : RequestFields) (encoded : String)
    (headers : Dict HeaderValue) : Type 0 where
  pub timestamp : get headers "x-cmap-timestamp" ≡ some (one fields.timestamp)
  pub nonce : get headers "x-cmap-nonce" ≡ some (one fields.nonce)
  pub audience :
      get headers (elim scheme [ runner ↦ "x-cmap-audience" | gateway ↦ "x-cmap-runner-id" ])
      ≡ some (one fields.audience)
  pub hash : get headers "x-cmap-content-sha256" ≡ some (one fields.content_sha256)
  pub signature : get headers "x-cmap-signature" ≡ some (one encoded)

-- what an accepted request has shown, by the text of its signature
pub record IsVerified (n : Node) (key : KeyObject) (scheme : Scheme) (now : ℕ)
    (fields : RequestFields) (encoded : String) : Type 0 where
  pub canonical : n.b64url (n.from_b64url encoded) ≡ encoded
  pub whole : length (n.from_b64url encoded) ≡ 64
  pub signed :
      n.verify (text_bytes n (request_lines scheme fields)) key (n.from_b64url encoded) ≡ true
  pub lines : IsOneLine fields
  pub not_late : now ≤ number_of fields.timestamp + 2000
  pub not_early : number_of fields.timestamp ≤ now + 2000

single-ok : (v : Option HeaderValue) (s : String) → single v ≡ ok s → v ≡ some (one s)
single-ok none s h = cc
single-ok (some (one t)) s h = cc
single-ok (some (many ts)) s h = cc

decoded-ok :
    (n : Node) (text : String) (b : Bytes)
    → or_unauthorized (decode_b64url n text 64) ≡ ok b
    → (b ≡ n.from_b64url text) × (n.b64url (n.from_b64url text) ≡ text)
unfolding decode_b64url cmap.Permits.Claims.require
decoded-ok n text b h = elim (Bool-cases (some_chars is_b64url text)) [
  | inr other ↦ absurd (ground arith)
  | inl letters ↦
      elim (Bool-cases
        (leb (length (n.from_b64url text)) 64 && n.b64url (n.from_b64url text) == text)) [
          | inr other ↦ absurd (ground arith)
          | inl fits ↦
              (ground arith, ==→eq (n.b64url (n.from_b64url text)) text (&&_right _ _ fits))
        ]
]

check_signature-ok :
    (n : Node) (key : KeyObject) (ls : List String) (encoded : String)
    → check_signature n key ls encoded ≡ ok tt
    → (n.b64url (n.from_b64url encoded) ≡ encoded)
      × (length (n.from_b64url encoded) ≡ 64)
      × (n.verify (text_bytes n ls) key (n.from_b64url encoded) ≡ true)
unfolding check_signature
check_signature-ok n key ls encoded h =
    let (b, decoded, h1) = >>=-eq-ok (or_unauthorized (decode_b64url n encoded 64)) _ h in
    let (same, canonical) = decoded-ok n encoded b decoded in
    let (long, h2) = authorize-then (eqb (length b) 64) _ h1 in
    let whole : length b ≡ 64 = ground arith in
    (
      canonical,
      subst (λ (x : Bytes). length x ≡ 64) same whole,
      subst (λ (x : Bytes). n.verify (text_bytes n ls) key x ≡ true) same (authorize-ok _ h2),
    )

pair_eq : {a b : String × String} → ◌≡◌ {A = Authorized (String × String)} (ok a) (ok b) → a ≡ b
pair_eq e = cc

line_safe-IsOneLine :
    (own : String) (f : RequestFields)
    → all is_line_safe (f.method ∷ f.target ∷ own ∷ []) ≡ true
    → (is_timestamp f.timestamp && is_auth_nonce f.nonce && is_sha256 f.content_sha256) ≡ true
    → f.audience ≡ own
    → IsOneLine f
line_safe-IsOneLine own f safe forms same = record {
  method = ground arith;
  target = ground arith;
  content_sha256 = sha256-lacks f.content_sha256 (ground arith);
  timestamp = timestamp-lacks f.timestamp (ground arith);
  nonce = nonce-lacks f.nonce (ground arith);
  audience = subst (λ a. lacks b'\n' a ≡ true) (sym same) (ground arith);
}

check_request-ok :
    (n : Node) (key : KeyObject) (scheme : Scheme) (own : String) (f : RequestFields)
    (signature : String) (now : ℕ) (r : String × String)
    → check_request n key scheme own f signature now ≡ ok r
    → IsVerified n key scheme now f signature
      × ((f.audience ≡ own) × ((f.nonce ≡ r.0) × (f.content_sha256 ≡ r.1)))
unfolding check_request
check_request-ok n key scheme own f signature now r h =
    let (safe, h1) = authorize-then (all is_line_safe (f.method ∷ f.target ∷ own ∷ [])) _ h in
    let (forms, h2) =
      authorize-then
        (is_timestamp f.timestamp && is_auth_nonce f.nonce && is_sha256 f.content_sha256) _ h1 in
    let (clock, h3) =
      authorize-then
        (leb now (number_of f.timestamp + 2000) && leb (number_of f.timestamp) (now + 2000)) _ h2 in
    let (same, h4) = authorize-then (f.audience == own) _ h3 in
    let (_, good, last) =
      >>=-eq-ok (check_signature n key (request_lines scheme f) signature) _ h4 in
    let (canonical, whole, signed) =
      check_signature-ok n key (request_lines scheme f) signature good in
    let own_is = ==→eq f.audience own same in
    (
      record {
        canonical = canonical;
        whole = whole;
        signed = signed;
        lines = line_safe-IsOneLine own f safe forms own_is;
        not_late = leb→le now (number_of f.timestamp + 2000) (&&_left _ _ clock);
        not_early = leb→le (number_of f.timestamp) (now + 2000) (&&_right _ _ clock);
      },
      (own_is, (ap (λ t. t.0) (pair_eq last), ap (λ t. t.1) (pair_eq last))),
    )

own_header :
    (scheme : Scheme) (headers : Dict HeaderValue) (audience : String)
    → get headers (identity_header scheme) ≡ some (one audience)
    → get headers (elim scheme [ runner ↦ "x-cmap-audience" | gateway ↦ "x-cmap-runner-id" ])
      ≡ some (one audience)
own_header runner headers audience h = h
own_header gateway headers audience h = h

-- A request that is accepted carries, each in its own header, one timestamp within two seconds of the
-- clock, the nonce and body hash that are returned, the own audience, and one signature: the canonical
-- base64url text of 64 bytes that are good, under the key, for the lines of the scheme, method, target,
-- hash, timestamp, nonce and audience. No line feed is in any of them.
pub request-IsVerified :
    (n : Node) (key : KeyObject) (scheme : Scheme) (method target audience nonce hash : String)
    (headers : Dict HeaderValue) (now : ℕ)
    → verify_runner_request n key scheme method target audience headers now ≡ ok (nonce, hash)
    → (f : RequestFields) × (encoded : String) × IsSent scheme f encoded headers
      × IsVerified n key scheme now f encoded
      × (f.method ≡ method)
      × (f.target ≡ target)
      × (f.audience ≡ audience)
      × (f.nonce ≡ nonce)
      × (f.content_sha256 ≡ hash)
unfolding verify_runner_request
request-IsVerified n key scheme method target audience nonce hash headers now h =
    let (_, _, h1) = >>=-eq-ok (key_check (assert_ed25519 key public_key)) _ h in
    let (timestamp, at, h2) = >>=-eq-ok (single (get headers "x-cmap-timestamp")) _ h1 in
    let (nonce', an, h3) = >>=-eq-ok (single (get headers "x-cmap-nonce")) _ h2 in
    let (audience', au, h4) = >>=-eq-ok (single (get headers (identity_header scheme))) _ h3 in
    let (hash', ah, h5) = >>=-eq-ok (single (get headers "x-cmap-content-sha256")) _ h4 in
    let (signature, asig, h6) = >>=-eq-ok (single (get headers "x-cmap-signature")) _ h5 in
    let f : RequestFields = record {
      method = method;
      target = target;
      content_sha256 = hash';
      timestamp = timestamp;
      nonce = nonce';
      audience = audience';
    } in
    let (verified, (own, (same_nonce, same_hash))) =
      check_request-ok n key scheme audience f signature now (nonce, hash) h6 in
    (
      f,
      signature,
      record {
        timestamp = single-ok _ timestamp at;
        nonce = single-ok _ nonce' an;
        audience = own_header scheme headers audience' (single-ok _ audience' au);
        hash = single-ok _ hash' ah;
        signature = single-ok _ signature asig;
      },
      verified,
      refl,
      refl,
      own,
      same_nonce,
      same_hash,
    )
