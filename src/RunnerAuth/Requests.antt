-- ===== src/RunnerAuth/Requests.antt =====
-- Signed requests: verifyRunnerRequest on what signRunnerRequest returns.
use cmap.Common.{
  ℕ, ◌+◌, ◌≤◌, ◌≡◌, refl, subst, Bool, true, false, String, ==_refl, Option, none, some, List, [],
  ◌∷◌, Dict, get, length, ok, ◌>>◌, >>=-eq-ok, ◌&&◌, leb, all, arith, decimal, number_of, &&_both,
  number_of-decimal,
}
use cmap.Permits.Claims.{KeyObject, private_key, Bytes, Node, assert_ed25519, ◌or◌}
use cmap.Permits.Issued.{IsDocumented, decode-b64url}
use cmap.RunnerAuth.{
  received, text_bytes, body_sha256, request_of, request_headers, sign_runner_request,
  check_signature, check_request, verify_runner_request,
}
use cmap.RunnerAuth.Fields.{
  Scheme, runner, gateway, request_lines, Authorized, authorize, key_check, is_line_safe,
  is_timestamp, is_auth_nonce, is_sha256,
}

pub authorize-then {ℓ} :
    {A : Type ℓ} (b : Bool) (rest : Authorized A) {last : A}
    → (authorize b >> rest) ≡ ok last
    → (b ≡ true) × (rest ≡ ok last)
unfolding authorize
authorize-then true rest h = (refl, h)
authorize-then false rest h = cc

pub authorize-ok : (b : Bool) → authorize b ≡ ok tt → b ≡ true
unfolding authorize
authorize-ok true h = refl
authorize-ok false h = cc

pub then-authorize {ℓ} :
    {A : Type ℓ} {b : Bool} {rest result : Authorized A}
    → b ≡ true
    → rest ≡ result
    → (authorize b >> rest) ≡ result
unfolding authorize
then-authorize h g = rw h g

in_time :
    (sent now : ℕ)
    → now ≤ sent + 2000
    → sent ≤ now + 2000
    → (leb now (number_of (decimal sent) + 2000) && leb (number_of (decimal sent)) (now + 2000))
      ≡ true
in_time sent now late early = rw (number_of-decimal sent) (ground arith)

module _ (n : Node) (key : KeyObject) (doc : IsDocumented n key) where
  -- a signature is found good for the lines that were signed
  pub check_signature-sign :
      (ls : List String)
      → length (n.sign (text_bytes n ls) key) ≡ 64
      → check_signature n (n.create_public_key key) ls (n.b64url (n.sign (text_bytes n ls) key))
        ≡ ok tt
  unfolding check_signature authorize
  check_signature-sign ls long =
      rw
        (
          decode-b64url n key doc (n.sign (text_bytes n ls) key) 64 (ground arith) (ground arith),
          long,
          doc.verifies (text_bytes n ls),
        )
        refl

  -- The headers that signRunnerRequest returns are accepted for the same scheme, method, target and
  -- audience at a clock that is at most two seconds apart, and the nonce and body hash come back. The
  -- time has ten to sixteen digits, the nonce the form that is asked for, a body hash that is computed
  -- the form of a hash, and a signature 64 bytes.
  pub signed_request-verifies :
      (scheme : Scheme) (method target : String) (body : Option Bytes) (hash : Option String)
      (audience nonce : String) (sent now : ℕ) (headers : Dict String)
      → sign_runner_request n key scheme method target body hash audience sent nonce ≡ ok headers
      → is_timestamp (decimal sent) ≡ true
      → is_auth_nonce nonce ≡ true
      → is_sha256 (hash or body_sha256 n body) ≡ true
      → ((ls : List String) → length (n.sign (text_bytes n ls) key) ≡ 64)
      → now ≤ sent + 2000
      → sent ≤ now + 2000
      → verify_runner_request n
          (n.create_public_key key)
          scheme
          method
          target
          audience
          (received headers)
          now
        ≡ ok (nonce, hash or body_sha256 n body)
  unfolding sign_runner_request verify_runner_request check_request received get request_of
      request_headers
  signed_request-verifies runner method target body hash audience nonce sent now headers h t1 t2 t3
        long late early =
      let (_, _, h1) = >>=-eq-ok (key_check (assert_ed25519 key private_key)) _ h in
      let (safe, h2) = authorize-then (all is_line_safe (method ∷ target ∷ audience ∷ [])) _ h1 in
      let (_, h3) = authorize-then (elim hash [ none ↦ true | some s ↦ is_sha256 s ]) _ h2 in
      let fields = request_of n method target body hash audience sent nonce in
      let e : request_headers n key runner fields ≡ headers = cc in
      subst
        (λ (hs : Dict String).
          verify_runner_request n (n.create_public_key key) runner method target audience
            (received hs) now
          ≡ ok (nonce, hash or body_sha256 n body))
        e
        (rw doc.public (
          then-authorize safe (
            then-authorize (&&_both (&&_both t1 t2) t3) (
              then-authorize (in_time sent now late early) (
                then-authorize (==_refl audience) (
                  rw
                    (check_signature-sign (request_lines runner fields)
                      (long (request_lines runner fields)))
                    refl))))))
  signed_request-verifies gateway method target body hash audience nonce sent now headers h t1 t2 t3
        long late early =
      let (_, _, h1) = >>=-eq-ok (key_check (assert_ed25519 key private_key)) _ h in
      let (safe, h2) = authorize-then (all is_line_safe (method ∷ target ∷ audience ∷ [])) _ h1 in
      let (_, h3) = authorize-then (elim hash [ none ↦ true | some s ↦ is_sha256 s ]) _ h2 in
      let fields = request_of n method target body hash audience sent nonce in
      let e : request_headers n key gateway fields ≡ headers = cc in
      subst
        (λ (hs : Dict String).
          verify_runner_request n (n.create_public_key key) gateway method target audience
            (received hs) now
          ≡ ok (nonce, hash or body_sha256 n body))
        e
        (rw doc.public (
          then-authorize safe (
            then-authorize (&&_both (&&_both t1 t2) t3) (
              then-authorize (in_time sent now late early) (
                then-authorize (==_refl audience) (
                  rw
                    (check_signature-sign (request_lines gateway fields)
                      (long (request_lines gateway fields)))
                    refl))))))
