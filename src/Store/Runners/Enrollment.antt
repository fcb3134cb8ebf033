-- ===== src/Store/Runners/Enrollment.antt =====
-- enrollGatewayRunner: a token registers one runner, with the rights of the token.
use cmap.Common.{
  ℕ, ◌<◌, String, ◌==◌, Option, List, [], ◌∷◌, any, All, values, has, put, true, false, none, some,
  get, Platform, ◌≡◌, refl, arith, Option-cases, inl, inr, earlier,
}
use cmap.Gateway.{
  GatewayRunner, EnrollmentToken, EnrollInput, enrollment_token_usable, runner_from_token,
}
use cmap.Store.{MemoryStore}
use cmap.Store.Runners.{runner_taken, used_token, enroll_with, enroll_gateway_runner}

-- both times can be read, and the first is before the second
pub earlier-times :
    (a b : Option ℕ)
    → earlier a b ≡ true
    → (x : ℕ) × (y : ℕ) × (a ≡ some x) × (b ≡ some y) × (x < y)
earlier-times none b h = absurd (ground arith)
earlier-times (some a) none h = absurd (ground arith)
earlier-times (some a) (some b) h = (a, b, refl, refl, ground arith)

no_key :
    (key : String) (rs : List GatewayRunner)
    → any (λ (r : GatewayRunner). r.public_key == key) rs ≡ false
    → All (λ (r : GatewayRunner). (r.public_key == key) ≡ false) rs
no_key key [] h = tt
no_key key (r ∷ rs) h = (ground arith, no_key key rs (ground arith))

-- the runner that a token and a request make
abbrev pub runner_made : EnrollmentToken → EnrollInput → GatewayRunner
runner_made token i = record {
  runner_id = i.runner_id;
  public_key = i.public_key;
  tenant = token.tenant;
  owner = token.owner;
  allowed_capabilities = token.allowed_capabilities;
  max_risk = token.max_risk;
  host = i.host;
  enrolled_at = i.now;
  revoked_at = none;
  last_seen_at = none;
}

module _ (p : Platform) where
  open p use {date_parse}

  -- what a successful enrollment rests on and writes
  pub record Enrolled (i : EnrollInput) (s s' : MemoryStore) (r : GatewayRunner) : Type 0 where
    pub token : EnrollmentToken
    pub on_record : get s.enrollment_tokens i.token_sha256 ≡ some token
    pub unused : token.used_at ≡ none
    pub now : ℕ
    pub expiry : ℕ
    pub now_is : date_parse i.now ≡ some now
    pub expiry_is : date_parse token.expires_at ≡ some expiry
    pub in_time : now < expiry
    pub free_id : get s.gateway_runners i.runner_id ≡ none
    pub free_key :
        All
          (λ (q : GatewayRunner). (q.public_key == i.public_key) ≡ false)
          (values s.gateway_runners)
    pub runner : r ≡ runner_made token i
    pub consumed :
        s'.enrollment_tokens
        ≡ put s.enrollment_tokens i.token_sha256
            (record token { used_at = some i.now; runner_id = some i.runner_id })
    pub registered : s'.gateway_runners ≡ put s.gateway_runners i.runner_id r

  enroll_with-Enrolled :
      (i : EnrollInput) (t : EnrollmentToken) (s : MemoryStore) (r : GatewayRunner)
      → get s.enrollment_tokens i.token_sha256 ≡ some t
      → (enroll_with p i t s).0 ≡ some r
      → Enrolled i s (enroll_with p i t s).1 r
  unfolding enroll_with enrollment_token_usable runner_from_token runner_taken has used_token
  enroll_with-Enrolled i t s r found h =
      let (now, expiry, now_is, expiry_is, in_time) =
        earlier-times (date_parse i.now) (date_parse t.expires_at) (ground arith) in
      record {
        token = t;
        on_record = found;
        unused = ground arith;
        now = now;
        expiry = expiry;
        now_is = now_is;
        expiry_is = expiry_is;
        in_time = in_time;
        free_id = ground arith;
        free_key = no_key i.public_key (values s.gateway_runners) (ground arith);
        runner = ground arith;
        consumed = ground arith;
        registered = ground arith;
      }

  -- An enrollment that succeeds had a token on record, unused, at a time that is before its expiry;
  -- no runner had the id or the key. The runner has the id, key and host of the request and the
  -- tenant, owner and limits of the token. The runner is stored under its id, the token is marked as
  -- used at the time and by the runner of the request, and no other token or runner changes.
  pub enroll-Enrolled :
      (i : EnrollInput) (s : MemoryStore) (r : GatewayRunner)
      → (enroll_gateway_runner p i s).0 ≡ some r
      → Enrolled i s (enroll_gateway_runner p i s).1 r
  unfolding enroll_gateway_runner
  enroll-Enrolled i s r h = elim (Option-cases (get s.enrollment_tokens i.token_sha256)) [
    | inl missing ↦ absurd (ground arith)
    | inr (t, found) ↦
        let call : (enroll_with p i t s).0 ≡ some r = ground arith in
        rw (found, enroll_gateway_runner) (enroll_with-Enrolled i t s r found call)
  ]

  -- An enrollment that is refused writes nothing, so it does not consume the token.
  pub enroll_refused :
      (i : EnrollInput) (s : MemoryStore)
      → (enroll_gateway_runner p i s).0 ≡ none
      → (enroll_gateway_runner p i s).1 ≡ s
  unfolding enroll_gateway_runner enroll_with
  enroll_refused i s h = ground arith
