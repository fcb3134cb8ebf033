-- ===== src/RunnerAuth/Framing.antt =====
-- The signed texts are unambiguous: from the text one reads back what was signed, and by which scheme.
use cmap.Common.{
  ℕ, zero, suc, ◌≡◌, ◌≢◌, refl, sym, ◌∙◌, ap, true, String, eq_iff, List, [], ◌∷◌, lacks, lines,
  split, split-lines, all_chars, all_chars-weaken, all_chars-decimal, decimal, number_of,
  number_of-decimal, not, ◌&&◌, eqb, leb, length, arith,
}
use cmap.RunnerAuth.Fields.{
  Scheme, runner, gateway, request_domain, response_domain, RequestFields, ResponseFields,
  request_lines, response_lines,
}

decimal-lacks : (n : ℕ) → lacks b'\n' (decimal n) ≡ true
decimal-lacks n =
    all_chars-weaken (λ c. leb b'0' c && leb c b'9') (λ c. not (eqb c b'\n')) (decimal n)
      (λ c h. ground arith) (all_chars-decimal n)

-- no field holds a line feed
pub record IsOneLine (f : RequestFields) : Type 0 where
  pub method : lacks b'\n' f.method ≡ true
  pub target : lacks b'\n' f.target ≡ true
  pub content_sha256 : lacks b'\n' f.content_sha256 ≡ true
  pub timestamp : lacks b'\n' f.timestamp ≡ true
  pub nonce : lacks b'\n' f.nonce ≡ true
  pub audience : lacks b'\n' f.audience ≡ true

pub record IsOneLineAnswer (f : ResponseFields) : Type 0 where
  pub audience : lacks b'\n' f.audience ≡ true
  pub request_nonce : lacks b'\n' f.request_nonce ≡ true
  pub body_sha256 : lacks b'\n' f.body_sha256 ≡ true

request_domain-lacks : (s : Scheme) → lacks b'\n' (request_domain s) ≡ true
unfolding all_chars
request_domain-lacks runner = refl
request_domain-lacks gateway = refl

response_domain-lacks : (s : Scheme) → lacks b'\n' (response_domain s) ≡ true
unfolding all_chars
response_domain-lacks runner = refl
response_domain-lacks gateway = refl

request-read_back :
    (s : Scheme) (f : RequestFields)
    → IsOneLine f
    → split b'\n' (lines (request_lines s f)) ≡ request_lines s f
unfolding request_lines
request-read_back s f h =
    split-lines (request_domain s)
      (f.method ∷ f.target ∷ f.content_sha256 ∷ f.timestamp ∷ f.nonce ∷ f.audience ∷ [])
      (
        request_domain-lacks s,
        (h.method, (h.target, (h.content_sha256, (h.timestamp, (h.nonce, (h.audience, tt)))))),
      )

response-read_back :
    (s : Scheme) (f : ResponseFields)
    → IsOneLineAnswer f
    → split b'\n' (lines (response_lines s f)) ≡ response_lines s f
unfolding response_lines
response-read_back s f h =
    split-lines (response_domain s)
      (f.audience ∷ f.request_nonce ∷ decimal f.status ∷ f.body_sha256 ∷ [])
      (
        response_domain-lacks s,
        (h.audience, (h.request_nonce, (decimal-lacks f.status, (h.body_sha256, tt)))),
      )

request_domain-inj : (s t : Scheme) → request_domain s ≡ request_domain t → s ≡ t
request_domain-inj runner runner e = refl
request_domain-inj runner gateway e =
    absurd (ground (arith, eq_iff "cmap-runner-req1" "cmap-gateway-req1"))
request_domain-inj gateway runner e =
    absurd (ground (arith, eq_iff "cmap-gateway-req1" "cmap-runner-req1"))
request_domain-inj gateway gateway e = refl

response_domain-inj : (s t : Scheme) → response_domain s ≡ response_domain t → s ≡ t
response_domain-inj runner runner e = refl
response_domain-inj runner gateway e =
    absurd (ground (arith, eq_iff "cmap-runner-res1" "cmap-gateway-res1"))
response_domain-inj gateway runner e =
    absurd (ground (arith, eq_iff "cmap-gateway-res1" "cmap-runner-res1"))
response_domain-inj gateway gateway e = refl

abbrev head_or : String → List String → String
head_or d [] = d
head_or d (s ∷ ss) = s

abbrev tail : List String → List String
tail [] = []
tail (s ∷ ss) = ss

-- the line of a number
abbrev line : ℕ → List String → String
line zero ss = head_or "" ss
line (suc k) ss = line k (tail ss)

-- Two requests of which no field holds a line feed, and that have the same signed text, have the same
-- scheme, method, target, body hash, timestamp, nonce and audience.
pub request_text-inj :
    (s t : Scheme) (f g : RequestFields)
    → IsOneLine f
    → IsOneLine g
    → lines (request_lines s f) ≡ lines (request_lines t g)
    → (s ≡ t) × (f ≡ g)
unfolding request_lines
request_text-inj s t f g h i e =
    let same : request_lines s f ≡ request_lines t g =
      sym (request-read_back s f h) ∙ ap (split b'\n') e ∙ request-read_back t g i in
    (
      request_domain-inj s t (ap (line 0) same),
      λ k. record {
        method = ap (line 1) same k;
        target = ap (line 2) same k;
        content_sha256 = ap (line 3) same k;
        timestamp = ap (line 4) same k;
        nonce = ap (line 5) same k;
        audience = ap (line 6) same k;
      },
    )

-- Two answers of which no field holds a line feed, and that have the same signed text, have the same
-- scheme, audience, request nonce, status and body hash.
pub response_text-inj :
    (s t : Scheme) (f g : ResponseFields)
    → IsOneLineAnswer f
    → IsOneLineAnswer g
    → lines (response_lines s f) ≡ lines (response_lines t g)
    → (s ≡ t) × (f ≡ g)
unfolding response_lines
response_text-inj s t f g h i e =
    let same : response_lines s f ≡ response_lines t g =
      sym (response-read_back s f h) ∙ ap (split b'\n') e ∙ response-read_back t g i in
    let status : f.status ≡ g.status =
      sym (number_of-decimal f.status)
      ∙ ap (λ ss. number_of (line 3 ss)) same
      ∙ number_of-decimal g.status in
    (
      response_domain-inj s t (ap (line 0) same),
      λ k. record {
        audience = ap (line 1) same k;
        request_nonce = ap (line 2) same k;
        status = status k;
        body_sha256 = ap (line 4) same k;
      },
    )

-- No request has the signed text of an answer, whatever the schemes.
pub request_is_no_response :
    (s t : Scheme) (f : RequestFields) (g : ResponseFields)
    → IsOneLine f
    → IsOneLineAnswer g
    → lines (request_lines s f) ≢ lines (response_lines t g)
unfolding request_lines response_lines
request_is_no_response s t f g h i e =
    let same : request_lines s f ≡ response_lines t g =
      sym (request-read_back s f h) ∙ ap (split b'\n') e ∙ response-read_back t g i in
    let longer : length (tail (request_lines s f)) ≡ length (tail (response_lines t g)) =
      ap (λ ss. length (tail ss)) same in
    absurd (omega (arith, longer))
