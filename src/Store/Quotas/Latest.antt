-- ===== src/Store/Quotas/Latest.antt =====
-- The two queries for the latest snapshots agree.
use Prim.Native.Char.{Char}
use text.Mathlib.TextLemmas.{nil-append, cons-append, append_cancel_left}
use cmap.Common.{
  ℕ, ◌≡◌, refl, sym, ◌∙◌, ap, subst, Bool, true, false, String, ◌==◌, eq_iff, ==→eq, ◌⧺◌, Option,
  none, some, List, [], ◌∷◌, Dict, get, put, get-put, get-put_self, &&_left, &&_right, &&_both,
  keep, All, Platform, ◌&&◌, earlier, insert_by, sort_by, split, split-append, lacks, all_chars,
  arith, Bool-cases, Option-cases, inl, inr, if◌then◌else◌,
}
use cmap.Approval.{is_text, is_time}
use cmap.Store.Quotas.{
  Provider, codex, claude, kimi, provider_text, QuotaSnapshot, same_provider, is_of, account_key,
  time_of, not_older, first, replaces, get_latest_quota_snapshot, latest_by_account,
}

some_eq : {a b : QuotaSnapshot} → ◌≡◌ {A = Option QuotaSnapshot} (some a) (some b) → a ≡ b
some_eq e = cc

-- of three times the latest, taken in either order
three :
    (b x y : Option ℕ)
    → is_time b ≡ true
    → is_time x ≡ true
    → is_time y ≡ true
    → (qb qx qy : QuotaSnapshot)
    → (if earlier (if earlier b x then x else b) y then qy else (if earlier b x then qx else qb))
      ≡ (if earlier b (if earlier x y then y else x) then (if earlier x y then qy else qx) else qb)
three none x y db dx dy qb qx qy = absurd (ground arith)
three (some b) none y db dx dy qb qx qy = absurd (ground arith)
three (some b) (some x) none db dx dy qb qx qy = absurd (ground arith)
three (some b) (some x) (some y) db dx dy qb qx qy = ground arith

abbrev zero_char : Char
zero_char = "\0"

provider_text-lacks : (a : Provider) → lacks 0 (provider_text a) ≡ true
unfolding all_chars
provider_text-lacks codex = refl
provider_text-lacks claude = refl
provider_text-lacks kimi = refl

zero-append : (s : String) → "\0" ⧺ s ≡ String.◌∷◌ zero_char s
zero-append s = cons-append zero_char "" s ∙ ap (λ t. String.◌∷◌ zero_char t) (nil-append s)

abbrev head_of : List String → String
head_of [] = ""
head_of (s ∷ ss) = s

-- the provider is read back from a key
head-key :
    (a : Provider) (s : String) → head_of (split 0 (provider_text a ⧺ ("\0" ⧺ s))) ≡ provider_text a
head-key a s =
    ap (λ t. head_of (split 0 (provider_text a ⧺ t))) (zero-append s)
    ∙ ap head_of (split-append zero_char (provider_text a) s (provider_text-lacks a))

same_key :
    (a b : Provider) (o : Option String) (account : String)
    → (same_provider a b && is_text o account) ≡ true
    → account_key a o ≡ account_key b (some account)
unfolding account_key is_text
same_key a b none account h = absurd (ground arith)
same_key a b (some s) account h =
    let texts = ==→eq (provider_text a) (provider_text b) (&&_left _ _ h) in
    let accounts = ==→eq s account (&&_right _ _ h) in λ i. texts i ⧺ ("\0" ⧺ accounts i)

key-inj :
    (a b : Provider) (s t : String)
    → provider_text a ⧺ ("\0" ⧺ s) ≡ provider_text b ⧺ ("\0" ⧺ t)
    → (provider_text a ≡ provider_text b) × (s ≡ t)
key-inj a b s t h =
    let texts = sym (head-key a s) ∙ ap (λ k. head_of (split 0 k)) h ∙ head-key b t in
    let rest =
      append_cancel_left (provider_text b) ("\0" ⧺ s) ("\0" ⧺ t)
        (subst (λ x. x ⧺ ("\0" ⧺ s) ≡ provider_text b ⧺ ("\0" ⧺ t)) texts h) in
    (texts, append_cancel_left "\0" s t rest)

other_key :
    (a b : Provider) (s t : String)
    → (same_provider a b && s == t) ≡ false
    → (provider_text a ⧺ ("\0" ⧺ s) == provider_text b ⧺ ("\0" ⧺ t)) ≡ false
other_key a b s t h =
    elim (Bool-cases (provider_text a ⧺ ("\0" ⧺ s) == provider_text b ⧺ ("\0" ⧺ t))) [
      | inr other ↦ other
      | inl same ↦
          let (texts, rest) =
            key-inj a b s t
              (==→eq (provider_text a ⧺ ("\0" ⧺ s)) (provider_text b ⧺ ("\0" ⧺ t)) same) in
          let both : (same_provider a b && s == t) ≡ true =
            &&_both ((eq_iff (provider_text a) (provider_text b)).1 texts) ((eq_iff s t).1 rest) in
          let no : true ≡ false = sym both ∙ h in absurd (ground arith)
    ]

is_of-key :
    (q : QuotaSnapshot) (provider : Provider) (account a : String)
    → q.account_ref ≡ some a
    → is_of provider account q ≡ false
    → (account_key q.provider q.account_ref == account_key provider (some account)) ≡ false
unfolding is_of account_key is_text
is_of-key q provider account a named other =
    rw named (other_key q.provider provider a account (sym (rw named refl) ∙ other))

module _ (p : Platform) where
  -- the time of the snapshot can be parsed
  abbrev pub IsDated : QuotaSnapshot → Type 0
  IsDated q = is_time (time_of p q) ≡ true

  -- the later one, the first where both are of one time
  abbrev later : QuotaSnapshot → Option QuotaSnapshot → QuotaSnapshot
  later a none = a
  later a (some b) = if earlier (time_of p a) (time_of p b) then b else a

  first-insert_by :
      (q : QuotaSnapshot) (qs : List QuotaSnapshot)
      → first p (insert_by (not_older p) q qs) ≡ some (later q (first p qs))
  unfolding insert_by
  first-insert_by q [] = refl
  first-insert_by q (x ∷ xs) = ground arith

  -- what the loop keeps of the snapshots of one account
  abbrev best : Option QuotaSnapshot → List QuotaSnapshot → Option QuotaSnapshot
  best o [] = o
  best o (q ∷ qs) = best (if replaces p q o then some q else o) qs

  either-IsDated : (x z : QuotaSnapshot) → IsDated x → IsDated z → IsDated (later x (some z))
  either-IsDated x z dx dz = ground arith

  first-IsDated :
      (qs : List QuotaSnapshot) (y : QuotaSnapshot)
      → All IsDated qs
      → first p (sort_by (not_older p) qs) ≡ some y
      → IsDated y
  unfolding sort_by
  first-IsDated [] y d h = absurd (ground arith)
  first-IsDated (x ∷ xs) y d h = elim (Option-cases (first p (sort_by (not_older p) xs))) [
    | inl none_yet ↦
        let e : x ≡ y = some_eq (
          ap (λ o. some (later x o)) (sym none_yet)
          ∙ sym (first-insert_by x (sort_by (not_older p) xs))
          ∙ h) in
        subst IsDated e d.0
    | inr (z, found) ↦
        let e : later x (some z) ≡ y = some_eq (
          ap (λ o. some (later x o)) (sym found)
          ∙ sym (first-insert_by x (sort_by (not_older p) xs))
          ∙ h) in
        subst IsDated e (either-IsDated x z d.0 (first-IsDated xs z d.1 found))
  ]

  later_assoc :
      (b x : QuotaSnapshot) (o : Option QuotaSnapshot)
      → IsDated b
      → IsDated x
      → ((y : QuotaSnapshot) → o ≡ some y → IsDated y)
      → later (if earlier (time_of p b) (time_of p x) then x else b) o ≡ later b (some (later x o))
  later_assoc b x none db dx dy = ground arith
  later_assoc b x (some y) db dx dy =
      let d = dy y refl in
      ground (arith, three (time_of p b) (time_of p x) (time_of p y) db dx d b x y)

  best-later :
      (b : QuotaSnapshot) (qs : List QuotaSnapshot)
      → IsDated b
      → All IsDated qs
      → best (some b) qs ≡ some (later b (first p (sort_by (not_older p) qs)))
  unfolding sort_by
  best-later b [] db d = refl
  best-later b (x ∷ xs) db d =
      let rest = first p (sort_by (not_older p) xs) in
      let go = ap (λ o. some (later b o)) (first-insert_by x (sort_by (not_older p) xs)) in
      let assoc = later_assoc b x rest db d.0 (λ y h. first-IsDated xs y d.1 h) in
      elim (Bool-cases (earlier (time_of p b) (time_of p x))) [
        | inl newer ↦ rw newer (
            best-later x xs d.0 d.1
            ∙ ap (λ q. some q)
                (subst (λ t. later (if t then x else b) rest ≡ later b (some (later x rest))) newer
                  assoc)
            ∙ sym go)
        | inr older ↦ rw older (
            best-later b xs db d.1
            ∙ ap (λ q. some q)
                (subst (λ t. later (if t then x else b) rest ≡ later b (some (later x rest))) older
                  assoc)
            ∙ sym go)
      ]

  best-first :
      (qs : List QuotaSnapshot) → All IsDated qs → best none qs ≡ first p (sort_by (not_older p) qs)
  unfolding sort_by
  best-first [] d = refl
  best-first (q ∷ qs) d =
      best-later q qs d.0 d.1 ∙ sym (first-insert_by q (sort_by (not_older p) qs))

  -- the snapshot names its account
  abbrev pub HasAccount : QuotaSnapshot → Type 0
  HasAccount q = (a : String) × (q.account_ref ≡ some a)

  get-replace :
      (q : QuotaSnapshot) (m : Dict QuotaSnapshot) (k : String)
      → get (if replaces p q (get m k) then put m k q else m) k
        ≡ (if replaces p q (get m k) then some q else get m k)
  get-replace q m k = ground (arith, get-put_self m k q)

  get-apart :
      (q : QuotaSnapshot) (m : Dict QuotaSnapshot) (j k : String)
      → (j == k) ≡ false
      → get (if replaces p q (get m j) then put m j q else m) k ≡ get m k
  get-apart q m j k e = ground (arith, get-put m j k q)

  All-keep :
      (t : QuotaSnapshot → Bool) (qs : List QuotaSnapshot)
      → All IsDated qs
      → All IsDated (keep t qs)
  All-keep t [] d = tt
  All-keep t (q ∷ qs) d = elim (Bool-cases (t q)) [
    | inl kept ↦ rw kept (d.0, All-keep t qs d.1)
    | inr out ↦ rw out (All-keep t qs d.1)
  ]

  latest_by_account-best :
      (qs : List QuotaSnapshot) (m : Dict QuotaSnapshot) (provider : Provider) (account : String)
      → All HasAccount qs
      → get (latest_by_account p qs m) (account_key provider (some account))
        ≡ best (get m (account_key provider (some account))) (keep (is_of provider account) qs)
  unfolding latest_by_account
  latest_by_account-best [] m provider account h = refl
  latest_by_account-best (q ∷ qs) m provider account h =
      let key = account_key provider (some account) in
      let own = account_key q.provider q.account_ref in
      let next = if replaces p q (get m own) then put m own q else m in
      latest_by_account-best qs next provider account h.1
      ∙ elim (Bool-cases (is_of provider account q)) [
        | inl same ↦
            let e : own ≡ key =
              same_key q.provider provider q.account_ref account (unfold is_of in same) in
            subst
              (λ k.
                best (get (if replaces p q (get m k) then put m k q else m) key)
                  (keep (is_of provider account) qs)
                ≡ best (get m key) (keep (is_of provider account) (q ∷ qs)))
              (sym e)
              (rw same (ap (λ o. best o (keep (is_of provider account) qs)) (get-replace q m key)))
        | inr other ↦
            let e = is_of-key q provider account h.0.0 h.0.1 other in
            rw other (ap (λ o. best o (keep (is_of provider account) qs)) (get-apart q m own key e))
      ]

  -- The loop of listLatestQuotaSnapshots holds for every provider and account the snapshot that
  -- getLatestQuotaSnapshot returns, or none where it returns null: of the snapshots of that account one
  -- of the latest, the first of those. Every snapshot names its account and has a time that can be
  -- parsed.
  pub latest_snapshots_agree :
      (quota : List QuotaSnapshot) (provider : Provider) (account : String)
      → All HasAccount quota
      → All IsDated quota
      → get (latest_by_account p quota []) (account_key provider (some account))
        ≡ get_latest_quota_snapshot p provider account quota
  unfolding get_latest_quota_snapshot get
  latest_snapshots_agree quota provider account named dated =
      latest_by_account-best quota [] provider account named
      ∙ best-first (keep (is_of provider account) quota)
          (All-keep (is_of provider account) quota dated)
