-- ===== src/Store/Leases.antt =====
-- Leases of the outbound gateway in packages/domain-model/src/memory-store.ts: enqueue, claim, renew,
-- report, cancel. `now` is the time value of the caller's clock.
use cmap.Common.{
  ℕ, Bool, true, false, String, ◌==◌, Option, none, some, List, [], ◌∷◌, get, put, values, keep, ok,
  err, Platform, ◌&&◌, earlier, sort_by, if◌then◌else◌,
}
use Prim.Native.Char.{code}
use cmap.Common.{◌+◌, ◌-◌, ◌*◌, leb, ltb, eqb, ◌||◌}
use cmap.Gateway.{
  GatewayLease, EnqueueInput, Report, Cancel, ReportOutcome, advanced, refused, is_queued,
  new_lease, same_enqueue, can_renew_lease, claimed_lease, renewed_lease, apply_gateway_report,
  apply_gateway_cancel,
}
use cmap.Store.{MemoryStore, Method, lease_conflict}

unfoldable pub enqueue_gateway_lease : EnqueueInput → Method GatewayLease
enqueue_gateway_lease i s = elim (get s.gateway_leases i.lease_id) [
  | some existing ↦
      if same_enqueue existing i then (ok existing, s) else (err (lease_conflict i.lease_id), s)
  | none ↦
      let lease = new_lease i in
      (ok lease, record s { gateway_leases = put s.gateway_leases lease.lease_id lease })
]

-- the order of characters by their UTF-16 units: one beyond the basic plane stands where its
-- surrogates do, below 0xE000
unfoldable pub unit_key : ℕ → ℕ
unit_key c = if leb 0x10000 c then 0xd800 * 0x10000 + (c - 0x10000) else c * 0x10000

-- a < b on texts
unfoldable pub text_lt : String → String → Bool
unfolding unit_key
text_lt String.[] String.[] = false
text_lt String.[] (String.◌∷◌ d t) = true
text_lt (String.◌∷◌ c s) String.[] = false
text_lt (String.◌∷◌ c s) (String.◌∷◌ d t) =
    ltb (unit_key (code c)) (unit_key (code d)) || (eqb (code c) (code d) && text_lt s t)

module _ (p : Platform) where
  open p use {date_parse}

  -- a does not come after b in the order of the claims: by time of creation, then by id. A difference
  -- that is NaN or 0 leaves the ids to decide.
  unfoldable pub claims_before : GatewayLease → GatewayLease → Bool
  unfolding text_lt
  claims_before a b =
      if earlier (date_parse a.created_at) (date_parse b.created_at)
      then true
      else if earlier (date_parse b.created_at) (date_parse a.created_at)
      then false
      else text_lt a.lease_id b.lease_id

  -- the queued leases of a runner, the next one first
  unfoldable pub waiting_leases : String → MemoryStore → List GatewayLease
  unfolding sort_by claims_before
  waiting_leases runner s =
      sort_by claims_before
        (keep (λ l. l.runner_id == runner && is_queued l.state) (values s.gateway_leases))

  -- claimGatewayLease, by the queued leases in order
  unfoldable pub claim_first :
      ℕ → String → List GatewayLease → MemoryStore → Option GatewayLease × MemoryStore
  unfolding claimed_lease
  claim_first now until [] s = (none, s)
  claim_first now until (next ∷ later) s =
      let leased = claimed_lease p next now until in
      (some leased, record s { gateway_leases = put s.gateway_leases leased.lease_id leased })

  unfoldable pub claim_gateway_lease :
      String → ℕ → String → MemoryStore → Option GatewayLease × MemoryStore
  claim_gateway_lease runner now until s = claim_first now until (waiting_leases runner s) s

  -- one round of the loop of renewGatewayLeases: the renewed lease, if it may be renewed
  unfoldable pub renew_one :
      String → ℕ → String → String → MemoryStore → Option GatewayLease × MemoryStore
  renew_one runner now until id s = elim (get s.gateway_leases id) [
    | none ↦ (none, s)
    | some l ↦
        if can_renew_lease p (some l) runner now
        then (let next = renewed_lease p l now until in
            (some next, record s { gateway_leases = put s.gateway_leases id next }))
        else (none, s)
  ]

  pub record Renewal : Type 0 where
    pub renewed : List GatewayLease
    pub expired : List String

  -- the lists that the loop appends to, here from the front
  abbrev pub sorted_into : String → Option GatewayLease → Renewal → Renewal
  sorted_into id (some l) r = record r { renewed = l ∷ r.renewed }
  sorted_into id none r = record r { expired = id ∷ r.expired }

  unfoldable pub renew_gateway_leases :
      String → List String → ℕ → String → MemoryStore → Renewal × MemoryStore
  renew_gateway_leases runner [] now until s = (record { renewed = []; expired = [] }, s)
  renew_gateway_leases runner (id ∷ ids) now until s =
      let (one, s') = renew_one runner now until id s in
      let (rest, s'') = renew_gateway_leases runner ids now until s' in
      (sorted_into id one rest, s'')

  -- recordGatewayReport, by the outcome of applyGatewayReport
  unfoldable pub settle_report : String → ReportOutcome → MemoryStore → ReportOutcome × MemoryStore
  settle_report id (advanced l) s =
      (advanced l, record s { gateway_leases = put s.gateway_leases id l })
  settle_report id (refused e) s = (refused e, s)

  unfoldable pub record_gateway_report :
      String → String → Report → ℕ → String → MemoryStore → ReportOutcome × MemoryStore
  record_gateway_report runner id body now until s =
      settle_report id (apply_gateway_report p (get s.gateway_leases id) runner body now until) s

  unfoldable pub cancel_gateway_lease :
      String → Cancel → ℕ → MemoryStore → Option GatewayLease × MemoryStore
  cancel_gateway_lease id c now s = elim (get s.gateway_leases id) [
    | none ↦ (none, s)
    | some l ↦
        let next = apply_gateway_cancel p l c now in
        (some next, record s { gateway_leases = put s.gateway_leases id next })
  ]

unfoldable pub get_gateway_lease : String → MemoryStore → Option GatewayLease
get_gateway_lease id s = get s.gateway_leases id
