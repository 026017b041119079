-- ===== src/Handover.antt =====
-- internal/persistence/postgres/handover.go: handing a service over to another user, on the rows of
-- the tables that it reads and writes. A call that fails leaves the rows as they were, since its
-- transaction is rolled back. The failures of the database itself are left out.
pub mod Move
pub mod Decide
pub mod Success
pub mod Pending
pub mod Moved
pub mod Offers
use sparks_effect_api.Prelude.{
  ℕ, ◌+◌, List, [], ◌∷◌, Option, none, some, Str, codes, Bool, false, ◌&&◌, ◌||◌, ltb, leb, ◌==◌,
  str_Eq, if◌then◌else◌, Result, ok, err, ◌>>=◌, or_fail, update_where, select, has_row, lookup,
  true,
}

-- The statuses of internal/transit/handover.go.
abbrev pub pending : Str
pending = codes "pending"

abbrev pub accepted : Str
accepted = codes "accepted"

abbrev pub declined : Str
declined = codes "declined"

abbrev pub cancelled : Str
cancelled = codes "cancelled"

abbrev pub expired : Str
expired = codes "expired"

pub data HandoverError : Type 0 where
  handover_pending : HandoverError
  handover_not_found : HandoverError
  handover_not_pending : HandoverError
  sender_not_owner : HandoverError
  recipient_disabled : HandoverError
  handover_to_owner : HandoverError
  in_scenarios : List Str → HandoverError
  no_row : HandoverError
  no_free_slug : Str → HandoverError
  insert_refused : HandoverError

-- A row of `service_handovers`.
pub record Handover : Type 0 where
  pub id : Str
  pub user_service_id : Str
  pub from_user_id : Str
  pub to_user_id : Str
  pub status : Str
  pub decided_at : Option ℕ
  pub expires_at : ℕ
  pub forced_by : Option Str

pub record ServiceRow : Type 0 where
  pub id : Str
  pub owner_id : Str
  pub route_id : Str
  pub updated_at : ℕ

pub record RouteRow : Type 0 where
  pub id : Str
  pub owner_id : Option Str
  pub slug : Str
  pub geometry : List ℕ

pub record JobRow : Type 0 where
  pub id : Str
  pub user_service_id : Option Str
  pub owner_id : Option Str

-- `disabled` holds each user with whether the account is disabled; `members` each scenario slug
-- with a service in it, in the order of the slugs.
pub record Tables : Type 0 where
  pub handovers : List Handover
  pub services : List ServiceRow
  pub routes : List RouteRow
  pub jobs : List JobRow
  pub disabled : List (Str × Bool)
  pub members : List (Str × Str)

-- `livePending` and `expiredPending`
unfoldable pub is_live : ℕ → Handover → Bool
is_live now h = h.status == pending && ltb now h.expires_at

unfoldable pub is_past : ℕ → Handover → Bool
is_past now h = h.status == pending && leb h.expires_at now

-- `handoverSelect`: a row is shown as expired from its `expires_at` on.
unfoldable pub shown : ℕ → Handover → Handover
unfolding is_past
shown now h = if is_past now h then record h { status = expired } else h

unfoldable pub read_handover : ℕ → Tables → Str → Result HandoverError Handover
unfolding shown select
read_handover now t id = do
  h ← or_fail (select (λ (h : Handover). h.id == id) t.handovers) no_row
  ok (shown now h)

-- `expireStalePending`
unfoldable pub expire_stale_pending : ℕ → Str → List Handover → List Handover
unfolding is_past update_where
expire_stale_pending now service =
    update_where (λ h. h.user_service_id == service && is_past now h)
      (λ h. record h { status = expired; decided_at = some h.expires_at })

-- What the unique index `service_handovers_one_pending` refuses a pending row for.
unfoldable pub has_pending : Str → List Handover → Bool
has_pending service [] = false
has_pending service (h ∷ hs) =
    (h.user_service_id == service && h.status == pending) || has_pending service hs

-- `SELECT EXISTS` of `HasPendingServiceHandover`.
unfoldable pub has_live : ℕ → Str → List Handover → Bool
unfolding is_live
has_live now service [] = false
has_live now service (h ∷ hs) =
    (h.user_service_id == service && is_live now h) || has_live now service hs

unfoldable pub has_pending_service_handover : ℕ → Str → Tables → Bool
unfolding has_live
has_pending_service_handover now service t = has_live now service t.handovers

-- The row that an offer inserts.
abbrev pub offered_row : ℕ → ℕ → Str → Str → Str → Str → Handover
offered_row now ttl id service from to = record {
  id = id;
  user_service_id = service;
  from_user_id = from;
  to_user_id = to;
  status = pending;
  decided_at = none;
  expires_at = now + ttl;
  forced_by = none;
}

unfoldable pub is_user : Tables → Str → Bool
is_user t id = elim (lookup t.disabled id) [ none ↦ false | some _ ↦ true ]

-- The check `service_handovers_not_to_self` and the primary key, which come before the index.
unfoldable pub breaks_row : Str → Str → Str → Tables → Bool
breaks_row id from to t = from == to || has_row (λ (h : Handover). h.id == id) t.handovers

-- The foreign keys of the row, which are checked last.
unfoldable pub has_references : Str → Str → Str → Tables → Bool
unfolding is_user
has_references service from to t =
    has_row (λ (s : ServiceRow). s.id == service) t.services && is_user t from && is_user t to

-- `OfferServiceHandover`; its INSERT answers to the constraints of the table (00032).
unfoldable pub offer_service_handover :
    ℕ → ℕ → Str → Str → Str → Str → Tables → Result HandoverError (Handover × Tables)
unfolding expire_stale_pending has_pending read_handover breaks_row has_references
offer_service_handover now ttl id service from to t = do
  let handovers = expire_stale_pending now service t.handovers
  t' ←
      if breaks_row id from to t
      then err insert_refused
      else if has_pending service handovers
      then err handover_pending
      else if has_references service from to t
      then ok (record t { handovers = offered_row now ttl id service from to ∷ handovers })
      else err insert_refused
  h ← read_handover now t' id
  ok (h, t')
