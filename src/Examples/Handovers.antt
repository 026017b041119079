-- ===== src/Examples/Handovers.antt =====
-- One offer of a service, accepted, and one forced move.
use sparks_effect_api.Handover.Move.{move_locked_user_service, refuse_disabled_recipient, reown}
use sparks_effect_api.Prelude.{
  List, [], ◌∷◌, none, some, Str, codes, true, false, ◌≡◌, ◌≢◌, refl, ok, arith, str_eq, lookup, In,
  inl, inr, sym, ap, ◌∙◌, str_apart, str_Eq, has_row, select, update_where,
}
use sparks_effect_api.Handover.{
  expire_stale_pending, has_pending_service_handover, Handover, ServiceRow, RouteRow, Tables,
  is_live, accepted, offered_row, offer_service_handover, read_handover, expire_stale_pending,
}
use sparks_effect_api.Handover.Decide.{
  accept_service_handover, transfer_user_service, lock_user_service, is_offer_of, recipient,
}
use sparks_effect_api.Handover.Pending.{
  offers, OnePending, count_pending, Step-OnePending, count_pending,
}
use sparks_effect_api.Handover.Offers.{AreClosed, new_offer, offer_service_handover-ok}
use sparks_effect_api.Handover.Success.{audit_row}
use sparks_effect_api.Handover.Moved.{
  IsMoved, accept_service_handover-IsMoved, transfer_user_service-IsMoved,
}

abbrev service : Str
service = codes "s"

abbrev from : Str
from = codes "u"

abbrev to : Str
to = codes "w"

abbrev route_of : Str → Str → Str → RouteRow
route_of id owner slug = record { id = id; owner_id = some owner; slug = slug; geometry = 7 ∷ [] }

-- Before the offer.
abbrev tables : Tables
tables = record {
  handovers = [];
  services = record { id = service; owner_id = from; route_id = codes "r"; updated_at = 1 } ∷ [];
  routes = route_of (codes "r") from (codes "line") ∷ [];
  jobs = record { id = codes "j"; user_service_id = some service; owner_id = some from } ∷ [];
  disabled = (from, false) ∷ (to, false) ∷ [];
  members = [];
}

abbrev offered : Tables
offered = record tables { handovers = offered_row 10 5 (codes "h") service from to ∷ [] }

offer_passes :
    offer_service_handover 10 5 (codes "h") service from to tables
    ≡ ok (offered_row 10 5 (codes "h") service from to, offered)
unfolding offer_service_handover str_eq has_row lookup
offer_passes = refl

none_pending : OnePending []
unfolding count_pending
none_pending = record { at_most = λ s. omega arith }

Step-OnePending_example : OnePending offered.handovers
unfolding count_pending
Step-OnePending_example =
    Step-OnePending
      (offers 10 5 (codes "h") service from to (offered_row 10 5 (codes "h") service from to)
        offer_passes)
      none_pending

abbrev moved : List Handover → Tables
moved handovers = record {
  handovers = handovers;
  services = record { id = service; owner_id = to; route_id = codes "q"; updated_at = 12 } ∷ [];
  routes = route_of (codes "q") to (codes "line-2") ∷ route_of (codes "r") from (codes "line") ∷ [];
  jobs = record { id = codes "j"; user_service_id = some service; owner_id = some to } ∷ [];
  disabled = (from, false) ∷ (to, false) ∷ [];
  members = [];
}

abbrev closed : Handover
closed = record {
  id = codes "h";
  user_service_id = service;
  from_user_id = from;
  to_user_id = to;
  status = accepted;
  decided_at = some 12;
  expires_at = 15;
  forced_by = none;
}

accept_passes :
    accept_service_handover 12 (codes "q") (codes "h") to offered ≡ ok (closed, moved (closed ∷ []))
unfolding accept_service_handover select str_eq is_live refuse_disabled_recipient lookup
    move_locked_user_service read_handover update_where reown
accept_passes = refl

accept_service_handover-IsMoved_example :
    (offer : Handover) × (select (is_offer_of recipient (codes "h") to) offered.handovers
      ≡ some offer)
    × (is_live 12 offer ≡ true)
    × ((row : ServiceRow) × (lock_user_service offer.user_service_id offered ≡ some row)
        × (row.owner_id ≡ offer.from_user_id))
    × IsMoved offer.user_service_id to offered (moved (closed ∷ []))
accept_service_handover-IsMoved_example =
    accept_service_handover-IsMoved 12 (codes "q") (codes "h") to offered (moved (closed ∷ []))
      closed accept_passes

abbrev audit : Handover
audit = audit_row 12 (codes "i") service from to (codes "root")

transfer_passes :
    transfer_user_service 12 (codes "q") (codes "i") service to (codes "root") tables
    ≡ ok (audit, moved (audit ∷ []))
unfolding transfer_user_service select str_eq refuse_disabled_recipient lookup
    move_locked_user_service read_handover update_where reown expire_stale_pending
transfer_passes = refl

transfer_user_service-IsMoved_example :
    ((row : ServiceRow) × (lock_user_service service tables ≡ some row) × (row.owner_id ≢ to))
    × IsMoved service to tables (moved (audit ∷ []))
transfer_user_service-IsMoved_example =
    transfer_user_service-IsMoved 12 (codes "q") (codes "i") service to (codes "root") tables
      (moved (audit ∷ [])) audit transfer_passes

-- The old offer of the table is past its time, so a new one can be made.
abbrev late : Tables
late = record tables { handovers = offered_row 10 5 (codes "h") service from to ∷ [] }

none_live : has_pending_service_handover 20 service late ≡ false
unfolding has_pending_service_handover str_eq
none_live = refl

from_known : lookup late.disabled from ≡ some false
unfolding lookup str_eq
from_known = refl

to_known : lookup late.disabled to ≡ some false
unfolding lookup str_eq
to_known = refl

two_users : from ≢ to
unfolding str_eq
two_users = str_apart from to refl

new_id : (h : Handover) → In h late.handovers → h.id ≢ codes "k"
unfolding str_eq
new_id h (inl p) e =
    str_apart (codes "h") (codes "k") refl (sym (ap (λ (x : Handover). x.id) p) ∙ e)
new_id h (inr n) e = elim n [ ]

offer_service_handover-ok_example :
    (rest : List Handover) × AreClosed 20 service late.handovers rest
    × (offer_service_handover 20 5 (codes "k") service from to late
        ≡ ok (
          new_offer 20 5 (codes "k") service from to,
          record late { handovers = new_offer 20 5 (codes "k") service from to ∷ rest },
        ))
offer_service_handover-ok_example =
    offer_service_handover-ok 20 5 (codes "k") from to late
      (record { id = service; owner_id = from; route_id = codes "r"; updated_at = 1 }) false false
      (omega arith) (inl refl) from_known to_known two_users new_id none_live
