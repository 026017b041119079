-- ===== src/Handover/Decide.antt =====
-- internal/persistence/postgres/handover.go: accepting, declining and cancelling an offer, and the
-- move that an admin forces.
use sparks_effect_api.Prelude.{
  ℕ, List, [], ◌∷◌, Option, some, Str, Bool, false, ◌&&◌, ◌||◌, ◌==◌, str_Eq, if◌then◌else◌, Result,
  ok, err, ◌>>=◌, or_fail, update_where, select,
}
use sparks_effect_api.Handover.{
  HandoverError, handover_not_found, handover_not_pending, sender_not_owner, handover_to_owner,
  no_row, Handover, ServiceRow, Tables, is_live, read_handover, expire_stale_pending, accepted,
  declined, cancelled,
}
use sparks_effect_api.Handover.Move.{move_locked_user_service, refuse_disabled_recipient}

-- The column a decision belongs to.
pub data Party : Type 0 where
  sender : Party
  recipient : Party

unfoldable pub party_of : Party → Handover → Str
party_of sender h = h.from_user_id
party_of recipient h = h.to_user_id

unfoldable pub is_offer_of : Party → Str → Str → Handover → Bool
unfolding party_of
is_offer_of party id caller h = h.id == id && party_of party h == caller

-- `SELECT EXISTS`, and whether an update reached a row.
unfoldable pub any_where : {A : Type 0} → (A → Bool) → List A → Bool
any_where p [] = false
any_where p (x ∷ xs) = p x || any_where p xs

unfoldable pub close : ℕ → Str → Handover → Handover
close now status h = record h { status = status; decided_at = some now }

-- The rows that a decision closes.
unfoldable pub is_decided : ℕ → Party → Str → Str → Handover → Bool
unfolding is_offer_of
is_decided now party id caller h = is_offer_of party id caller h && is_live now h

-- `decideHandover`
unfoldable pub decide_handover :
    ℕ → Party → Str → Str → Str → Tables → Result HandoverError (Handover × Tables)
unfolding is_decided is_offer_of any_where close
decide_handover now party id caller status t =
    let t' = record t {
      handovers = update_where (is_decided now party id caller) (close now status) t.handovers;
    } in
    let answer = do h ← read_handover now t' id; ok (h, t')
    in if any_where (is_decided now party id caller) t.handovers
      then answer
      else if any_where (is_offer_of party id caller) t.handovers
      then err handover_not_pending
      else err handover_not_found

unfoldable pub cancel_service_handover :
    ℕ → Str → Str → Tables → Result HandoverError (Handover × Tables)
unfolding decide_handover
cancel_service_handover now id from t = decide_handover now sender id from cancelled t

unfoldable pub decline_service_handover :
    ℕ → Str → Str → Tables → Result HandoverError (Handover × Tables)
unfolding decide_handover
decline_service_handover now id to t = decide_handover now recipient id to declined t

-- `lockUserService`
unfoldable pub lock_user_service : Str → Tables → Option ServiceRow
lock_user_service service t = select (λ (s : ServiceRow). s.id == service) t.services

unfoldable pub accept_service_handover :
    ℕ → Str → Str → Str → Tables → Result HandoverError (Handover × Tables)
unfolding is_offer_of close lock_user_service
accept_service_handover now copy_id id to t = do
  found ← or_fail (select (is_offer_of recipient id to) t.handovers) handover_not_found
  service ← or_fail (lock_user_service found.user_service_id t) handover_not_found
  offer ← or_fail (select (is_offer_of recipient id to) t.handovers) handover_not_found
  _ ← if is_live now offer then ok tt else err handover_not_pending
  _ ← if service.owner_id == offer.from_user_id then ok tt else err sender_not_owner
  _ ← refuse_disabled_recipient to t
  moved ← move_locked_user_service now copy_id found.user_service_id service.route_id to t
  let t' : Tables = record moved {
    handovers = update_where (λ (h : Handover). h.id == id) (close now accepted) moved.handovers;
  }
  h ← read_handover now t' id
  ok (h, t')

-- `TransferUserService`; the ids are those that `ids.NewUUID` returns.
unfoldable pub transfer_user_service :
    ℕ → Str → Str → Str → Str → Str → Tables → Result HandoverError (Handover × Tables)
unfolding close lock_user_service
transfer_user_service now copy_id audit_id service_id to forced_by t = do
  service ← or_fail (lock_user_service service_id t) no_row
  _ ← if service.owner_id == to then err handover_to_owner else ok tt
  _ ← refuse_disabled_recipient to t
  moved ← move_locked_user_service now copy_id service_id service.route_id to t
  let audit : Handover = record {
    id = audit_id;
    user_service_id = service_id;
    from_user_id = service.owner_id;
    to_user_id = to;
    status = accepted;
    decided_at = some now;
    expires_at = now;
    forced_by = some forced_by;
  }
  let closed =
      update_where (λ (h : Handover). h.user_service_id == service_id && is_live now h)
        (close now cancelled) (expire_stale_pending now service_id moved.handovers)
  let t' : Tables = record moved { handovers = audit ∷ closed }
  h ← read_handover now t' audit_id
  ok (h, t')
