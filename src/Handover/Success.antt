-- ===== src/Handover/Success.antt =====
-- What has been read and written when a move of a service succeeds.
use sparks_effect_api.Prelude.{
  ℕ, ◌∷◌, some, Str, Bool, true, false, ◌&&◌, ◌==◌, str_Eq, if◌then◌else◌, ok, err, >>=-eq-ok,
  err-eq-ok, ok-eq-ok, or_fail, or_fail-eq-ok, ◌≡◌, refl, ap, subst, update_where, select,
}
use sparks_effect_api.Handover.{
  Handover, ServiceRow, Tables, is_live, accepted, cancelled, HandoverError, expire_stale_pending,
  read_handover, handover_not_found, handover_not_pending, sender_not_owner, handover_to_owner,
  no_row,
}
use sparks_effect_api.Handover.Move.{refuse_disabled_recipient, move_locked_user_service}
use sparks_effect_api.Handover.Decide.{
  recipient, is_offer_of, close, lock_user_service, accept_service_handover, transfer_user_service,
}

-- A test that had to hold for a chain to go on.
pub guard-eq-ok : (b : Bool) (e : HandoverError) → (if b then ok tt else err e) ≡ ok tt → b ≡ true
guard-eq-ok true e h = refl
guard-eq-ok false e h = err-eq-ok e tt h

pub refusal-eq-ok :
    (b : Bool) (e : HandoverError) → (if b then err e else ok tt) ≡ ok tt → b ≡ false
refusal-eq-ok true e h = err-eq-ok e tt h
refusal-eq-ok false e h = refl

pub record IsAccept (now : ℕ) (copy_id id to : Str) (t t' : Tables) : Type 0 where
  pub offer : Handover
  pub service : ServiceRow
  pub moved : Tables
  pub addressed : select (is_offer_of recipient id to) t.handovers ≡ some offer
  pub locked : lock_user_service offer.user_service_id t ≡ some service
  pub live : is_live now offer ≡ true
  pub owned : (service.owner_id == offer.from_user_id) ≡ true
  pub enabled : refuse_disabled_recipient to t ≡ ok tt
  pub moves :
      move_locked_user_service now copy_id offer.user_service_id service.route_id to t ≡ ok moved
  pub closes :
      record moved {
        handovers =
            update_where (λ (h : Handover). h.id == id) (close now accepted) moved.handovers;
      }
      ≡ t'

pub accept_service_handover-IsAccept :
    (now : ℕ) (copy_id id to : Str) (t t' : Tables) (h : Handover)
    → accept_service_handover now copy_id id to t ≡ ok (h, t')
    → IsAccept now copy_id id to t t'
unfolding accept_service_handover
accept_service_handover-IsAccept now copy_id id to t t' h r =
    let (found, a, r1) =
      >>=-eq-ok (or_fail (select (is_offer_of recipient id to) t.handovers) handover_not_found) _
        r in
    let (service, b, r2) =
      >>=-eq-ok (or_fail (lock_user_service found.user_service_id t) handover_not_found) _ r1 in
    let (offer, c, r3) =
      >>=-eq-ok (or_fail (select (is_offer_of recipient id to) t.handovers) handover_not_found) _
        r2 in
    let (_, d, r4) =
      >>=-eq-ok (if is_live now offer then ok tt else err handover_not_pending) _ r3 in
    let (_, e, r5) =
      >>=-eq-ok (if service.owner_id == offer.from_user_id then ok tt else err sender_not_owner) _
        r4 in
    let (_, f, r6) = >>=-eq-ok (refuse_disabled_recipient to t) _ r5 in
    let (moved, m, r7) =
      >>=-eq-ok (move_locked_user_service now copy_id found.user_service_id service.route_id to t) _
        r6 in
    let (row, _, r8) = >>=-eq-ok (read_handover now _ id) _ r7 in
    let first =
      or_fail-eq-ok (select (is_offer_of recipient id to) t.handovers) handover_not_found a in
    let again =
      or_fail-eq-ok (select (is_offer_of recipient id to) t.handovers) handover_not_found c in
    let same : found ≡ offer = cc in
    record {
      offer = offer;
      service = service;
      moved = moved;
      addressed = again;
      locked =
          subst (λ (o : Handover). lock_user_service o.user_service_id t ≡ some service) same
            (or_fail-eq-ok (lock_user_service found.user_service_id t) handover_not_found b);
      live = guard-eq-ok (is_live now offer) handover_not_pending d;
      owned = guard-eq-ok (service.owner_id == offer.from_user_id) sender_not_owner e;
      enabled = f;
      moves =
          subst
            (λ (o : Handover).
              move_locked_user_service now copy_id o.user_service_id service.route_id to t
              ≡ ok moved)
            same m;
      closes = ap (λ (x : Handover × Tables). x.1) (ok-eq-ok r8);
    }

abbrev pub audit_row : ℕ → Str → Str → Str → Str → Str → Handover
audit_row now audit_id service from to forced_by = record {
  id = audit_id;
  user_service_id = service;
  from_user_id = from;
  to_user_id = to;
  status = accepted;
  decided_at = some now;
  expires_at = now;
  forced_by = some forced_by;
}

pub record IsTransfer (now : ℕ) (copy_id audit_id service_id to forced_by : Str) (t t' : Tables)
    : Type 0 where
  pub service : ServiceRow
  pub moved : Tables
  pub locked : lock_user_service service_id t ≡ some service
  pub not_owner : (service.owner_id == to) ≡ false
  pub enabled : refuse_disabled_recipient to t ≡ ok tt
  pub moves : move_locked_user_service now copy_id service_id service.route_id to t ≡ ok moved
  pub closes :
      record moved {
        handovers =
            audit_row now audit_id service_id service.owner_id to forced_by
            ∷ update_where
                (λ (h : Handover). h.user_service_id == service_id && is_live now h)
                (close now cancelled)
                (expire_stale_pending now service_id moved.handovers);
      }
      ≡ t'

pub transfer_user_service-IsTransfer :
    (now : ℕ) (copy_id audit_id service_id to forced_by : Str) (t t' : Tables) (h : Handover)
    → transfer_user_service now copy_id audit_id service_id to forced_by t ≡ ok (h, t')
    → IsTransfer now copy_id audit_id service_id to forced_by t t'
unfolding transfer_user_service
transfer_user_service-IsTransfer now copy_id audit_id service_id to forced_by t t' h r =
    let (service, a, r1) = >>=-eq-ok (or_fail (lock_user_service service_id t) no_row) _ r in
    let (_, b, r2) =
      >>=-eq-ok (if service.owner_id == to then err handover_to_owner else ok tt) _ r1 in
    let (_, c, r3) = >>=-eq-ok (refuse_disabled_recipient to t) _ r2 in
    let (moved, m, r4) =
      >>=-eq-ok (move_locked_user_service now copy_id service_id service.route_id to t) _ r3 in
    let (row, _, r5) = >>=-eq-ok (read_handover now _ audit_id) _ r4 in
    record {
      service = service;
      moved = moved;
      locked = or_fail-eq-ok (lock_user_service service_id t) no_row a;
      not_owner = refusal-eq-ok (service.owner_id == to) handover_to_owner b;
      enabled = c;
      moves = m;
      closes = ap (λ (x : Handover × Tables). x.1) (ok-eq-ok r5);
    }
