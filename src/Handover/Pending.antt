-- ===== src/Handover/Pending.antt =====
-- The steps of the handover tables, and the offers that stay open.
use sparks_effect_api.Prelude.{
  ℕ, ◌+◌, ◌≤◌, List, [], ◌∷◌, Option, some, Str, Bool, false, ◌&&◌, ◌==◌, str_Eq, str_eq,
  str_eq_iff, if◌then◌else◌, ok, >>=-eq-ok, err-eq-ok, ok-eq-ok, or_fail, ◌≡◌, refl, sym, subst, ap,
  ◌∙◌, inl, inr, Bool-cases, arith, update_where, select,
}
use sparks_effect_api.Handover.{
  insert_refused, breaks_row, has_references, Handover, Tables, pending, accepted, cancelled,
  declined, expired, expire_stale_pending, has_pending, offer_service_handover, offered_row,
  read_handover, handover_pending, handover_not_pending, handover_not_found, RouteRow, no_row,
}
use sparks_effect_api.Handover.Move.{
  move_locked_user_service, settle_route, reown, copy_route_to, owned_by_other, refuse_members,
  scenario_slugs_containing,
}
use sparks_effect_api.Handover.Decide.{
  Party, sender, recipient, is_decided, is_offer_of, any_where, close, decide_handover,
  cancel_service_handover, decline_service_handover, accept_service_handover, transfer_user_service,
}
use sparks_effect_api.Handover.Success.{
  IsAccept, IsTransfer, audit_row, accept_service_handover-IsAccept,
  transfer_user_service-IsTransfer,
}

-- One call that succeeds.
pub data Step : Tables → Tables → Type 0 where
  offers :
      {t t' : Tables} (now ttl : ℕ) (id service from to : Str) (h : Handover)
      → offer_service_handover now ttl id service from to t ≡ ok (h, t')
      → Step t t'
  cancels :
      {t t' : Tables} (now : ℕ) (id from : Str) (h : Handover)
      → cancel_service_handover now id from t ≡ ok (h, t')
      → Step t t'
  declines :
      {t t' : Tables} (now : ℕ) (id to : Str) (h : Handover)
      → decline_service_handover now id to t ≡ ok (h, t')
      → Step t t'
  accepts :
      {t t' : Tables} (now : ℕ) (copy_id id to : Str) (h : Handover)
      → accept_service_handover now copy_id id to t ≡ ok (h, t')
      → Step t t'
  transfers :
      {t t' : Tables} (now : ℕ) (copy_id audit_id service to by : Str) (h : Handover)
      → transfer_user_service now copy_id audit_id service to by t ≡ ok (h, t')
      → Step t t'

-- The pending rows of a service.
abbrev pub pending_one : Str → Handover → ℕ
pending_one service h = if h.user_service_id == service && h.status == pending then 1 else 0

unfoldable pub count_pending : Str → List Handover → ℕ
count_pending service [] = 0
count_pending service (h ∷ hs) = pending_one service h + count_pending service hs

pub record OnePending (hs : List Handover) : Type 0 where
  pub at_most : (service : Str) → count_pending service hs ≤ 1

-- An update that opens no row opens none in the table.
count-update_where :
    (service : Str) (p : Handover → Bool) (f : Handover → Handover) (hs : List Handover)
    → ((h : Handover) → pending_one service (f h) ≤ pending_one service h)
    → count_pending service (update_where p f hs) ≤ count_pending service hs
unfolding count_pending update_where
count-update_where service p f [] le = omega arith
count-update_where service p f (h ∷ hs) le = elim (Bool-cases (p h)) [
  | inl hit ↦ rw hit (omega (arith, le h, count-update_where service p f hs le))
  | inr miss ↦ rw miss (omega (arith, count-update_where service p f hs le))
]

count-closed :
    (service : Str) (p : Handover → Bool) (status : Str) (at : Handover → Option ℕ)
    (hs : List Handover)
    → (status == pending) ≡ false
    → count_pending service
        (update_where p (λ h. record h { status = status; decided_at = at h }) hs)
      ≤ count_pending service hs
count-closed service p status at hs e = count-update_where service p _ hs (λ h. ground arith)

has_pending-count :
    (service : Str) (hs : List Handover)
    → has_pending service hs ≡ false
    → count_pending service hs ≡ 0
unfolding has_pending count_pending
has_pending-count service [] h = refl
has_pending-count service (x ∷ hs) h =
    let ih : has_pending service hs ≡ false → count_pending service hs ≡ 0 =
      has_pending-count service hs in
    ground arith

count-expire :
    (now : ℕ) (s service : Str) (hs : List Handover)
    → count_pending s (expire_stale_pending now service hs) ≤ count_pending s hs
unfolding expire_stale_pending str_eq
count-expire now s service hs = count-closed s _ expired (λ h. some h.expires_at) hs refl

settle_route-handovers :
    (copy_id service to : Str) (route : RouteRow) (t t' : Tables)
    → settle_route copy_id service to route t ≡ ok t'
    → t'.handovers ≡ t.handovers
unfolding settle_route
settle_route-handovers copy_id service to route t t' h =
    elim (Bool-cases (owned_by_other route.owner_id to)) [
      | inl other ↦
          let (routes, _, h') =
            >>=-eq-ok (copy_route_to copy_id route to t.routes) _ (rw (other, settle_route) at h) in
          sym (ap (λ (x : Tables). x.handovers) (ok-eq-ok h'))
      | inr mine ↦ sym (ap (λ (x : Tables). x.handovers) (ok-eq-ok (rw (mine, settle_route) at h)))
    ]

pub move_locked-handovers :
    (now : ℕ) (copy_id service route_id to : Str) (t t' : Tables)
    → move_locked_user_service now copy_id service route_id to t ≡ ok t'
    → t'.handovers ≡ t.handovers
unfolding move_locked_user_service reown
move_locked-handovers now copy_id service route_id to t t' h =
    let (_, _, h1) = >>=-eq-ok (refuse_members (scenario_slugs_containing service t.members)) _ h in
    let (route, _, h2) =
      >>=-eq-ok (or_fail (select (λ (r : RouteRow). r.id == route_id) t.routes) no_row) _ h1 in
    let (moved, e, h3) = >>=-eq-ok (settle_route copy_id service to route t) _ h2 in
    sym (ap (λ (x : Tables). x.handovers) (ok-eq-ok h3))
    ∙ settle_route-handovers copy_id service to route t moved e

closed-OnePending :
    (now : ℕ) (status : Str) (p : Handover → Bool) (hs : List Handover)
    → (status == pending) ≡ false
    → OnePending hs
    → OnePending (update_where p (close now status) hs)
unfolding close
closed-OnePending now status p hs e one = record {
  at_most = λ s. omega (arith, count-closed s p status (λ h. some now) hs e, one.at_most s);
}

decide_handover-OnePending :
    (now : ℕ) (party : Party) (id caller status : Str) (t t' : Tables) (h : Handover)
    → (status == pending) ≡ false
    → decide_handover now party id caller status t ≡ ok (h, t')
    → OnePending t.handovers
    → OnePending t'.handovers
unfolding decide_handover
decide_handover-OnePending now party id caller status t t' h e r one =
    elim (Bool-cases (any_where (is_decided now party id caller) t.handovers)) [
      | inl hit ↦
          let (row, _, r') =
            >>=-eq-ok (read_handover now (closed t) id) _ (rw (hit, decide_handover) at r) in
          let same : closed t ≡ t' = ap (λ (x : Handover × Tables). x.1) (ok-eq-ok r') in
          subst (λ (x : Tables). OnePending x.handovers) same
            (closed-OnePending now status (is_decided now party id caller) t.handovers e one)
      | inr miss ↦ elim (Bool-cases (any_where (is_offer_of party id caller) t.handovers)) [
        | inl here ↦
            err-eq-ok handover_not_pending (h, t') (rw here at (rw (miss, decide_handover) at r))
        | inr gone ↦
            err-eq-ok handover_not_found (h, t') (rw gone at (rw (miss, decide_handover) at r))
      ]
    ]
  where
    closed : Tables → Tables
    closed x = record x {
      handovers = update_where (is_decided now party id caller) (close now status) x.handovers;
    }

offered-at_most :
    (service : Str) (h : Handover) (hs : List Handover)
    → h.user_service_id ≡ service
    → has_pending service hs ≡ false
    → OnePending hs
    → (s : Str) → count_pending s (h ∷ hs) ≤ 1
unfolding count_pending
offered-at_most service h hs e free one s = elim (Bool-cases (h.user_service_id == s)) [
  | inl same ↦
      let z : service ≡ s = sym e ∙ (str_eq_iff h.user_service_id s).0 same in
      let none_yet : count_pending s hs ≡ 0 =
        subst (λ x. count_pending x hs ≡ 0) z (has_pending-count service hs free) in
      ground arith
  | inr other ↦ let before = one.at_most s in ground arith
]

offer-OnePending :
    (now ttl : ℕ) (id service from to : Str) (t t' : Tables) (h : Handover)
    → offer_service_handover now ttl id service from to t ≡ ok (h, t')
    → OnePending t.handovers
    → OnePending t'.handovers
unfolding offer_service_handover
offer-OnePending now ttl id service from to t t' h r one =
    elim (Bool-cases (breaks_row id from to t)) [
      | inl broken ↦ err-eq-ok insert_refused (h, t') (rw (broken, offer_service_handover) at r)
      | inr sound ↦
          elim (Bool-cases (has_pending service (expire_stale_pending now service t.handovers))) [
            | inl held ↦
                err-eq-ok handover_pending (h, t') (rw (sound, held, offer_service_handover) at r)
            | inr free ↦ elim (Bool-cases (has_references service from to t)) [
              | inr dangling ↦
                  err-eq-ok insert_refused (h, t')
                    (rw (sound, free, dangling, offer_service_handover) at r)
              | inl referred ↦
                  let (row, _, r') =
                    >>=-eq-ok (read_handover now offered id) _
                      (rw (sound, free, referred, offer_service_handover) at r) in
                  let same : offered ≡ t' = ap (λ (x : Handover × Tables). x.1) (ok-eq-ok r') in
                  subst (λ (x : Tables). OnePending x.handovers) same
                    (record {
                      at_most =
                          offered-at_most service (offered_row now ttl id service from to)
                            (expire_stale_pending now service t.handovers) refl free
                            (record {
                              at_most = λ s.
                                  omega
                                    (arith, count-expire now s service t.handovers, one.at_most s);
                            });
                    })
            ]
          ]
    ]
  where
    offered : Tables
    offered = record t {
      handovers =
          offered_row now ttl id service from to ∷ expire_stale_pending now service t.handovers;
    }

accept-OnePending :
    (now : ℕ) (copy_id id to : Str) (t t' : Tables)
    → IsAccept now copy_id id to t t'
    → OnePending t.handovers
    → OnePending t'.handovers
unfolding str_eq
accept-OnePending now copy_id id to t t' a one =
    let kept : OnePending a.moved.handovers =
      subst OnePending
        (sym (
          move_locked-handovers now copy_id a.offer.user_service_id a.service.route_id to t a.moved
            a.moves))
        one in
    subst (λ (x : Tables). OnePending x.handovers) a.closes
      (closed-OnePending now accepted (λ (x : Handover). x.id == id) a.moved.handovers refl kept)

audit-OnePending :
    (h : Handover) (hs : List Handover)
    → (h.status == pending) ≡ false
    → OnePending hs
    → OnePending (h ∷ hs)
unfolding count_pending
audit-OnePending h hs e one = record { at_most = λ s. let before = one.at_most s in ground arith }

transfer-OnePending :
    (now : ℕ) (copy_id audit_id service to by : Str) (t t' : Tables)
    → IsTransfer now copy_id audit_id service to by t t'
    → OnePending t.handovers
    → OnePending t'.handovers
unfolding str_eq
transfer-OnePending now copy_id audit_id service to by t t' a one =
    let kept : OnePending a.moved.handovers =
      subst OnePending
        (sym (move_locked-handovers now copy_id service a.service.route_id to t a.moved a.moves))
        one in
    let open_left : OnePending (expire_stale_pending now service a.moved.handovers) = record {
      at_most = λ s. omega (arith, count-expire now s service a.moved.handovers, kept.at_most s);
    } in
    subst (λ (x : Tables). OnePending x.handovers) a.closes
      (audit-OnePending (audit_row now audit_id service a.service.owner_id to by) _ refl
        (closed-OnePending now cancelled _ _ refl open_left))

-- No call leaves two pending offers of one service: if each service has at most one before a call
-- that offers, cancels, declines, accepts or forces a move, it has at most one after it.
pub Step-OnePending : {t t' : Tables} → Step t t' → OnePending t.handovers → OnePending t'.handovers
unfolding cancel_service_handover decline_service_handover str_eq
Step-OnePending (offers now ttl id service from to h r) one =
    offer-OnePending now ttl id service from to _ _ h r one
Step-OnePending (cancels now id from h r) one =
    decide_handover-OnePending now sender id from cancelled _ _ h refl r one
Step-OnePending (declines now id to h r) one =
    decide_handover-OnePending now recipient id to declined _ _ h refl r one
Step-OnePending (accepts now copy_id id to h r) one =
    accept-OnePending now copy_id id to _ _
      (accept_service_handover-IsAccept now copy_id id to _ _ h r) one
Step-OnePending (transfers now copy_id audit_id service to by h r) one =
    transfer-OnePending now copy_id audit_id service to by _ _
      (transfer_user_service-IsTransfer now copy_id audit_id service to by _ _ h r) one
