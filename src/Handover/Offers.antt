-- ===== src/Handover/Offers.antt =====
-- When an offer can be made.
use sparks_effect_api.Prelude.{
  codes, none, ◌+◌, ◌≤◌, ◌<◌, ◌⊎◌, leb, str_apart, ℕ, List, [], ◌∷◌, Str, false, ◌&&◌, ◌==◌, str_Eq,
  str_eq, str_eq_refl, ok, ◌≡◌, refl, inl, inr, Bool, true, ◌≢◌, some, In, lookup, str_eq_iff,
  has_row, has_row-found, has_row-In, Bool-cases, arith, select, update_where,
}
use sparks_effect_api.Handover.{
  pending, expired, Handover, ServiceRow, Tables, is_user, breaks_row, has_references, is_live,
  is_past, shown, read_handover, expire_stale_pending, has_pending, has_live,
  has_pending_service_handover, offer_service_handover,
}

-- Once the stale offers are expired, only a live one is still pending.
expire-has_pending :
    (now : ℕ) (service : Str) (hs : List Handover)
    → has_live now service hs ≡ false
    → has_pending service (expire_stale_pending now service hs) ≡ false
unfolding has_live has_pending expire_stale_pending update_where is_live is_past str_eq
expire-has_pending now service [] h = refl
expire-has_pending now service (x ∷ hs) h =
    elim (Bool-cases (x.user_service_id == service && is_past now x)) [
      | inl past ↦
          rw past (let ih = expire-has_pending now service hs (ground arith) in ground arith)
      | inr kept ↦
          rw kept (let ih = expire-has_pending now service hs (ground arith) in ground arith)
    ]

known_user : (t : Tables) (u : Str) (b : Bool) → lookup t.disabled u ≡ some b → is_user t u ≡ true
unfolding is_user
known_user t u b h = rw (is_user, h) refl

new_row :
    (id from to : Str) (t : Tables)
    → from ≢ to
    → ((h : Handover) → In h t.handovers → h.id ≢ id)
    → breaks_row id from to t ≡ false
unfolding breaks_row
new_row id from to t apart fresh =
    let two : (from == to) ≡ false = elim (Bool-cases (from == to)) [
      | inl one ↦ absurd (apart ((str_eq_iff from to).0 one))
      | inr off ↦ off
    ] in
    let free : has_row (λ (h : Handover). h.id == id) t.handovers ≡ false =
      elim (Bool-cases (has_row (λ (h : Handover). h.id == id) t.handovers)) [
        | inl taken ↦
            let (h, m, e) = has_row-found (λ (h : Handover). h.id == id) t.handovers taken in
            absurd (fresh h m ((str_eq_iff h.id id).0 e))
        | inr off ↦ off
      ] in
    rw (two, free) refl

-- The row of a new offer.
abbrev pub new_offer : ℕ → ℕ → Str → Str → Str → Str → Handover
new_offer now ttl id service from to = record {
  id = id;
  user_service_id = service;
  from_user_id = from;
  to_user_id = to;
  status = codes "pending";
  decided_at = none;
  expires_at = now + ttl;
  forced_by = none;
}

-- A pending offer of the service that is past its time is closed at that time; any other is as it
-- was.
abbrev pub IsClosed : ℕ → Str → Handover → Handover → Type 0
IsClosed now service h k =
    ((h.user_service_id ≡ service)
      × (h.status ≡ codes "pending")
      × (h.expires_at ≤ now)
      × (k ≡ record h { status = codes "expired"; decided_at = some h.expires_at }))
    ⊎ (((h.user_service_id ≢ service) ⊎ (h.status ≢ codes "pending") ⊎ (now < h.expires_at))
        × (k ≡ h))

abbrev pub AreClosed : ℕ → Str → List Handover → List Handover → Type 0
AreClosed now service [] [] = Unit
AreClosed now service (h ∷ hs) (k ∷ ks) = IsClosed now service h k × AreClosed now service hs ks
AreClosed now service _ _ = ⊥

kept-IsClosed :
    (now : ℕ) (service : Str) (h : Handover)
    → (h.user_service_id == service && is_past now h) ≡ false
    → IsClosed now service h h
unfolding is_past
kept-IsClosed now service h off = elim (Bool-cases (h.user_service_id == service)) [
  | inr other ↦ inr (inl (str_apart h.user_service_id service other), refl)
  | inl same ↦ elim (Bool-cases (h.status == pending)) [
    | inr closed ↦ inr (inr (inl (str_apart h.status pending closed)), refl)
    | inl waits ↦ inr (inr (inr (ground arith)), refl)
  ]
]

expired-IsClosed :
    (now : ℕ) (service : Str) (h : Handover)
    → (h.user_service_id == service && is_past now h) ≡ true
    → IsClosed now service h (record h { status = expired; decided_at = some h.expires_at })
unfolding is_past
expired-IsClosed now service h on =
    let same : (h.user_service_id == service) ≡ true = ground arith in
    let waits : (h.status == pending) ≡ true = ground arith in
    inl (
      (str_eq_iff h.user_service_id service).0 same,
      (str_eq_iff h.status pending).0 waits,
      ground arith,
      refl,
    )

expire_stale_pending-AreClosed :
    (now : ℕ) (service : Str) (hs : List Handover)
    → AreClosed now service hs (expire_stale_pending now service hs)
unfolding expire_stale_pending update_where
expire_stale_pending-AreClosed now service [] = tt
expire_stale_pending-AreClosed now service (h ∷ hs) =
    let rest = expire_stale_pending-AreClosed now service hs in
    elim (Bool-cases (h.user_service_id == service && is_past now h)) [
      | inl on ↦ rw on (expired-IsClosed now service h on, rest)
      | inr off ↦ rw off (kept-IsClosed now service h off, rest)
    ]

shown-new : (now ttl : ℕ) (h : Handover) → 0 < ttl → h.expires_at ≡ now + ttl → shown now h ≡ h
unfolding shown is_past
shown-new now ttl h long e =
    let off : (h.status == pending && leb h.expires_at now) ≡ false = ground arith in rw off refl

-- A service with no live offer can be offered, whatever expired offers it has, by one user to another
-- under an id that no offer has, for a time above 0: the offer is then in the table, pending for that
-- time. The service's offers that were past their time are closed, and all else is as it was.
pub offer_service_handover-ok :
    (now ttl : ℕ) (id from to : Str) (t : Tables) (row : ServiceRow) (off_from off_to : Bool)
    → 0 < ttl
    → In row t.services
    → lookup t.disabled from ≡ some off_from
    → lookup t.disabled to ≡ some off_to
    → from ≢ to
    → ((h : Handover) → In h t.handovers → h.id ≢ id)
    → has_pending_service_handover now row.id t ≡ false
    → (rest : List Handover) × AreClosed now row.id t.handovers rest
      × (offer_service_handover now ttl id row.id from to t
          ≡ ok (
            new_offer now ttl id row.id from to,
            record t { handovers = new_offer now ttl id row.id from to ∷ rest },
          ))
unfolding offer_service_handover has_pending_service_handover read_handover select has_references
offer_service_handover-ok now ttl id from to t row off_from off_to long m f g apart fresh h =
    let of_service : has_row (λ (s : ServiceRow). s.id == row.id) t.services ≡ true =
      has_row-In (λ (s : ServiceRow). s.id == row.id) t.services row m (str_eq_refl row.id) in
    (
      expire_stale_pending now row.id t.handovers,
      expire_stale_pending-AreClosed now row.id t.handovers,
      rw
          (
            new_row id from to t apart fresh,
            expire-has_pending now row.id t.handovers h,
            of_service,
            known_user t from off_from f,
            known_user t to off_to g,
            str_eq_refl id,
            shown-new now ttl (new_offer now ttl id row.id from to) long refl,
          )
          refl,
    )
