-- ===== src/RateLimit/Unspent.antt =====
-- internal/ratelimit/limiter.go, middleware.go: a request that is refused spends nothing.
use sparks_effect_api.Prelude.{
  ℕ, ◌+◌, ◌≤◌, List, [], ◌∷◌, ◌++◌, length, get_elem?, Option, none, some, Str, codes, Bool, true,
  false, ◌||◌, ltb, leb, ◌≡◌, ◌⊎◌, refl, sym, ap, subst, ◌∙◌, ◌==◌, str_Eq, str_eq_iff, Bool-cases,
  inl, inr, arith, Option-cases, lookup, update_where, In, All, delete_where-In,
  update_where-IsUpdated, missed, hit, contains, NoRepeat, contains-In,
}
use sparks_effect_api.RateLimit.{
  Rate, Tracked, Buckets, Limiter, evict_idle, with_bucket, reserve_at, reserve_all, cancel_all,
  cancel_at, allow_all, delay_of, max, keys_of, limit_request, retry_after, second,
}
use sparks_effect_api.RateLimit.Bounded.{evict_oldest-In}

-- `tokens` is what a bucket holds at a time; cancelling a reservation gives it back.
module _ (rate : Rate) (tokens : ℕ → rate.Bucket → ℕ)
    (gives_back : (now later : ℕ) (b : rate.Bucket)
      → now ≤ later
      → tokens later (rate.cancel now (rate.reserve now b).1) ≡ tokens later b) where
  open rate use {Bucket, fresh, reserve, cancel}

  -- A bucket of the key before the request, or a new one.
  abbrev pub WasBucket : Buckets rate → Str → Bucket → Type 0
  WasBucket m key b = ((t : Tracked rate) × In (key, t) m × (t.lim ≡ b)) ⊎ (b ≡ fresh)

  -- Of the keys in `taken` one reservation has been made.
  pub record Reserved (now : ℕ) (m : Buckets rate) (taken : Str → Bool) (p : Str × Tracked rate)
      : Type 0 where
    pub base : Bucket
    pub was : WasBucket m p.0 base
    pub reserved : taken p.0 ≡ true → p.1.lim ≡ (reserve now base).1
    pub untouched : taken p.0 ≡ false → p.1.lim ≡ base

  abbrev AllReserved : ℕ → Buckets rate → (Str → Bool) → Buckets rate → Type 0
  AllReserved now m taken m' = (p : Str × Tracked rate) → In p m' → Reserved now m taken p

  AllReserved-same :
      (now : ℕ) (m m' : Buckets rate) (taken other : Str → Bool)
      → ((k : Str) → other k ≡ taken k)
      → AllReserved now m taken m'
      → AllReserved now m other m'
  AllReserved-same now m m' taken other same all p i =
      let r = all p i in
      record {
        base = r.base;
        was = r.was;
        reserved = λ h. r.reserved (sym (same p.0) ∙ h);
        untouched = λ h. r.untouched (sym (same p.0) ∙ h);
      }

  with_bucket-AllReserved :
      (max_keys now : ℕ) (key : Str) (m m' : Buckets rate) (taken : Str → Bool)
      → taken key ≡ false
      → AllReserved now m taken m'
      → AllReserved now m taken (with_bucket rate max_keys key now m')
  unfolding with_bucket
  with_bucket-AllReserved max_keys now key m m' taken off all p i =
      elim (Option-cases (lookup m' key)) [
        | inr (b, found) ↦ all p (rw (with_bucket, found) at i)
        | inl new ↦ elim (rw (with_bucket, new) at i) as (λ _. Reserved now m taken p) [
          | inl e ↦ rw e (record {
            base = fresh;
            was = inr refl;
            reserved = λ h. absurd (let z : false ≡ true = sym off ∙ h in cc);
            untouched = λ h. refl;
          })
          | inr j ↦ elim (Bool-cases (leb max_keys (length m'))) [
            | inl full ↦ all p (evict_oldest-In rate m' p (rw full at j))
            | inr roomy ↦ all p (rw roomy at j)
          ]
        ]
      ]

  reserve_at-AllReserved :
      (now : ℕ) (key : Str) (m m' : Buckets rate) (taken : Str → Bool)
      → taken key ≡ false
      → AllReserved now m taken m'
      → AllReserved now m
          (λ k. k == key || taken k)
          (update_where (λ p. p.0 == key) (λ p. (p.0, reserve_at rate now p.1)) m')
  unfolding reserve_at
  reserve_at-AllReserved now key m m' taken off all p i =
      elim (update_where-IsUpdated (λ q. q.0 == key) (λ q. (q.0, reserve_at rate now q.1)) m' p i) [
        | missed old miss ↦
            let r = all p old in
            record {
              base = r.base;
              was = r.was;
              reserved = λ h. r.reserved (ground arith);
              untouched = λ h. r.untouched (ground arith);
            }
        | hit x j at e ↦
            let r = all x j in
            let same : x.0 ≡ key = (str_eq_iff x.0 key).0 at in
            let base : x.1.lim ≡ r.base = r.untouched (rw same off) in
            rw e (record {
              base = r.base;
              was = r.was;
              reserved = λ h. ap (λ b. (reserve now b).1) base;
              untouched =
                  λ h. absurd (let z : (x.0 == key || taken x.0) ≡ false = h in ground arith);
            })
      ]

  still_off :
      (key : Str) (keys : List Str) (taken : Str → Bool)
      → ¬ In key keys
      → All (λ k. taken k ≡ false) keys
      → All (λ k. (k == key || taken k) ≡ false) keys
  still_off key [] taken out off = tt
  still_off key (k ∷ keys) taken out off =
      let other : ¬ (k ≡ key) = λ e. out (inl (sym e)) in
      (
        ground (arith, other, off.0, str_eq_iff k key),
        still_off key keys taken (λ i. out (inr i)) off.1,
      )

  regroup : (a b c : Bool) → ((a || b) || c) ≡ (b || (a || c))
  regroup true true c = refl
  regroup true false c = refl
  regroup false true c = refl
  regroup false false c = refl

  reserve_all-AllReserved :
      (max_keys now : ℕ) (keys : List Str) (delay : ℕ) (m m' : Buckets rate) (taken : Str → Bool)
      → NoRepeat keys
      → All (λ key. taken key ≡ false) keys
      → AllReserved now m taken m'
      → AllReserved now m
          (λ k. contains keys k || taken k)
          (reserve_all rate max_keys now keys delay m').1
  unfolding reserve_all contains
  reserve_all-AllReserved max_keys now [] delay m m' taken once off all = all
  reserve_all-AllReserved max_keys now (key ∷ keys) delay m m' taken once off all =
      let at = with_bucket rate max_keys key now m' in
      AllReserved-same now m (reserve_all rate max_keys now (key ∷ keys) delay m').1
        (λ k. contains keys k || (k == key || taken k)) (λ k. contains (key ∷ keys) k || taken k)
        (λ k. regroup (k == key) (contains keys k) (taken k))
        (reserve_all-AllReserved max_keys now keys (max rate delay (delay_of rate now key at)) m
          (update_where (λ p. p.0 == key) (λ p. (p.0, reserve_at rate now p.1)) at)
          (λ k. k == key || taken k) once.1 (still_off key keys taken once.0 off.1)
          (reserve_at-AllReserved now key m at taken off.0
            (with_bucket-AllReserved max_keys now key m m' taken off.0 all)))

  -- The reservations at the keys in `left` are still to be cancelled.
  record Returning (now : ℕ) (m : Buckets rate) (left : Str → Bool) (p : Str × Tracked rate)
      : Type 0 where
    base : Bucket
    was : WasBucket m p.0 base
    reserved : left p.0 ≡ true → p.1.lim ≡ (reserve now base).1
    restored :
        left p.0 ≡ false → (later : ℕ) → now ≤ later → tokens later p.1.lim ≡ tokens later base

  cancel_all-Returning :
      (now : ℕ) (keys : List Str) (m m' : Buckets rate)
      → NoRepeat keys
      → ((p : Str × Tracked rate) → In p m' → Returning now m (contains keys) p)
      → (p : Str × Tracked rate) → In p (cancel_all rate now keys m')
      → Returning now m (λ k. false) p
  unfolding cancel_all contains cancel_at
  cancel_all-Returning now [] m m' once all = all
  cancel_all-Returning now (key ∷ keys) m m' once all =
      let f = λ (q : Str × Tracked rate).
        let r : Str × Tracked rate = (q.0, cancel_at rate now q.1) in r in
      cancel_all-Returning now keys m (update_where (λ p. p.0 == key) f m') once.1 (λ p i.
        elim (update_where-IsUpdated (λ q. q.0 == key) f m' p i) [
          | missed old miss ↦
              let r = all p old in
              record {
                base = r.base;
                was = r.was;
                reserved = λ h. r.reserved (ground arith);
                restored = λ h later le. r.restored (ground arith) later le;
              }
          | hit x j at e ↦
              let r = all x j in
              let same : x.0 ≡ key = (str_eq_iff x.0 key).0 at in
              let lim : x.1.lim ≡ (reserve now r.base).1 = r.reserved (ground arith) in
              rw e (record {
                base = r.base;
                was = r.was;
                reserved =
                    λ h. absurd (once.0 (subst (λ k. In k keys) same (contains-In keys x.0 h)));
                restored = λ h later le.
                    ap (λ b. tokens later (cancel now b)) lim ∙ gives_back now later r.base le;
              })
        ])

  -- A bucket that holds what it held before the request, or what a new one holds.
  pub data IsUnspent (now : ℕ) (m : Buckets rate) (p : Str × Tracked rate) : Type 0 where
    as_before :
        (t : Tracked rate)
        → In (p.0, t) m
        → ((later : ℕ) → now ≤ later → tokens later p.1.lim ≡ tokens later t.lim)
        → IsUnspent now m p
    as_new :
        ((later : ℕ) → now ≤ later → tokens later p.1.lim ≡ tokens later fresh) → IsUnspent now m p

  Returning-IsUnspent :
      (now : ℕ) (m : Buckets rate) (p : Str × Tracked rate)
      → Returning now m (λ k. false) p
      → IsUnspent now m p
  Returning-IsUnspent now m p r = elim r.was [
    | inl (t, i, e) ↦
        as_before t i (λ later le. r.restored refl later le ∙ ap (tokens later) (sym e))
    | inr e ↦ as_new (λ later le. r.restored refl later le ∙ ap (tokens later) e)
  ]

  Reserved-Returning :
      (now : ℕ) (m : Buckets rate) (keys : List Str) (p : Str × Tracked rate)
      → Reserved now m (λ k. contains keys k || false) p
      → Returning now m (contains keys) p
  Reserved-Returning now m keys p r = record {
    base = r.base;
    was = r.was;
    reserved = λ h. r.reserved (rw h refl);
    restored = λ h later le. ap (tokens later) (r.untouched (rw h refl));
  }

  none_taken : (keys : List Str) → All (λ (k : Str). ◌≡◌ {A = Bool} false false) keys
  none_taken [] = tt
  none_taken (k ∷ keys) = (refl, none_taken keys)

  kept-AllReserved :
      (now : ℕ) (l : Limiter rate)
      → AllReserved now l.buckets (λ k. false) (evict_idle rate l.idle_for now l.buckets)
  unfolding evict_idle
  kept-AllReserved now l p i =
      let (before, _) =
        delete_where-In (λ (q : Str × Tracked rate). ltb (q.1.last_seen + l.idle_for) now) l.buckets
          p i in
      record {
        base = p.1.lim;
        was = inl (p.1, before, refl);
        reserved = λ h. absurd (cc);
        untouched = λ h. refl;
      }

  long_enough : (delay wait : ℕ) → max rate second delay ≡ wait → second ≤ wait
  unfolding max
  long_enough delay wait h = ground arith

  allow_all-IsUnspent :
      (now wait : ℕ) (keys : List Str) (l l' : Limiter rate)
      → NoRepeat keys
      → allow_all rate now keys l ≡ (wait, false, l')
      → (second ≤ wait) × ((p : Str × Tracked rate) → In p l'.buckets → IsUnspent now l.buckets p)
  unfolding allow_all evict_idle max
  allow_all-IsUnspent now wait [] l l' once h =
      let z : true ≡ false = ap (λ (x : ℕ × Bool × Limiter rate). x.1) h in absurd (cc)
  allow_all-IsUnspent now wait (key ∷ keys) l l' once h =
      let kept = evict_idle rate l.idle_for now l.buckets in
      let r = reserve_all rate l.max_keys now (key ∷ keys) 0 kept in
      elim (Bool-cases (ltb 0 r.0)) [
        | inr free ↦
            let z : true ≡ false =
              ap (λ (x : ℕ × Bool × Limiter rate). x.1) (rw (allow_all, free) at h) in
            absurd (cc)
        | inl slow ↦
            let e : ◌≡◌ {A = ℕ × Bool × Limiter rate}
                (
                  max rate second r.0,
                  false,
                  record l { buckets = cancel_all rate now (key ∷ keys) r.1 },
                )
                (wait, false, l') =
              rw (allow_all, slow) at h in
            let waits : max rate second r.0 ≡ wait = ap (λ (x : ℕ × Bool × Limiter rate). x.0) e in
            let left : cancel_all rate now (key ∷ keys) r.1 ≡ l'.buckets =
              ap (λ (x : ℕ × Bool × Limiter rate). x.2.buckets) e in
            let reserved =
              reserve_all-AllReserved l.max_keys now (key ∷ keys) 0 l.buckets kept (λ k. false) once
                (none_taken (key ∷ keys)) (kept-AllReserved now l) in
            (
              long_enough r.0 wait waits,
              λ p i. Returning-IsUnspent now l.buckets p (
                  cancel_all-Returning now (key ∷ keys) l.buckets r.1 once
                    (λ q j. Reserved-Returning now l.buckets (key ∷ keys) q (reserved q j)) p
                    (rw left i)),
            )
      ]

  -- The keys of a request differ.
  keys_of-NoRepeat : (user : Option Str) (ip : Str) → NoRepeat (keys_of rate user ip)
  unfolding keys_of
  keys_of-NoRepeat none ip = (λ i. i, tt)
  keys_of-NoRepeat (some id) ip = elim (Bool-cases (id == [])) [
    | inl blank ↦ rw blank (λ i. i, tt)
    | inr named ↦
        rw named
          (λ i. elim i [ inl e ↦ differ e | inr none_left ↦ absurd none_left ], (λ i. absurd i, tt))
  ]
    where
      differ : {s t : Str} → codes "user:" ++ s ≡ codes "ip:" ++ t → ⊥
      differ {s} {t} e =
          let heads : ◌≡◌ {A = Option ℕ} (some b'u') (some b'i') =
            ap (λ (x : Str). get_elem? x 0) e in
          let z : ◌≡◌ {A = ℕ} b'u' b'i' = cc in absurd (omega arith)

  a_second : (wait secs : ℕ) → some (retry_after rate wait) ≡ some secs → 1 ≤ secs
  unfolding retry_after
  a_second wait secs h = ground arith

  -- A request that is refused spends no token of its user or its address: every bucket holds at
  -- each later time what it held before, or what a new one holds. It is told to wait a second at
  -- least.
  pub limit_request-IsUnspent :
      (now secs : ℕ) (user : Option Str) (ip : Str) (l l' : Limiter rate)
      → limit_request rate now user ip l ≡ (some secs, l')
      → (1 ≤ secs) × ((p : Str × Tracked rate) → In p l'.buckets → IsUnspent now l.buckets p)
  unfolding limit_request retry_after
  limit_request-IsUnspent now secs user ip l l' h =
      let keys = keys_of rate user ip in
      let a = allow_all rate now keys l in
      elim (Bool-cases a.1) [
        | inl allowed ↦
            let z : ◌≡◌ {A = Option ℕ} none (some secs) =
              ap (λ (x : Option ℕ × Limiter rate). x.0) (rw (limit_request, allowed) at h) in
            absurd (cc)
        | inr stopped ↦
            let e : ◌≡◌ {A = Option ℕ × Limiter rate} (some (retry_after rate a.0), a.2)
                (some secs, l') =
              rw (limit_request, stopped) at h in
            let told : ◌≡◌ {A = Option ℕ} (some (retry_after rate a.0)) (some secs) =
              ap (λ (x : Option ℕ × Limiter rate). x.0) e in
            let same : a.2 ≡ l' = ap (λ (x : Option ℕ × Limiter rate). x.1) e in
            let whole : a ≡ (a.0, false, l') = λ i. (a.0, stopped i, same i) in
            let (_, unspent) =
              allow_all-IsUnspent now a.0 keys l l' (keys_of-NoRepeat user ip) whole in
            (a_second a.0 secs told, unspent)
      ]
