-- ===== src/RateLimit/Bounded.antt =====
-- internal/ratelimit/limiter.go: the map never grows past its bound.
use sparks_effect_api.Prelude.{
  ℕ, suc, Option, ◌+◌, ◌≤◌, ◌<◌, List, [], ◌∷◌, length, none, some, Str, Bool, true, false, ltb,
  leb, ◌≡◌, ◌≢◌, ◌⊎◌, refl, sym, subst, ◌==◌, str_Eq, str_eq_iff, str_eq_refl, if◌then◌else◌,
  Bool-cases, inl, inr, arith, Option-cases, lookup, delete_where, update_where, In, All,
  delete_where-In, update_where-IsUpdated, missed, hit, ◌∙◌,
}
use sparks_effect_api.RateLimit.{
  Rate, Tracked, Buckets, Limiter, evict_idle, oldest_from, evict_oldest, with_bucket, reserve_at,
  reserve_all, cancel_all, cancel_at, allow_all, delay_of, max, keys_of, limit_request, new_limiter,
  default_max_keys,
}

module _ (rate : Rate) where
  -- Each key is there: the eviction passes over a blank one.
  abbrev pub HasKeys : Buckets rate → Type 0
  HasKeys m = (p : Str × Tracked rate) → In p m → p.0 ≢ []

  pub record IsBounded (l : Limiter rate) : Type 0 where
    pub at_most : length l.buckets ≤ l.max_keys
    pub keyed : HasKeys l.buckets

  length-delete_where :
      (p : Str × Tracked rate → Bool) (m : Buckets rate) → length (delete_where p m) ≤ length m
  unfolding delete_where
  length-delete_where p [] = omega arith
  length-delete_where p (x ∷ m) = ground (arith, length-delete_where p m)

  shorter :
      (p : Str × Tracked rate → Bool) (m : Buckets rate) (x : Str × Tracked rate)
      → In x m
      → p x ≡ true
      → suc (length (delete_where p m)) ≤ length m
  unfolding delete_where
  shorter p [] x i h = absurd i
  shorter p (y ∷ m) x (inl e) h =
      let at : p y ≡ true = subst (λ z. p z ≡ true) e h in
      rw at (omega (arith, length-delete_where p m))
  shorter p (y ∷ m) x (inr i) h = ground (arith, shorter p m x i h, length-delete_where p m)

  length-update_where :
      (p : Str × Tracked rate → Bool) (f : Str × Tracked rate → Str × Tracked rate)
      (m : Buckets rate)
      → length (update_where p f m) ≡ length m
  unfolding update_where
  length-update_where p f [] = refl
  length-update_where p f (x ∷ m) = omega (arith, length-update_where p f m)

  -- The oldest key is one of the map's.
  oldest_from-In :
      (k : Str) (t : ℕ) (m : Buckets rate)
      → (j : Str) × (u : ℕ) × (oldest_from rate (some (k, t)) m ≡ some (j, u))
        × ((j ≡ k) ⊎ ((b : Tracked rate) × In (j, b) m))
  unfolding oldest_from
  oldest_from-In k t [] = (k, t, refl, inl refl)
  oldest_from-In k t ((i, b) ∷ m) = elim (Bool-cases (ltb b.last_seen t)) [
    | inl older ↦
        let (j, u, e, from) = oldest_from-In i b.last_seen m in
        (
          j,
          u,
          rw older e,
          elim from [
            | inl same ↦ inr (b, inl (rw same refl))
            | inr (c, later) ↦ inr (c, inr later)
          ],
        )
    | inr newer ↦
        let (j, u, e, from) = oldest_from-In k t m in
        (j, u, rw newer e, elim from [ inl same ↦ inl same | inr (c, later) ↦ inr (c, inr later) ])
  ]

  -- Evicting from a map with keys makes room.
  evict_oldest-shorter :
      (x : Str × Tracked rate) (m : Buckets rate)
      → HasKeys (x ∷ m)
      → suc (length (evict_oldest rate (x ∷ m))) ≤ suc (length m)
  unfolding evict_oldest oldest_from
  evict_oldest-shorter (k, b) m keyed =
      let (j, u, e, from) = oldest_from-In k b.last_seen m in
      let (c, i) : (c : Tracked rate) × In (j, c) ((k, b) ∷ m) = elim from [
        | inl same ↦ (b, inl (rw same refl))
        | inr (c, later) ↦ (c, inr later)
      ] in
      let named : (j == []) ≡ false = elim (Bool-cases (j == [])) [
        | inl blank ↦ absurd (keyed (j, c) i ((str_eq_iff j []).0 blank))
        | inr other ↦ other
      ] in
      rw (evict_oldest, e, named) (shorter (λ p. p.0 == j) ((k, b) ∷ m) (j, c) i (str_eq_refl j))

  pub evict_oldest-In :
      (m : Buckets rate) (p : Str × Tracked rate) → In p (evict_oldest rate m) → In p m
  unfolding evict_oldest
  evict_oldest-In m p i = elim (Option-cases (oldest_from rate none m)) [
    | inl empty ↦ rw (evict_oldest, empty) at i
    | inr ((k, t), found) ↦ elim (Bool-cases (k == [])) [
      | inl blank ↦ rw (evict_oldest, found, blank) at i
      | inr named ↦ (delete_where-In (λ q. q.0 == k) m p (rw (evict_oldest, found, named) at i)).0
    ]
  ]

  -- A map that is full makes room.
  made_room :
      (max_keys : ℕ) (m : Buckets rate)
      → 0 < max_keys
      → length m ≤ max_keys
      → HasKeys m
      → suc (length (if leb max_keys (length m) then evict_oldest rate m else m)) ≤ max_keys
  made_room max_keys [] room small keyed = ground arith
  made_room max_keys (x ∷ m) room small keyed = ground (arith, evict_oldest-shorter x m keyed)

  with_bucket-keyed :
      (max_keys : ℕ) (key : Str) (now : ℕ) (m : Buckets rate)
      → key ≢ []
      → HasKeys m
      → HasKeys (with_bucket rate max_keys key now m)
  unfolding with_bucket
  with_bucket-keyed max_keys key now m named keyed = elim (Option-cases (lookup m key)) [
    | inr (b, found) ↦ rw (with_bucket, found) keyed
    | inl new ↦
        rw (with_bucket, new)
          (λ p i. elim i [
            | inl e ↦ subst (λ (q : Str × Tracked rate). q.0 ≢ []) (sym e) named
            | inr j ↦ elim (Bool-cases (leb max_keys (length m))) [
              | inl full ↦ keyed p (evict_oldest-In m p (rw full at j))
              | inr roomy ↦ keyed p (rw roomy at j)
            ]
          ])
  ]

  with_bucket-length :
      (max_keys : ℕ) (key : Str) (now : ℕ) (m : Buckets rate)
      → 0 < max_keys
      → length m ≤ max_keys
      → HasKeys m
      → length (with_bucket rate max_keys key now m) ≤ max_keys
  unfolding with_bucket
  with_bucket-length max_keys key now m room small keyed = elim (Option-cases (lookup m key)) [
    | inr (b, found) ↦ rw (with_bucket, found) small
    | inl new ↦ rw (with_bucket, new) (made_room max_keys m room small keyed)
  ]

  update_where-keyed :
      (p : Str × Tracked rate → Bool) (f : Tracked rate → Tracked rate) (m : Buckets rate)
      → HasKeys m
      → HasKeys (update_where p (λ q. (q.0, f q.1)) m)
  update_where-keyed p f m keyed x i = elim (update_where-IsUpdated p (λ q. (q.0, f q.1)) m x i) [
    | missed old off ↦ keyed x old
    | hit y j at e ↦ subst (λ (q : Str × Tracked rate). q.0 ≢ []) (sym e) (keyed y j)
  ]

  reserve_all-bounded :
      (max_keys now : ℕ) (keys : List Str) (delay : ℕ) (m : Buckets rate)
      → 0 < max_keys
      → All (λ key. key ≢ []) keys
      → length m ≤ max_keys
      → HasKeys m
      → (length (reserve_all rate max_keys now keys delay m).1 ≤ max_keys)
        × HasKeys (reserve_all rate max_keys now keys delay m).1
  unfolding reserve_all
  reserve_all-bounded max_keys now [] delay m room named small keyed = (small, keyed)
  reserve_all-bounded max_keys now (key ∷ keys) delay m room named small keyed =
      let at = with_bucket rate max_keys key now m in
      let p = λ (q : Str × Tracked rate). q.0 == key in
      reserve_all-bounded max_keys now keys (max rate delay (delay_of rate now key at))
        (update_where p (λ q. (q.0, reserve_at rate now q.1)) at) room named.1
        (rw (length-update_where p (λ q. (q.0, reserve_at rate now q.1)) at)
          (with_bucket-length max_keys key now m room small keyed))
        (update_where-keyed p (reserve_at rate now) at
          (with_bucket-keyed max_keys key now m named.0 keyed))

  cancel_all-bounded :
      (now : ℕ) (keys : List Str) (m : Buckets rate)
      → HasKeys m
      → (length (cancel_all rate now keys m) ≡ length m) × HasKeys (cancel_all rate now keys m)
  unfolding cancel_all
  cancel_all-bounded now [] m keyed = (refl, keyed)
  cancel_all-bounded now (key ∷ keys) m keyed =
      let p = λ (q : Str × Tracked rate). q.0 == key in
      let f = λ (q : Str × Tracked rate).
        let r : Str × Tracked rate = (q.0, cancel_at rate now q.1) in r in
      let (same, left) =
        cancel_all-bounded now keys (update_where p f m)
          (update_where-keyed p (cancel_at rate now) m keyed) in
      (same ∙ length-update_where p f m, left)

  allow_all-IsBounded :
      (now : ℕ) (keys : List Str) (l : Limiter rate)
      → 0 < l.max_keys
      → All (λ key. key ≢ []) keys
      → IsBounded l
      → IsBounded (allow_all rate now keys l).2
  unfolding allow_all evict_idle
  allow_all-IsBounded now [] l room named b = b
  allow_all-IsBounded now (key ∷ keys) l room named b =
      let idle = λ (p : Str × Tracked rate). ltb (p.1.last_seen + l.idle_for) now in
      let kept = delete_where idle l.buckets in
      let small : length kept ≤ l.max_keys =
        omega (arith, length-delete_where idle l.buckets, b.at_most) in
      let (fits, keyed) =
        reserve_all-bounded l.max_keys now (key ∷ keys) 0 kept room named small
          (λ p i. b.keyed p (delete_where-In idle l.buckets p i).0) in
      let r = reserve_all rate l.max_keys now (key ∷ keys) 0 kept in
      elim (Bool-cases (ltb 0 r.0)) [
        | inl slow ↦
            let (same, left) = cancel_all-bounded now (key ∷ keys) r.1 keyed in
            rw slow (record { at_most = rw same fits; keyed = left })
        | inr free ↦ rw free (record { at_most = fits; keyed = keyed })
      ]

  -- The keys that `Limit` asks for have a prefix.
  keys_of-named : (user : Option Str) (ip : Str) → All (λ key. key ≢ []) (keys_of rate user ip)
  unfolding keys_of
  keys_of-named none ip = ((λ e. cc), tt)
  keys_of-named (some id) ip = elim (Bool-cases (id == [])) [
    | inl blank ↦ rw (keys_of, blank) ((λ e. cc), tt)
    | inr named ↦ rw (keys_of, named) ((λ e. cc), ((λ e. cc), tt))
  ]

  allow_all-max_keys :
      (now : ℕ) (keys : List Str) (l : Limiter rate)
      → (allow_all rate now keys l).2.max_keys ≡ l.max_keys
  unfolding allow_all
  allow_all-max_keys now [] l = refl
  allow_all-max_keys now (key ∷ keys) l =
      elim (Bool-cases (
        ltb 0
          (reserve_all rate l.max_keys now (key ∷ keys) 0
            (evict_idle rate l.idle_for now l.buckets)).0)) [
              | inl slow ↦ rw slow refl
              | inr free ↦ rw free refl
            ]

  limit_request-IsBounded :
      (now : ℕ) (user : Option Str) (ip : Str) (l : Limiter rate)
      → 0 < l.max_keys
      → IsBounded l
      → IsBounded (limit_request rate now user ip l).1
        × ((limit_request rate now user ip l).1.max_keys ≡ l.max_keys)
  unfolding limit_request
  limit_request-IsBounded now user ip l room b =
      let keys = keys_of rate user ip in
      let named = keys_of-named user ip in
      let still = allow_all-IsBounded now keys l room named b in
      let same = allow_all-max_keys now keys l in
      elim (Bool-cases (allow_all rate now keys l).1) [
        | inl allowed ↦ rw (limit_request, allowed) (still, same)
        | inr refused ↦ rw (limit_request, refused) (still, same)
      ]

  -- A limiter after requests, each with its time, its user and its address.
  unfoldable pub after_requests : List (ℕ × Option Str × Str) → Limiter rate → Limiter rate
  unfolding limit_request
  after_requests [] l = l
  after_requests ((now, user, ip) ∷ requests) l =
      after_requests requests (limit_request rate now user ip l).1

  after_requests-IsBounded :
      (requests : List (ℕ × Option Str × Str)) (l : Limiter rate)
      → l.max_keys ≡ default_max_keys
      → IsBounded l
      → (length (after_requests requests l).buckets ≤ default_max_keys)
        × HasKeys (after_requests requests l).buckets
  unfolding after_requests
  after_requests-IsBounded [] l e b = (omega (arith, e, b.at_most), b.keyed)
  after_requests-IsBounded ((now, user, ip) ∷ requests) l e b =
      let room : 0 < l.max_keys = omega (arith, e) in
      let (still, same) = limit_request-IsBounded now user ip l room b in
      after_requests-IsBounded requests (limit_request rate now user ip l).1 (same ∙ e) still

  -- After any requests to a new limiter, whatever their users and addresses, its map holds at most
  -- 10000 keys, and no blank one.
  pub limit_request-at_most :
      (requests : List (ℕ × Option Str × Str))
      → (length (after_requests requests (new_limiter rate)).buckets ≤ 10000)
        × HasKeys (after_requests requests (new_limiter rate)).buckets
  unfolding new_limiter
  limit_request-at_most requests =
      after_requests-IsBounded requests (new_limiter rate) refl
        (record { at_most = omega arith; keyed = λ p i. absurd i })
