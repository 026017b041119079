-- ===== src/RateLimit.antt =====
-- internal/ratelimit/limiter.go and middleware.go: a token bucket for each key, and the requests that
-- it refuses.
pub mod Bounded
pub mod Unspent
pub mod ClientIp
use sparks_effect_api.Prelude.{
  ℕ, ◌+◌, ◌-◌, ◌/◌, ◌^◌, ◌*◌, List, [], ◌∷◌, ◌++◌, length, Option, none, some, Str, codes, Bool,
  true, false, ltb, leb, ◌==◌, str_Eq, if◌then◌else◌, lookup, delete_where, update_where,
}

-- A bucket of golang.org/x/time/rate. Reserving gives the delay in nanoseconds; cancelling is of a
-- reservation made at that time.
pub record Rate : Type 1 where
  pub Bucket : Type 0
  pub fresh : Bucket
  pub reserve : ℕ → Bucket → ℕ × Bucket
  pub cancel : ℕ → Bucket → Bucket

abbrev pub second : ℕ
second = 10 ^ 9

abbrev pub default_max_keys : ℕ
default_max_keys = 10000

abbrev pub default_idle_for : ℕ
default_idle_for = 120 * second

module _ (rate : Rate) where
  open rate use {Bucket, fresh, reserve, cancel}

  pub record Tracked : Type 0 where
    pub lim : Bucket
    pub last_seen : ℕ

  -- The map's assignments, in the order in which a range meets them.
  abbrev pub Buckets : Type 0
  Buckets = List (Str × Tracked)

  pub record Limiter : Type 0 where
    pub idle_for : ℕ
    pub max_keys : ℕ
    pub buckets : Buckets

  -- `New`, with the bucket that the rate gives; `tokens` per minute above 0.
  unfoldable pub new_limiter : Limiter
  new_limiter = record { idle_for = default_idle_for; max_keys = default_max_keys; buckets = [] }

  unfoldable pub evict_idle : ℕ → ℕ → Buckets → Buckets
  evict_idle idle_for now m = delete_where (λ p. ltb (p.1.last_seen + idle_for) now) m

  -- The loop of `evictOldest`, from the oldest so far.
  unfoldable pub oldest_from : Option (Str × ℕ) → Buckets → Option (Str × ℕ)
  oldest_from best [] = best
  oldest_from none ((k, b) ∷ m) = oldest_from (some (k, b.last_seen)) m
  oldest_from (some (j, t)) ((k, b) ∷ m) =
      oldest_from (if ltb b.last_seen t then some (k, b.last_seen) else some (j, t)) m

  unfoldable pub evict_oldest : Buckets → Buckets
  unfolding oldest_from
  evict_oldest m = elim (oldest_from none m) [
    | none ↦ m
    | some (k, t) ↦ if k == [] then m else delete_where (λ p. p.0 == k) m
  ]

  -- `bucket`: the map then has the key.
  unfoldable pub with_bucket : ℕ → Str → ℕ → Buckets → Buckets
  unfolding evict_oldest
  with_bucket max_keys key now m = elim (lookup m key) [
    | some b ↦ m
    | none ↦
        (key, record { lim = fresh; last_seen = now })
        ∷ (if leb max_keys (length m) then evict_oldest m else m)
  ]

  -- A reservation at the bucket of the key.
  unfoldable pub reserve_at : ℕ → Tracked → Tracked
  reserve_at now b = record { lim = (reserve now b.lim).1; last_seen = now }

  unfoldable pub cancel_at : ℕ → Tracked → Tracked
  cancel_at now b = record b { lim = cancel now b.lim }

  unfoldable pub delay_of : ℕ → Str → Buckets → ℕ
  delay_of now key m = elim (lookup m key) [ none ↦ 0 | some b ↦ (reserve now b.lim).0 ]

  unfoldable pub max : ℕ → ℕ → ℕ
  max a b = if ltb a b then b else a

  -- The loop of `AllowAll`: the longest delay, and the map.
  unfoldable pub reserve_all : ℕ → ℕ → List Str → ℕ → Buckets → ℕ × Buckets
  unfolding with_bucket reserve_at delay_of max
  reserve_all max_keys now [] delay m = (delay, m)
  reserve_all max_keys now (key ∷ keys) delay m =
      let at = with_bucket max_keys key now m in
      reserve_all max_keys now keys (max delay (delay_of now key at))
        (update_where (λ p. p.0 == key) (λ p. (p.0, reserve_at now p.1)) at)

  unfoldable pub cancel_all : ℕ → List Str → Buckets → Buckets
  unfolding cancel_at
  cancel_all now [] m = m
  cancel_all now (key ∷ keys) m =
      cancel_all now keys (update_where (λ p. p.0 == key) (λ p. (p.0, cancel_at now p.1)) m)

  -- `AllowAll` of a limiter that is not nil: the time to wait, whether to go on, and the limiter.
  unfoldable pub allow_all : ℕ → List Str → Limiter → ℕ × Bool × Limiter
  unfolding evict_idle reserve_all cancel_all max
  allow_all now [] l = (0, true, l)
  allow_all now (key ∷ keys) l =
      let r = reserve_all l.max_keys now (key ∷ keys) 0 (evict_idle l.idle_for now l.buckets) in
      if ltb 0 r.0
      then (max second r.0, false, record l { buckets = cancel_all now (key ∷ keys) r.1 })
      else (0, true, record l { buckets = r.1 })

  -- The keys of `Limit`: the address, and the user in front if there is one with an id.
  unfoldable pub keys_of : Option Str → Str → List Str
  keys_of user ip =
      let by_ip = codes "ip:" ++ (if ip == [] then codes "unknown" else ip) in
      elim user [
        | none ↦ by_ip ∷ []
        | some id ↦ if id == [] then by_ip ∷ [] else (codes "user:" ++ id) ∷ by_ip ∷ []
      ]

  -- `writeRateLimited`'s header: the seconds rounded up, at least 1.
  unfoldable pub retry_after : ℕ → ℕ
  retry_after wait = let secs = (wait + (second - 1)) / second in if ltb secs 1 then 1 else secs

  -- `Limit`: the seconds of the 429, if the request is refused.
  unfoldable pub limit_request : ℕ → Option Str → Str → Limiter → Option ℕ × Limiter
  unfolding allow_all keys_of retry_after
  limit_request now user ip l =
      let (wait, allowed, l') = allow_all now (keys_of user ip) l in
      if allowed then (none, l') else (some (retry_after wait), l')
