-- ===== src/Examples/Limits.antt =====
-- Buckets that hold a number of tokens, and a request behind one trusted proxy.
use sparks_effect_api.Prelude.{
  ℕ, ◌+◌, ◌-◌, ◌≤◌, [], ◌∷◌, none, some, Str, codes, ltb, ◌≡◌, refl, arith, In, str_eq,
  if◌then◌else◌, lookup, delete_where, update_where, length,
}
use sparks_effect_api.RateLimit.{Rate, Tracked, Limiter, limit_request, new_limiter, second}
use sparks_effect_api.RateLimit.Bounded.{HasKeys, after_requests, limit_request-at_most}
use sparks_effect_api.RateLimit.Unspent.{IsUnspent, limit_request-IsUnspent}
use sparks_effect_api.RateLimit.ClientIp.{Net, from_request, parse_xff, host_from_remote_addr}
use sparks_effect_api.RateLimit.ClientIp.Trusted.{header, from_request-outermost}

-- A bucket counts what was taken from it; the third reservation waits a second.
abbrev counting : Rate
counting = record {
  Bucket = ℕ;
  fresh = 0;
  reserve = λ now b. (if ltb b 2 then 0 else second, b + 1);
  cancel = λ now b. b - 1;
}

abbrev held : ℕ → ℕ → ℕ
held later b = b

gives_back :
    (now later b : ℕ)
    → now ≤ later
    → held later (counting.cancel now (counting.reserve now b).1) ≡ held later b
gives_back now later b le = omega arith

abbrev user : Str
user = codes "u"

abbrev ip : Str
ip = codes "1.2.3.4"

abbrev tracked : ℕ → Tracked counting
tracked n = record { lim = n; last_seen = 5 }

abbrev limiter : Limiter counting
limiter = record {
  idle_for = 100;
  max_keys = 2;
  buckets = (codes "user:u", tracked 2) ∷ (codes "ip:1.2.3.4", tracked 1) ∷ [];
}

abbrev after : Limiter counting
after = record limiter {
  buckets =
      (codes "user:u", record { lim = 2; last_seen = 7 })
      ∷ (codes "ip:1.2.3.4", record { lim = 1; last_seen = 7 })
      ∷ [];
}

refuses : limit_request counting 7 (some user) ip limiter ≡ (some 1, after)
unfolding limit_request str_eq lookup delete_where update_where
refuses = refl

limit_request-IsUnspent_example :
    (1 ≤ 1)
    × ((p : Str × Tracked counting)
        → In p after.buckets
        → IsUnspent counting held gives_back 7 limiter.buckets p)
limit_request-IsUnspent_example =
    limit_request-IsUnspent counting held gives_back 7 1 (some user) ip limiter after refuses

abbrev served : Limiter counting
served = after_requests counting ((7, some user, ip) ∷ (8, none, []) ∷ []) (new_limiter counting)

limit_request-at_most_example : (length served.buckets ≤ 10000) × HasKeys counting served.buckets
limit_request-at_most_example =
    limit_request-at_most counting ((7, some user, ip) ∷ (8, none, []) ∷ [])

-- The two requests leave a bucket for the user and one for each address.
served_keys : length served.buckets ≡ 3
unfolding after_requests lookup delete_where str_eq new_limiter update_where
served_keys = refl

-- Every text that is not blank is taken for an address.
abbrev net : Net
net = record {
  trim_space = λ s. s;
  split_host_port = λ s. none;
  trim_brackets = λ s. s;
  parse_ip = λ s. some s;
}

parsed : parse_xff net (codes "1.2.3.4") ≡ codes "1.2.3.4" ∷ []
unfolding parse_xff str_eq
parsed = refl

remote : host_from_remote_addr net (codes "10.0.0.1") ≡ some (codes "10.0.0.1")
unfolding host_from_remote_addr str_eq
remote = refl

from_request-outermost_example :
    from_request net
      (header (some (codes "8.8.8.8, 9.9.9.9")) (codes "1.2.3.4"))
      (codes "7")
      (codes "10.0.0.1")
      1
    ≡ codes "1.2.3.4"
from_request-outermost_example =
    from_request-outermost net (some (codes "8.8.8.8, 9.9.9.9")) (codes "1.2.3.4") (codes "7")
      (codes "10.0.0.1") (codes "1.2.3.4") (codes "10.0.0.1") [] parsed remote
