-- ===== src/RateLimit/ClientIp/Trusted.antt =====
-- internal/ratelimit/clientip.go: behind trusted proxies the address is not the client's to choose.
use sparks_effect_api.Prelude.{
  ℕ, ◌+◌, ◌-◌, suc, List, [], ◌∷◌, ◌++◌, length, length-append, get_elem?, Option, none, some, Str,
  true, false, ltb, ◌≡◌, ◌≢◌, refl, sym, ap, ◌∙◌, ◌==◌, str_Eq, nat_Eq, str_eq, inl, inr, arith,
  Option-cases, cons-eq-nil, split_on, split_on-append,
}
use mathlib.Core.List.{append_assoc}
use sparks_effect_api.RateLimit.ClientIp.{
  Net, from_request, forwarded, parse_xff, parse_all, parse_single_ip, host_from_remote_addr,
}

get_elem?-append : (xs ys : List Str) (y : Str) → get_elem? (xs ++ y ∷ ys) (length xs) ≡ some y
get_elem?-append [] ys y = refl
get_elem?-append (x ∷ xs) ys y = get_elem?-append xs ys y

-- The header that arrives: what the client sent, if it sent one, and what the proxies added.
abbrev pub header : Option Str → Str → Str
header none added = added
header (some sent) added = sent ++ b',' ∷ added

filled : (s : Str) (c : ℕ) (t : Str) → ((s ++ c ∷ t) == []) ≡ false
unfolding str_eq
filled [] c t = refl
filled (d ∷ s) c t = refl

module _ (net : Net) where
  parse_all-append :
      (ps qs : List Str) → parse_all net (ps ++ qs) ≡ parse_all net ps ++ parse_all net qs
  unfolding parse_all
  parse_all-append [] qs = refl
  parse_all-append (p ∷ ps) qs = elim (Option-cases (parse_single_ip net p)) [
    | inl blank ↦ rw (parse_all, blank) (parse_all-append ps qs)
    | inr (ip, found) ↦ rw (parse_all, found) (ap (λ r. ip ∷ r) (parse_all-append ps qs))
  ]

  not_blank : (s : Str) → parse_xff net s ≢ [] → (s == []) ≡ false
  unfolding parse_xff str_eq
  not_blank [] h = absurd (h refl)
  not_blank (c ∷ s) h = refl

  -- The addresses of the header end in those that the proxies added.
  parse_xff-header :
      (sent : Option Str) (added : Str)
      → parse_xff net added ≢ []
      → (before : List Str) × (parse_xff net (header sent added) ≡ before ++ parse_xff net added)
  unfolding parse_xff parse_all
  parse_xff-header none added h = ([], refl)
  parse_xff-header (some s) added h =
      let here : (added == []) ≡ false = not_blank added h in
      (
        parse_all net (split_on b',' s),
        rw (parse_xff, filled s b',' added, here)
            (ap (parse_all net) (split_on-append b',' s added)
              ∙ parse_all-append (split_on b',' s) (split_on b',' added)),
      )

  forwarded-append :
      (before inner : List Str) (client xff real_ip : Str)
      → parse_xff net xff ≡ before ++ client ∷ inner
      → forwarded net xff real_ip ≡ before ++ client ∷ inner
  unfolding forwarded
  forwarded-append [] inner client xff real_ip e = rw (forwarded, e) refl
  forwarded-append (b ∷ before) inner client xff real_ip e = rw (forwarded, e) refl

  -- Behind `n` trusted proxies that each add the address of their peer to X-Forwarded-For, the
  -- address of a request is the one that the outermost of them added, whatever the client has sent
  -- in that header or in X-Real-IP.
  pub from_request-outermost :
      (sent : Option Str) (added real_ip remote_addr client peer : Str) (inner : List Str)
      → parse_xff net added ≡ client ∷ inner
      → host_from_remote_addr net remote_addr ≡ some peer
      → from_request net (header sent added) real_ip remote_addr (length (client ∷ inner)) ≡ client
  unfolding from_request forwarded
  from_request-outermost sent added real_ip remote_addr client peer inner parsed remote =
      let (before, e) =
        parse_xff-header sent added (λ z. cons-eq-nil {x = client} {xs = inner} (sym parsed ∙ z)) in
      let listed : parse_xff net (header sent added) ≡ before ++ (client ∷ inner) =
        e ∙ ap (λ r. before ++ r) parsed in
      let split : forwarded net (header sent added) real_ip ≡ before ++ client ∷ inner =
        forwarded-append before inner client (header sent added) real_ip listed in
      let chain = (before ++ client ∷ inner) ++ peer ∷ [] in
      let long : length chain ≡ length before + (2 + length inner) = omega (
        arith,
        length-append (before ++ client ∷ inner) (peer ∷ []),
        length-append before (client ∷ inner),
      ) in
      let index : length chain - 1 - suc (length inner) ≡ length before = omega arith in
      let reaches : ltb (suc (length inner)) (length chain) ≡ true = ground arith in
      let found : get_elem? chain (length before) ≡ some client =
        rw (append_assoc before (client ∷ inner) (peer ∷ []))
          (get_elem?-append before (inner ++ peer ∷ []) client) in
      let on : (suc (length inner) == 0) ≡ false = ground arith in
      rw (from_request, on, remote, split, reaches, index, found) refl
