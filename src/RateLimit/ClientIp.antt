-- ===== src/RateLimit/ClientIp.antt =====
-- internal/ratelimit/clientip.go: the address that a request is counted under.
pub mod Trusted
use sparks_effect_api.Prelude.{
  ℕ, ◌+◌, ◌-◌, List, [], ◌∷◌, ◌++◌, length, get_elem?, Option, none, some, Str, codes, ltb, ◌==◌,
  str_Eq, nat_Eq, if◌then◌else◌, split_on,
}

-- What the code calls of Go's library: TrimSpace, SplitHostPort, Trim by brackets, and ParseIP with
-- the text of its result.
pub record Net : Type 0 where
  pub trim_space : Str → Str
  pub split_host_port : Str → Option Str
  pub trim_brackets : Str → Str
  pub parse_ip : Str → Option Str

module _ (net : Net) where
  -- `parseSingleIP`; a blank is none.
  unfoldable pub parse_single_ip : Str → Option Str
  parse_single_ip part =
      let trimmed = net.trim_space part in
      if trimmed == []
      then none
      else let host : Str = elim (net.split_host_port trimmed) [ none ↦ trimmed | some h ↦ h ] in
        elim (net.parse_ip (net.trim_brackets host)) [
          | none ↦ none
          | some ip ↦ if ip == [] then none else some ip
        ]

  unfoldable pub host_from_remote_addr : Str → Option Str
  unfolding parse_single_ip
  host_from_remote_addr remote = if remote == [] then none else elim (net.split_host_port remote) [
    | some host ↦ parse_single_ip host
    | none ↦ parse_single_ip (net.trim_brackets remote)
  ]

  unfoldable pub parse_all : List Str → List Str
  unfolding parse_single_ip
  parse_all [] = []
  parse_all (p ∷ ps) =
      let rest = parse_all ps in elim (parse_single_ip p) [ none ↦ rest | some ip ↦ ip ∷ rest ]

  unfoldable pub parse_xff : Str → List Str
  unfolding parse_all split_on
  parse_xff header = if header == [] then [] else parse_all (split_on b',' header)

  -- The chain before the peer: the addresses of X-Forwarded-For, or else X-Real-IP.
  unfoldable pub forwarded : Str → Str → List Str
  unfolding parse_xff
  forwarded xff real_ip = elim (parse_xff xff) [
    | ip ∷ ips ↦ ip ∷ ips
    | [] ↦ elim (parse_single_ip real_ip) [ none ↦ [] | some ip ↦ ip ∷ [] ]
  ]

  unfoldable pub or_unknown : Option Str → Str
  or_unknown none = codes "unknown"
  or_unknown (some ip) = ip

  -- `FromRequest`: `xff` is the joined values of X-Forwarded-For, `n` the trusted proxies, at least 0.
  unfoldable pub from_request : Str → Str → Str → ℕ → Str
  unfolding host_from_remote_addr forwarded or_unknown
  from_request xff real_ip remote_addr n =
      let remote = host_from_remote_addr remote_addr in
      if n == 0
      then or_unknown remote
      else let peer : List Str = elim remote [ none ↦ [] | some ip ↦ ip ∷ [] ] in
        let chain = forwarded xff real_ip ++ peer in
        if ltb n (length chain)
        then elim (get_elem? chain (length chain - 1 - n)) [ none ↦ codes "unknown" | some ip ↦ ip ]
        else or_unknown remote
