-- ===== src/Slugs.antt =====
-- internal/route/slug.go: the slug of a route's name, and which slugs are accepted.
pub mod Accepted
use sparks_effect_api.Prelude.{
  ℕ, List, [], ◌∷◌, Str, Bool, true, false, ◌&&◌, ◌||◌, leb, ◌==◌, str_Eq, if◌then◌else◌, split_on,
}

-- A slug's characters are below 128, so their runes are their bytes.
unfoldable pub is_slug_rune : ℕ → Bool
is_slug_rune r = (leb b'a' r && leb r b'z') || (leb b'0' r && leb r b'9')

-- The loop of `Slugify` over the runes of the lower-case name: what it still writes, when a hyphen is
-- pending and when something was written.
unfoldable pub slug_loop : List ℕ → Bool → Bool → Str
unfolding is_slug_rune
slug_loop [] pending started = []
slug_loop (r ∷ rs) pending started =
    let written = slug_loop rs false true in
    let skipped = slug_loop rs true started in
    if is_slug_rune r
    then if pending && started then b'-' ∷ r ∷ written else r ∷ written
    else skipped

-- `Slugify`; `lower` is the runes of `strings.ToLower`.
unfoldable pub slugify : (Str → List ℕ) → Str → Str
unfolding slug_loop
slugify lower name = slug_loop (lower name) false false

unfoldable pub all_slug_runes : Str → Bool
unfolding is_slug_rune
all_slug_runes [] = true
all_slug_runes (r ∷ s) = is_slug_rune r && all_slug_runes s

unfoldable pub all_parts : List Str → Bool
unfolding all_slug_runes
all_parts [] = true
all_parts ([] ∷ ps) = false
all_parts ((r ∷ p) ∷ ps) = all_slug_runes (r ∷ p) && all_parts ps

unfoldable pub is_valid_slug : Str → Bool
unfolding all_parts
is_valid_slug s = if s == [] then false else all_parts (split_on b'-' s)
