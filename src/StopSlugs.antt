-- ===== src/StopSlugs.antt =====
-- internal/transit/compilable.go: the slugs by which the stops of an authored service are known.
pub mod Distinct
use sparks_effect_api.Prelude.{
  ℕ, zero, suc, ◌+◌, List, [], ◌∷◌, ◌++◌, length, Option, none, some, Str, codes, str_Eq,
  if◌then◌else◌, contains,
}

-- A number as text is `print`, the `%d` of the package fmt, and `slugify` is the slug of a name.
module _ (print : ℕ → Str) (slugify : Str → Str) where
  -- `fmt.Sprintf("%s-%d", base, n)`
  unfoldable pub numbered : Str → ℕ → Str
  numbered base n = base ++ b'-' ∷ print n

  -- The inner loop of `StopSlugs`, on rounds.
  unfoldable pub free_slug : ℕ → List Str → Str → ℕ → Str → Option Str
  unfolding numbered
  free_slug zero taken base n slug = none
  free_slug (suc rounds) taken base n slug =
      let rest = free_slug rounds taken base (n + 1) (numbered base n) in
      if contains taken slug then rest else some slug

  -- The outer loop, over the names of the stops, with a round for each slug that is taken and one
  -- more.
  unfoldable pub stop_slugs_from : Str → List Str → List Str → Option (List Str)
  unfolding free_slug
  stop_slugs_from slug taken [] = some []
  stop_slugs_from slug taken (name ∷ names) =
      let base = slug ++ codes "--" ++ slugify name in
      elim (free_slug (length taken + 1) taken base 2 base) [
        | none ↦ none
        | some free ↦ elim (stop_slugs_from slug (free ∷ taken) names) [
          | none ↦ none
          | some slugs ↦ some (free ∷ slugs)
        ]
      ]

  -- `StopSlugs` of a service's slug and the names of its stops.
  unfoldable pub stop_slugs : Str → List Str → Option (List Str)
  unfolding stop_slugs_from
  stop_slugs slug names = stop_slugs_from slug [] names
