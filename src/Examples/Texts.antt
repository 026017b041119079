-- ===== src/Examples/Texts.antt =====
-- A slug, an id, the slugs of three stops, and two polygons for one key.
use sparks_effect_api.Prelude.{
  ℕ, zero, suc, List, [], ◌∷◌, length, none, some, Str, codes, true, ◌≡◌, ◌⊎◌, refl, arith, str_eq,
  NoRepeat, has_row, select, update_where, contains,
}
use sparks_effect_api.Slugs.{slugify, is_valid_slug}
use sparks_effect_api.Slugs.Accepted.{slugify-valid}
use sparks_effect_api.Ids.{new_uuid, is_uuid}
use sparks_effect_api.Ids.Shape.{new_uuid-is_uuid}
use sparks_effect_api.StopSlugs.{stop_slugs}
use sparks_effect_api.StopSlugs.Distinct.{stop_slugs-NoRepeat}
use sparks_effect_api.IsochroneCache.{
  IsochroneKey, Geometry, array, empty_array, put_isochrone_cache, find_cached,
}
use sparks_effect_api.IsochroneCache.Best.{kept, best_of, put_isochrone_cache-best}

abbrev same : Str → List ℕ
same s = s

slugged : slugify same (codes "--north  line, 2!") ≡ codes "north-line-2"
unfolding slugify
slugged = refl

slugify-valid_example :
    ((slugify same (codes "north line") ≡ [])
      ⊎ (is_valid_slug (slugify same (codes "north line")) ≡ true))
    × (is_valid_slug (codes "north line") ≡ true
        → same (codes "north line") ≡ codes "north line"
        → slugify same (codes "north line") ≡ codes "north line")
slugify-valid_example = slugify-valid same (codes "north line")

abbrev bytes : List ℕ
bytes = 0 ∷ 1 ∷ 2 ∷ 3 ∷ 4 ∷ 5 ∷ 6 ∷ 7 ∷ 8 ∷ 9 ∷ 250 ∷ 251 ∷ 252 ∷ 253 ∷ 254 ∷ 255 ∷ []

made : new_uuid bytes ≡ codes "00010203-0405-4607-8809-fafbfcfdfeff"
unfolding new_uuid
made = refl

new_uuid-is_uuid_example : is_uuid (new_uuid bytes) ≡ true
new_uuid-is_uuid_example = new_uuid-is_uuid bytes (omega arith) (omega arith)

-- Numbers as strokes.
strokes : ℕ → Str
strokes zero = []
strokes (suc n) = b'|' ∷ strokes n

strokes_injective : (m n : ℕ) → strokes m ≡ strokes n → m ≡ n
unfolding strokes
strokes_injective zero zero e = refl
strokes_injective zero (suc n) e = let z : [] ≡ b'|' ∷ strokes n = e in absurd (cc)
strokes_injective (suc m) zero e = let z : b'|' ∷ strokes m ≡ [] = e in absurd (cc)
strokes_injective (suc m) (suc n) e =
    let rest : strokes m ≡ strokes n = cc in omega (arith, strokes_injective m n rest)

abbrev names : List Str
names = codes "a" ∷ codes "a" ∷ codes "b" ∷ []

three :
    stop_slugs strokes (λ s. s) (codes "s") names
    ≡ some (codes "s--a" ∷ codes "s--a-||" ∷ codes "s--b" ∷ [])
unfolding stop_slugs strokes str_eq contains
three = refl

stop_slugs-NoRepeat_example :
    (slugs : List Str) × (stop_slugs strokes (λ s. s) (codes "s") names ≡ some slugs)
    × (length slugs ≡ length names)
    × NoRepeat slugs
stop_slugs-NoRepeat_example =
    stop_slugs-NoRepeat strokes (λ s. s) strokes_injective (codes "s") names

abbrev key : IsochroneKey
key = record {
  compile_job_id = codes "j";
  station_slug = codes "s";
  mode = codes "walk";
  contour_mins = 10;
  departs_on = [];
  budget_mins = 0;
}

abbrev geometry : Str → Geometry
geometry body = record { features = some array; kind = none; body = body }

abbrev blank : Geometry
blank = record { features = some empty_array; kind = none; body = [] }

abbrev puts : List (IsochroneKey × Geometry × ℕ)
puts =
    (key, blank, 9)
    ∷ (key, geometry (codes "old"), 5)
    ∷ (key, blank, 8)
    ∷ (key, geometry (codes "new"), 7)
    ∷ (key, geometry (codes "unknown"), 0)
    ∷ []

newest : kept key (put_isochrone_cache puts []) ≡ some (geometry (codes "new"), some 7)
unfolding put_isochrone_cache str_eq find_cached select has_row update_where
newest = refl

put_isochrone_cache-best_example :
    kept key (put_isochrone_cache puts []) ≡ best_of puts key (kept key [])
put_isochrone_cache-best_example = put_isochrone_cache-best puts [] key
