-- ===== src/IsochroneCache.antt =====
-- internal/persistence/postgres/worker.go: the cache of isochrones, and which of two polygons it keeps.
pub mod Best
use sparks_effect_api.Prelude.{
  ℕ, List, [], ◌∷◌, Option, none, some, Str, Bool, true, false, not, ◌&&◌, ◌||◌, ltb, ◌==◌, str_Eq,
  nat_Eq, if◌then◌else◌, select, update_where, has_row,
}
use sparks_effect_api.RoutingJobs.{null_time}

-- A day of "" and a budget of 0 are NULL in the table, where NULLs are not distinct: keys are equal
-- there as they are here. The numbers are below 2 ^ 31.
pub record IsochroneKey : Type 0 where
  pub compile_job_id : Str
  pub station_slug : Str
  pub mode : Str
  pub contour_mins : ℕ
  pub departs_on : Str
  pub budget_mins : ℕ

unfoldable pub same_key : IsochroneKey → IsochroneKey → Bool
same_key j k =
    j.compile_job_id == k.compile_job_id
    && j.station_slug == k.station_slug
    && j.mode == k.mode
    && j.contour_mins == k.contour_mins
    && j.departs_on == k.departs_on
    && j.budget_mins == k.budget_mins

-- What the test on a geometry sees of a JSON value.
pub data Value : Type 0 where
  null : Value
  text : Value
  empty_array : Value
  array : Value
  other : Value

-- The members of the geometry; the rest of it is `body`.
pub record Geometry : Type 0 where
  pub features : Option Value
  pub kind : Option Value
  pub body : Str

unfoldable pub is_filled_array : Option Value → Bool
is_filled_array (some array) = true
is_filled_array (some null) = false
is_filled_array (some text) = false
is_filled_array (some empty_array) = false
is_filled_array (some other) = false
is_filled_array none = false

unfoldable pub is_text_or_null : Option Value → Bool
is_text_or_null none = true
is_text_or_null (some null) = true
is_text_or_null (some text) = true
is_text_or_null (some empty_array) = false
is_text_or_null (some array) = false
is_text_or_null (some other) = false

-- `usableGeometrySQL`
unfoldable pub usable : Geometry → Bool
unfolding is_filled_array is_text_or_null
usable g = is_filled_array g.features && is_text_or_null g.kind

-- A tileset of none is NULL.
pub record CachedIsochrone : Type 0 where
  pub key : IsochroneKey
  pub geometry : Geometry
  pub tileset_at : Option ℕ

-- `excluded.tileset_at IS NOT NULL AND (… IS NULL OR excluded.tileset_at > …)`
unfoldable pub is_later : Option ℕ → Option ℕ → Bool
is_later none stored = false
is_later (some t) none = true
is_later (some t) (some s) = ltb s t

-- The WHERE clause of the update.
unfoldable pub replaces : CachedIsochrone → CachedIsochrone → Bool
unfolding usable is_later
replaces excluded stored =
    usable excluded.geometry
    && (not (usable stored.geometry) || is_later excluded.tileset_at stored.tileset_at)

unfoldable pub merge : CachedIsochrone → CachedIsochrone → CachedIsochrone
unfolding replaces
merge excluded stored =
    if replaces excluded stored
    then record stored { geometry = excluded.geometry; tileset_at = excluded.tileset_at }
    else stored

unfoldable pub find_cached : IsochroneKey → List CachedIsochrone → Option CachedIsochrone
unfolding same_key
find_cached k rows = select (λ r. same_key r.key k) rows

-- One statement of the batch.
unfoldable pub put_isochrone : CachedIsochrone → List CachedIsochrone → List CachedIsochrone
unfolding same_key merge
put_isochrone e rows =
    if has_row (λ r. same_key r.key e.key) rows
    then update_where (λ r. same_key r.key e.key) (merge e) rows
    else e ∷ rows

-- `PutIsochroneCache`, when no entry is refused; an entry's tileset of 0 is Go's zero time.
unfoldable pub put_isochrone_cache :
    List (IsochroneKey × Geometry × ℕ) → List CachedIsochrone → List CachedIsochrone
unfolding put_isochrone null_time
put_isochrone_cache [] rows = rows
put_isochrone_cache ((k, g, t) ∷ es) rows =
    put_isochrone_cache es
      (put_isochrone (record { key = k; geometry = g; tileset_at = null_time t }) rows)

-- `GetIsochroneCache`: the rows of the keys that have one.
unfoldable pub get_isochrone_cache : List IsochroneKey → List CachedIsochrone → List CachedIsochrone
unfolding find_cached
get_isochrone_cache [] rows = []
get_isochrone_cache (k ∷ ks) rows =
    let rest = get_isochrone_cache ks rows in
    elim (find_cached k rows) [ none ↦ rest | some r ↦ r ∷ rest ]
