-- ===== src/IsochroneCache/Best.antt =====
-- internal/persistence/postgres/worker.go: for each key the cache keeps the best polygon that it was
-- given.
use sparks_effect_api.Prelude.{
  ℕ, ◌+◌, List, [], ◌∷◌, Option, none, some, Bool, true, false, not, ◌&&◌, ◌||◌, ltb, str_Eq,
  nat_Eq, str_eq_iff, if◌then◌else◌, select, update_where, has_row, ◌≡◌, ◌↔◌, refl, ap, sym, ◌∙◌,
  Bool-cases, inl, inr, arith, subst, select-some, select-update_where, select-update_other,
  select-holds, select-none, missed-In,
}
use sparks_effect_api.RoutingJobs.{null_time}
use sparks_effect_api.IsochroneCache.{
  IsochroneKey, Geometry, CachedIsochrone, same_key, usable, is_later, replaces, merge, find_cached,
  put_isochrone, put_isochrone_cache,
}

-- How good a polygon is: an unusable one is worst, then one of an unknown tileset, then the later
-- tileset.
abbrev pub Polygon : Type 0
Polygon = Geometry × Option ℕ

pub grade_usable : Option ℕ → ℕ
grade_usable none = 1
grade_usable (some t) = t + 2

pub grade : Polygon → ℕ
grade (g, t) = if usable g then grade_usable t else 0

-- The specification: the first of the best.
pub better : Polygon → Option Polygon → Option Polygon
better p none = some p
better p (some q) = if ltb (grade q) (grade p) then some p else some q

pub best_of : List (IsochroneKey × Geometry × ℕ) → IsochroneKey → Option Polygon → Option Polygon
best_of [] k best = best
best_of ((j, g, t) ∷ es) k best =
    best_of es k (if same_key j k then better (g, null_time t) best else best)

abbrev pub polygon : CachedIsochrone → Polygon
polygon r = (r.geometry, r.tileset_at)

graded :
    (ue ur : Bool) (te tr : Option ℕ)
    → (ue && (not ur || is_later te tr))
      ≡ ltb (if ur then grade_usable tr else 0) (if ue then grade_usable te else 0)
unfolding grade_usable is_later
graded false ur te tr = ground arith
graded true false none tr = ground arith
graded true false (some t) tr = ground arith
graded true true none none = ground arith
graded true true none (some u) = ground arith
graded true true (some t) none = ground arith
graded true true (some t) (some u) = ground arith

replaces-grade :
    (e r : CachedIsochrone) → replaces e r ≡ ltb (grade (polygon r)) (grade (polygon e))
unfolding replaces grade
replaces-grade e r = graded (usable e.geometry) (usable r.geometry) e.tileset_at r.tileset_at

-- A key is compared as a whole.
same_key_iff : (j k : IsochroneKey) → (same_key j k ≡ true) ↔ (j ≡ k)
unfolding same_key
same_key_iff j k = ground (
  arith,
  str_eq_iff j.compile_job_id k.compile_job_id,
  str_eq_iff j.station_slug k.station_slug,
  str_eq_iff j.mode k.mode,
  str_eq_iff j.departs_on k.departs_on,
)

abbrev pub as_polygon : Option CachedIsochrone → Option Polygon
as_polygon none = none
as_polygon (some r) = some (polygon r)

-- The polygon that is kept for a key.
abbrev pub kept : IsochroneKey → List CachedIsochrone → Option Polygon
kept k rows = as_polygon (find_cached k rows)

merge-polygon :
    (e r : CachedIsochrone) → some (polygon (merge e r)) ≡ better (polygon e) (some (polygon r))
unfolding merge better
merge-polygon e r = elim (Bool-cases (replaces e r)) [
  | inl yes_ ↦ rw (merge, yes_, better, ← replaces-grade e r, yes_) refl
  | inr no_ ↦ rw (merge, no_, better, ← replaces-grade e r, no_) refl
]

merge-key : (e r : CachedIsochrone) → (merge e r).key ≡ r.key
unfolding merge
merge-key e r = ground arith

same_key_refl : (k : IsochroneKey) → same_key k k ≡ true
same_key_refl k = (same_key_iff k k).1 refl

-- A put is for its own key.
put_isochrone-kept :
    (e : CachedIsochrone) (rows : List CachedIsochrone)
    → kept e.key (put_isochrone e rows) ≡ better (polygon e) (kept e.key rows)
unfolding put_isochrone find_cached better
put_isochrone-kept e rows =
    let k = λ (r : CachedIsochrone). same_key r.key e.key in
    elim (Bool-cases (has_row k rows)) [
      | inl held ↦
          let (r, found) = select-some k rows held in
          let again : select k (update_where k (merge e) rows) ≡ some (merge e r) =
            select-update_where k k (merge e) rows r
              (λ y. ap (λ j. same_key j e.key) (merge-key e y)) found
              (select-holds k rows r found) in
          let step : put_isochrone e rows ≡ update_where k (merge e) rows =
            rw (put_isochrone, held) refl in
          ap (kept e.key) step
          ∙ ap as_polygon again
          ∙ merge-polygon e r
          ∙ ap (λ o. better (polygon e) (as_polygon o)) (sym found)
      | inr new ↦
          let missing : select k rows ≡ none =
            select-none k rows (λ x i. missed-In k rows x new i) in
          let first : select k (e ∷ rows) ≡ some e =
            unfold select in rw (same_key_refl e.key) refl in
          let step : put_isochrone e rows ≡ e ∷ rows = rw (put_isochrone, new) refl in
          ap (kept e.key) step
          ∙ ap as_polygon first
          ∙ ap (λ o. better (polygon e) (as_polygon o)) (sym missing)
    ]

put_isochrone-other :
    (e : CachedIsochrone) (k : IsochroneKey) (rows : List CachedIsochrone)
    → same_key e.key k ≡ false
    → kept k (put_isochrone e rows) ≡ kept k rows
unfolding put_isochrone find_cached
put_isochrone-other e k rows apart =
    let p = λ (r : CachedIsochrone). same_key r.key e.key in
    let q = λ (r : CachedIsochrone). same_key r.key k in
    let off : (y : CachedIsochrone) → p y ≡ true → (q y ≡ false) × (q (merge e y) ≡ false) = λ y h.
      let same : y.key ≡ e.key = (same_key_iff y.key e.key).0 h in
      (
        subst (λ j. same_key j k ≡ false) (sym same) apart,
        subst (λ j. same_key j k ≡ false) (sym (merge-key e y ∙ same)) apart,
      ) in
    elim (Bool-cases (has_row p rows)) [
      | inl held ↦
          let step : put_isochrone e rows ≡ update_where p (merge e) rows =
            rw (put_isochrone, held) refl in
          ap (kept k) step ∙ ap as_polygon (select-update_other q p (merge e) rows off)
      | inr new ↦
          let first : select q (e ∷ rows) ≡ select q rows = unfold select in rw apart refl in
          let step : put_isochrone e rows ≡ e ∷ rows = rw (put_isochrone, new) refl in
          ap (kept k) step ∙ ap as_polygon first
    ]

put_step :
    (e : CachedIsochrone) (k : IsochroneKey) (rows : List CachedIsochrone)
    → kept k (put_isochrone e rows)
      ≡ (if same_key e.key k then better (polygon e) (kept k rows) else kept k rows)
put_step e k rows = elim (Bool-cases (same_key e.key k)) [
  | inr apart ↦ rw apart (put_isochrone-other e k rows apart)
  | inl at ↦
      let same : e.key ≡ k = (same_key_iff e.key k).0 at in
      rw at (
        subst (λ j. kept j (put_isochrone e rows) ≡ better (polygon e) (kept j rows)) same
          (put_isochrone-kept e rows))
]

-- After any puts the cache holds, for each key, the first of the best polygons that it was given for
-- it: a usable polygon is never lost to an unusable one, nor to one of an earlier or unknown tileset.
pub put_isochrone_cache-best :
    (es : List (IsochroneKey × Geometry × ℕ)) (rows : List CachedIsochrone) (k : IsochroneKey)
    → kept k (put_isochrone_cache es rows) ≡ best_of es k (kept k rows)
unfolding put_isochrone_cache best_of
put_isochrone_cache-best [] rows k = refl
put_isochrone_cache-best ((j, g, t) ∷ es) rows k =
    let e : CachedIsochrone = record { key = j; geometry = g; tileset_at = null_time t } in
    put_isochrone_cache-best es (put_isochrone e rows) k ∙ ap (best_of es k) (put_step e k rows)
