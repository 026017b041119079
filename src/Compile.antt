-- ===== src/Compile.antt =====
-- internal/transit/compile.go: the seeded compiler, from stations, services and segment times to a
-- transit graph.
pub mod Edges
pub mod Services
use mathlib.Core.List.{foldl}
use sparks_effect_api.Prelude.{
  ℕ, suc, List, [], ◌∷◌, ◌++◌, Option, none, some, Str, Bool, true, false, ℤ, pos, ltb_ℤ, ◌+ⁱ◌,
  ◌==◌, str_Eq, if◌then◌else◌, Result, ok, err, ◌>>=◌, or_fail, map_err, contains, lookup, length,
}
use sparks_effect_api.Types.{
  BoardingWaitPolicy, Station, VehicleType, ServiceStop, Service, SegmentTime, Edge, ServiceGraph,
  GraphNode, TransitGraph,
}
use sparks_effect_api.BoardingWait.{WaitError, resolve_boarding_wait, apply_boarding_wait}
use sparks_effect_api.Segments.{
  Network, SegmentError, build_segment_adj, PathResult, path_ok, no_path, path_out_of_fuel,
  segment_path_seconds, path_run_seconds, reverse_path,
}

pub data CompileError : Type 0 where
  in_segments : SegmentError → CompileError
  no_usable_location : Str → CompileError
  unusable_routing_location : Str → CompileError
  unknown_vehicle_type : Str → Str → CompileError
  unknown_station : Str → Str → CompileError
  off_path : Str → Str → CompileError
  in_wait : Str → WaitError → CompileError
  no_segment_path : Str → Str → Str → CompileError
  out_of_rounds : CompileError

-- A map filled by a loop over `xs`; a later key replaces an earlier one.
abbrev pub index_by {ℓ} : {A : Type ℓ} → (A → Str) → List A → List (Str × A)
index_by key = foldl (λ m x. (key x, x) ∷ m) []

-- `_, ok := m[k]`
abbrev pub is_key {ℓ} : {A : Type ℓ} → List (Str × A) → Str → Bool
is_key m k = elim (lookup m k) [ none ↦ false | some a ↦ true ]

-- `sort.Slice` by sequence. Go leaves the order of equal sequences open; here they keep theirs.
unfoldable pub insert_stop : ServiceStop → List ServiceStop → List ServiceStop
insert_stop s [] = s ∷ []
insert_stop s (t ∷ ts) =
    let later = t ∷ insert_stop s ts in if ltb_ℤ s.sequence t.sequence then s ∷ t ∷ ts else later

unfoldable pub sort_stops_onto : List ServiceStop → List ServiceStop → List ServiceStop
unfolding insert_stop
sort_stops_onto [] sorted = sorted
sort_stops_onto (s ∷ ss) sorted = sort_stops_onto ss (insert_stop s sorted)

unfoldable pub sort_stops : List ServiceStop → List ServiceStop
unfolding sort_stops_onto
sort_stops ss = sort_stops_onto ss []

-- The station is read for its platform's height alone.
unfoldable pub resolve_dwell : ServiceStop → Str → VehicleType → ℤ
resolve_dwell stop platform_height vt = elim stop.dwell_s [
  | some secs ↦ secs
  | none ↦ if platform_height == vt.floor_height then vt.dwell_level_s else vt.dwell_step_s
]

-- The maps that one compile builds from its arguments, and what it takes from elsewhere: the
-- placing of a path on its route, and the float 0.
pub record Tables (F : Type 0) : Type 0 where
  pub network : Network
  pub by_id : List (Str × Station F)
  pub by_slug : List (Str × Station F)
  pub vehicles : List (Str × VehicleType)
  pub place : List Str → Option (Str × F × F)
  pub zero_m : F

-- A search has a round for each slug on a segment path, and one more.
abbrev pub search_rounds : Network → ℕ
search_rounds n = suc (length n.on_path)

module _ {F : Type 0} where
  -- The id and the platform height of `stationsBySlug[slug]`; a missing key reads as the zero station.
  station_at : List (Str × Station F) → Str → Str × Str
  station_at by_slug slug = elim (lookup by_slug slug) [
    | none ↦ ([], [])
    | some st ↦ (st.id, st.platform_height)
  ]

  -- The body of the loop of `pathDwellSecs`.
  unfoldable pub dwell_at :
      List (Str × Station F) → List (Str × ServiceStop) → VehicleType → Str → ℤ → ℤ
  unfolding resolve_dwell station_at
  dwell_at by_slug stop_by_id vt slug secs =
      let (id, platform_height) = station_at by_slug slug in
      elim (lookup stop_by_id id) [
        | none ↦ secs
        | some stop ↦ secs +ⁱ resolve_dwell stop platform_height vt
      ]

  unfoldable pub dwell_along :
      List (Str × Station F) → List (Str × ServiceStop) → VehicleType → List Str → ℤ → ℤ
  unfolding dwell_at
  dwell_along by_slug stop_by_id vt [] secs = secs
  dwell_along by_slug stop_by_id vt (slug ∷ path) secs =
      dwell_along by_slug stop_by_id vt path (dwell_at by_slug stop_by_id vt slug secs)

  -- The sum over `path[1:]`; every path that is passed has a first slug.
  unfoldable pub path_dwell_secs :
      List (Str × Station F) → List (Str × ServiceStop) → VehicleType → List Str → ℤ
  unfolding dwell_along
  path_dwell_secs by_slug stop_by_id vt [] = pos 0
  path_dwell_secs by_slug stop_by_id vt (slug ∷ path) =
      dwell_along by_slug stop_by_id vt path (pos 0)

  -- `node.RoutingLat`, `node.RoutingLng`.
  routed : Str → GraphNode F → Option (List F) → Result CompileError (GraphNode F)
  routed slug node none = ok node
  routed slug node (some (lng ∷ lat ∷ [])) =
      ok (record node { routing_lat = some lat; routing_lng = some lng })
  routed slug node (some _) = err (unusable_routing_location slug)

  seeded_node_at : Station F → List F → Result CompileError (GraphNode F)
  unfolding routed
  seeded_node_at st (lng ∷ lat ∷ []) =
      routed st.slug
        (record {
          slug = st.slug;
          lat = lat;
          lng = lng;
          routing_lat = none;
          routing_lng = none;
          names = st.name ∷ [];
        })
        st.routing_location
  seeded_node_at st _ = err (no_usable_location st.slug)

  unfoldable pub seeded_nodes : List (Station F) → Result CompileError (List (GraphNode F))
  unfolding seeded_node_at
  seeded_nodes [] = ok []
  seeded_nodes (st ∷ sts) = do
    node ← seeded_node_at st st.location
    rest ← seeded_nodes sts
    ok (node ∷ rest)

  unfoldable pub place_edge : Edge F → Str → F → F → Edge F
  place_edge e route_id from to = record e {
    route_id = route_id;
    from_chainage_m = from;
    to_chainage_m = to;
  }

  -- `if … placed { fwd = placeEdge(…); rev = placeEdge(…) }`
  place_pair : Option (Str × F × F) → Edge F → Edge F → List (Edge F)
  unfolding place_edge
  place_pair none fwd rev = fwd ∷ rev ∷ []
  place_pair (some (route, from, to)) fwd rev =
      place_edge fwd route from to ∷ place_edge rev route to from ∷ []

  bare_edge : F → Str → Str → ℤ → ℤ → Edge F
  bare_edge z from to run dwell = record {
    from_slug = from;
    to_slug = to;
    seconds = run +ⁱ dwell;
    dwell_s = dwell;
    route_id = [];
    from_chainage_m = z;
    to_chainage_m = z;
  }

  -- The two edges of one hop over `path`.
  hop_edges :
      Tables F → List (Str × ServiceStop) → VehicleType → Str → Str → ℤ → List Str → List (Edge F)
  unfolding place_pair bare_edge
  hop_edges t stop_by_id vt from to run path =
      let rev_path = reverse_path path in
      let rev_run = path_run_seconds t.network.adj rev_path in
      let fwd_dwell = path_dwell_secs t.by_slug stop_by_id vt path in
      let rev_dwell = path_dwell_secs t.by_slug stop_by_id vt rev_path in
      place_pair (t.place path) (bare_edge t.zero_m from to run fwd_dwell)
        (bare_edge t.zero_m to from rev_run rev_dwell)

  answer_hop :
      Tables F
      → List (Str × ServiceStop)
      → VehicleType
      → Str
      → Str
      → Str
      → PathResult
      → Result CompileError (List (Edge F))
  unfolding hop_edges
  answer_hop t stop_by_id vt svc from to (path_ok run path) =
      ok (hop_edges t stop_by_id vt from to run path)
  answer_hop t stop_by_id vt svc from to (no_path a b) = err (no_segment_path svc a b)
  answer_hop t stop_by_id vt svc from to path_out_of_fuel = err out_of_rounds

  -- The loop over consecutive slugs.
  pub hops :
      Tables F
      → List (Str × ServiceStop)
      → VehicleType
      → Str
      → List Str
      → Result CompileError (List (Edge F))
  unfolding answer_hop
  hops t stop_by_id vt svc [] = ok []
  hops t stop_by_id vt svc (from ∷ []) = ok []
  hops t stop_by_id vt svc (from ∷ to ∷ slugs) = do
    pair ←
        answer_hop t stop_by_id vt svc from to
          (segment_path_seconds (search_rounds t.network) t.network.adj from to)
    rest ← hops t stop_by_id vt svc (to ∷ slugs)
    ok (pair ++ rest)

  -- The loop over the sorted stops: `stopByStationID` and the slugs.
  pub resolve_stops :
      Tables F
      → Str
      → List ServiceStop
      → List (Str × ServiceStop)
      → Result CompileError (List (Str × ServiceStop) × List Str)
  resolve_stops t svc [] stop_by_id = ok (stop_by_id, [])
  resolve_stops t svc (stop ∷ stops) stop_by_id = do
    st ← or_fail (lookup t.by_id stop.station_id) (unknown_station svc stop.station_id)
    (m, slugs) ←
        if contains t.network.on_path st.slug
        then resolve_stops t svc stops ((stop.station_id, stop) ∷ stop_by_id)
        else err (off_path svc st.slug)
    ok (m, st.slug ∷ slugs)

  -- The body of the loop over the services, for an active one.
  unfoldable pub compile_service :
      Tables F → BoardingWaitPolicy → Service → Result CompileError (ServiceGraph F)
  unfolding resolve_stops hops
  compile_service t wait svc = do
    vt ←
        or_fail (lookup t.vehicles svc.vehicle_type_id)
          (unknown_vehicle_type svc.id svc.vehicle_type_id)
    (stop_by_id, slugs) ← resolve_stops t svc.id (sort_stops svc.stops) []
    (policy, source) ← map_err (in_wait svc.id) (resolve_boarding_wait svc.boarding_wait none wait)
    sg ← map_err (in_wait svc.id) (
        apply_boarding_wait
          (record { service_id = svc.id; edges = []; wait_secs = pos 0; wait_policy = [] }) policy
          svc.frequency_windows)
    edges ← hops t stop_by_id vt svc.id slugs
    ok (record sg { edges = edges })

  unfoldable pub compile_services :
      Tables F → BoardingWaitPolicy → List Service → Result CompileError (List (ServiceGraph F))
  unfolding compile_service
  compile_services t wait [] = ok []
  compile_services t wait (svc ∷ svcs) =
      let rest = compile_services t wait svcs in
      if svc.active then (do sg ← compile_service t wait svc; sgs ← rest; ok (sg ∷ sgs)) else rest

  -- The maps that `Compile` fills before it reads the services.
  abbrev pub tables_of :
      (List Str → Option (Str × F × F))
      → F
      → List (Station F)
      → List VehicleType
      → Network
      → Tables F
  tables_of place zero_m stations vehicle_types network = record {
    network = network;
    by_id = index_by (λ (st : Station F). st.id) stations;
    by_slug = index_by (λ (st : Station F). st.slug) stations;
    vehicles = index_by (λ (vt : VehicleType). vt.id) vehicle_types;
    place = place;
    zero_m = zero_m;
  }

  -- `Compile`; `place` is the route placer, made from the routes, the stations and the segments.
  unfoldable pub compile :
      (List Str → Option (Str × F × F))
      → F
      → List (Station F)
      → List Service
      → List VehicleType
      → List SegmentTime
      → BoardingWaitPolicy
      → Result CompileError (TransitGraph F)
  unfolding compile_services
  compile place zero_m stations services vehicle_types segments wait = do
    let by_slug = index_by (λ (st : Station F). st.slug) stations
    network ← map_err in_segments (build_segment_adj (is_key by_slug) segments)
    nodes ← seeded_nodes stations
    graphs ← compile_services (tables_of place zero_m stations vehicle_types network) wait services
    ok (record { services = graphs; nodes = nodes })
