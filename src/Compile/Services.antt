-- ===== src/Compile/Services.antt =====
-- The graph that `Compile` returns, service by service.
use sparks_effect_api.Prelude.{
  List, [], ◌∷◌, Option, none, some, Str, true, false, pos, ◌≡◌, refl, sym, subst, ap, inl, inr, ok,
  >>=-eq-ok, or_fail-eq-ok, map_err-eq-ok, err-eq-ok, contains, str_Eq, lookup, or_fail, map_err,
  Bool-cases,
}
use sparks_effect_api.Types.{
  BoardingWaitPolicy, Station, VehicleType, ServiceStop, Service, SegmentTime, ServiceGraph,
  TransitGraph, FrequencyWindow,
}
use sparks_effect_api.BoardingWait.{resolve_boarding_wait, apply_boarding_wait, resolve_into}
use sparks_effect_api.Segments.{Network, build_segment_adj}
use sparks_effect_api.Segments.Built.{IsNetwork, build_segment_adj-IsNetwork}
use sparks_effect_api.Compile.{
  unknown_station, off_path, in_wait, in_segments, Tables, hops, resolve_stops, sort_stops,
  compile_service, compile_services, compile, index_by, is_key, seeded_nodes, tables_of,
}
use sparks_effect_api.Compile.Edges.{AreHops, HopsResult, hops-HopsResult}

module _ {F : Type 0} where
  -- The slugs are those of the stops' stations, each on some segment path.
  abbrev pub AreSlugsOf : Tables F → List ServiceStop → List Str → Type 0
  AreSlugsOf t [] [] = Unit
  AreSlugsOf t (stop ∷ stops) (slug ∷ slugs) =
      ((st : Station F) × (lookup t.by_id stop.station_id ≡ some st)
        × (slug ≡ st.slug)
        × (contains t.network.on_path slug ≡ true))
      × AreSlugsOf t stops slugs
  AreSlugsOf t _ _ = ⊥

  resolve_stops-AreSlugsOf :
      (t : Tables F) (svc : Str) (stops : List ServiceStop) (m m' : List (Str × ServiceStop))
      (slugs : List Str)
      → resolve_stops t svc stops m ≡ ok (m', slugs)
      → AreSlugsOf t stops slugs
  unfolding resolve_stops
  resolve_stops-AreSlugsOf t svc [] m m' slugs h =
      let e : [] ≡ slugs = cc in subst (AreSlugsOf t []) e tt
  resolve_stops-AreSlugsOf t svc (stop ∷ stops) m m' slugs h =
      let (st, at, h') =
        >>=-eq-ok (or_fail (lookup t.by_id stop.station_id) (unknown_station svc stop.station_id)) _
          h in
      elim (Bool-cases (contains t.network.on_path st.slug)) [
        | inl on ↦
            let ((m1, slugs1), r, h'') =
              >>=-eq-ok (resolve_stops t svc stops ((stop.station_id, stop) ∷ m)) _ (rw on at h') in
            let e : st.slug ∷ slugs1 ≡ slugs = cc in
            subst (AreSlugsOf t (stop ∷ stops)) e (
              (st, or_fail-eq-ok (lookup t.by_id stop.station_id) _ at, refl, on),
              resolve_stops-AreSlugsOf t svc stops ((stop.station_id, stop) ∷ m) m1 slugs1 r,
            )
        | inr off ↦ err-eq-ok (off_path svc st.slug) (m', slugs) (rw off at h')
      ]

  -- The graph of one service: its id, and the edges of a run over its stops in sequence order.
  abbrev pub IsGraphOf : Tables F → Service → ServiceGraph F → Type 0
  IsGraphOf t svc sg =
      (sg.service_id ≡ svc.id)
      × ((slugs : List Str) × AreSlugsOf t (sort_stops svc.stops) slugs
          × AreHops t.network.adj slugs sg.edges)

  apply_boarding_wait-service_id :
      (sg sg' : ServiceGraph F) (p : BoardingWaitPolicy) (ws : List FrequencyWindow)
      → apply_boarding_wait sg p ws ≡ ok sg'
      → sg'.service_id ≡ sg.service_id
  unfolding apply_boarding_wait
  apply_boarding_wait-service_id sg sg' p ws h =
      let ((kind, secs), _, h1) = >>=-eq-ok (resolve_into p ws) _ h in
      let e : record sg { wait_policy = kind; wait_secs = secs } ≡ sg' = cc in
      ap (λ (g : ServiceGraph F). g.service_id) (sym e)

  compile_service-IsGraphOf :
      (t : Tables F) (wait : BoardingWaitPolicy) (svc : Service) (sg : ServiceGraph F)
      → IsNetwork t.network
      → compile_service t wait svc ≡ ok sg
      → IsGraphOf t svc sg
  unfolding compile_service
  compile_service-IsGraphOf t wait svc sg i h =
      let (vt, _, h1) = >>=-eq-ok (or_fail (lookup t.vehicles svc.vehicle_type_id) _) _ h in
      let ((m, slugs), stops, h2) =
        >>=-eq-ok (resolve_stops t svc.id (sort_stops svc.stops) []) _ h1 in
      let ((policy, _), _, h3) =
        >>=-eq-ok (map_err (in_wait svc.id) (resolve_boarding_wait svc.boarding_wait none wait)) _
          h2 in
      let (sg1, waited, h4) =
        >>=-eq-ok
          (map_err (in_wait svc.id)
            (apply_boarding_wait (new_graph svc) policy svc.frequency_windows))
          _ h3 in
      let (edges, ran, h5) = >>=-eq-ok (hops t m vt svc.id slugs) _ h4 in
      let made : record sg1 { edges = edges } ≡ sg = cc in
      let id : sg1.service_id ≡ svc.id =
        apply_boarding_wait-service_id (new_graph svc) sg1 policy svc.frequency_windows
          (map_err-eq-ok (in_wait svc.id) _ waited) in
      let stops_of = resolve_stops-AreSlugsOf t svc.id (sort_stops svc.stops) [] m slugs stops in
      let hops_of : AreHops t.network.adj slugs edges =
        subst (HopsResult t.network.adj slugs) ran (hops-HopsResult t m vt svc.id slugs i) in
      subst (IsGraphOf t svc) made (id, (slugs, stops_of, hops_of))
    where
      new_graph : Service → ServiceGraph F
      new_graph s = record { service_id = s.id; edges = []; wait_secs = pos 0; wait_policy = [] }

  -- The graphs of the active services, in their order.
  pub data AreGraphsOf (t : Tables F) : List Service → List (ServiceGraph F) → Type 0 where
    no_services : AreGraphsOf t [] []
    skipped :
        {svc : Service} {svcs : List Service} {sgs : List (ServiceGraph F)}
        → svc.active ≡ false
        → AreGraphsOf t svcs sgs
        → AreGraphsOf t (svc ∷ svcs) sgs
    compiled :
        {svc : Service} {svcs : List Service} {sg : ServiceGraph F} {sgs : List (ServiceGraph F)}
        → svc.active ≡ true
        → IsGraphOf t svc sg
        → AreGraphsOf t svcs sgs
        → AreGraphsOf t (svc ∷ svcs) (sg ∷ sgs)

  compile_services-AreGraphsOf :
      (t : Tables F) (wait : BoardingWaitPolicy) (svcs : List Service) (sgs : List (ServiceGraph F))
      → IsNetwork t.network
      → compile_services t wait svcs ≡ ok sgs
      → AreGraphsOf t svcs sgs
  unfolding compile_services
  compile_services-AreGraphsOf t wait [] sgs i h =
      let e : [] ≡ sgs = cc in subst (AreGraphsOf t []) e no_services
  compile_services-AreGraphsOf t wait (svc ∷ svcs) sgs i h = elim (Bool-cases svc.active) [
    | inr off ↦
        skipped off
          (compile_services-AreGraphsOf t wait svcs sgs i (rw (off, compile_services) at h))
    | inl on ↦
        let (sg, one, h1) =
          >>=-eq-ok (compile_service t wait svc) _ (rw (on, compile_services) at h) in
        let (rest, others, h2) = >>=-eq-ok (compile_services t wait svcs) _ h1 in
        let e : sg ∷ rest ≡ sgs = cc in
        subst (AreGraphsOf t (svc ∷ svcs)) e (
          compiled on (compile_service-IsGraphOf t wait svc sg i one)
            (compile_services-AreGraphsOf t wait svcs rest i others))
  ]

  -- A compile that succeeds has built the network of the segments, and its graph has, for each
  -- active service in order, that service's id and the edges of a run over its stops in sequence
  -- order: for each pair of consecutive stops an edge each way, along a walk of segments and its
  -- reverse, whose seconds are the run of that walk and the dwell.
  pub compile-AreGraphsOf :
      (place : List Str → Option (Str × F × F)) (zero_m : F) (stations : List (Station F))
      (services : List Service) (vehicle_types : List VehicleType) (segments : List SegmentTime)
      (wait : BoardingWaitPolicy) (graph : TransitGraph F)
      → compile place zero_m stations services vehicle_types segments wait ≡ ok graph
      → (n : Network) × (build_segment_adj
            (is_key (index_by (λ (st : Station F). st.slug) stations))
            segments
          ≡ ok n)
        × AreGraphsOf (tables_of place zero_m stations vehicle_types n) services graph.services
  unfolding compile
  compile-AreGraphsOf place zero_m stations services vehicle_types segments wait graph h =
      let (n, built, h1) =
        >>=-eq-ok
          (map_err in_segments
            (build_segment_adj (is_key (index_by (λ (st : Station F). st.slug) stations)) segments))
          _ h in
      let (nodes, _, h2) = >>=-eq-ok (seeded_nodes stations) _ h1 in
      let (sgs, ran, h3) =
        >>=-eq-ok (compile_services (tables_of place zero_m stations vehicle_types n) wait services)
          _ h2 in
      let e : record { services = sgs; nodes = nodes } ≡ graph = cc in
      let network = map_err-eq-ok in_segments _ built in
      (
        n,
        network,
        subst
            (λ (g : TransitGraph F).
              AreGraphsOf (tables_of place zero_m stations vehicle_types n) services g.services)
            e
            (compile_services-AreGraphsOf (tables_of place zero_m stations vehicle_types n) wait
              services sgs (build_segment_adj-IsNetwork _ segments n network) ran),
      )
