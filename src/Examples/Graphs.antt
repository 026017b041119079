-- ===== src/Examples/Graphs.antt =====
-- internal/transit/compile.go on a line of three stations, A, B and C.
use sparks_effect_api.Prelude.{
  ℕ, List, [], ◌∷◌, none, some, Str, codes, true, ℤ, pos, ◌≡◌, refl, ok, length, suc, contains,
  str_eq, ◌+ⁱ◌, insert, lookup,
}
use sparks_effect_api.Types.{
  BoardingWaitPolicy, Station, VehicleType, Service, SegmentTime, TransitGraph, GraphNode, Edge,
}
use sparks_effect_api.Segments.{
  Network, build_segment_adj, segment_path_seconds, path_run_seconds, reverse_path, path_ok,
  empty_network, add_segment,
}
use sparks_effect_api.Segments.Sound.{Walk}
use sparks_effect_api.Segments.Complete.{Decides}
use sparks_effect_api.Segments.Built.{segment_path_seconds-built, reverse_path-Walk}
use sparks_effect_api.BoardingWait.{
  wait_none, kind_or_none, resolve_boarding_wait, resolve_into, apply_boarding_wait, wait_secs,
}
use sparks_effect_api.Compile.{
  compile, tables_of, is_key, index_by, sort_stops, path_dwell_secs, seeded_nodes,
}
use sparks_effect_api.Compile.Services.{AreGraphsOf, compile-AreGraphsOf}

abbrev a : Str
a = codes "a"

abbrev b : Str
b = codes "b"

abbrev c : Str
c = codes "c"

abbrev station : Str → Station ℕ
station slug = record {
  id = slug;
  slug = slug;
  name = slug;
  location = 1 ∷ 2 ∷ [];
  routing_location = none;
  platform_height = [];
}

abbrev stations : List (Station ℕ)
stations = station a ∷ station b ∷ station c ∷ []

abbrev segment : Str → Str → SegmentTime
segment from to = record {
  from_slug = from;
  to_slug = to;
  run_seconds = pos 60;
  reverse_run_seconds = some (pos 70);
  route_id = [];
}

abbrev segments : List SegmentTime
segments = segment a b ∷ segment b c ∷ []

abbrev network : Network
network = add_segment (add_segment empty_network (segment a b) (pos 70)) (segment b c) (pos 70)

abbrev express : Service
express = record {
  id = codes "x";
  vehicle_type_id = codes "v";
  active = true;
  stops =
      record { station_id = c; sequence = pos 2; dwell_s = none }
      ∷ record { station_id = a; sequence = pos 1; dwell_s = some (pos 30) }
      ∷ [];
  frequency_windows = [];
  boarding_wait = none;
  boarding_wait_policy = [];
  boarding_wait_secs = pos 0;
  boarding_wait_source = [];
}

abbrev train : VehicleType
train = record { id = codes "v"; floor_height = []; dwell_level_s = pos 40; dwell_step_s = pos 90 }

abbrev policy : BoardingWaitPolicy
policy = record { kind = wait_none; fixed_secs = pos 0 }

network_built : build_segment_adj (λ x. true) segments ≡ ok network
unfolding build_segment_adj
network_built = refl

-- A search from A to C runs over B.
search_found : segment_path_seconds 4 network.adj a c ≡ path_ok (pos 120) (a ∷ b ∷ c ∷ [])
unfolding segment_path_seconds add_segment str_eq contains ◌+ⁱ◌
search_found = refl

segment_path_seconds-built_example :
    Decides network.adj a c (segment_path_seconds (suc (length network.on_path)) network.adj a c)
segment_path_seconds-built_example =
    segment_path_seconds-built (λ x. true) segments network a c network_built

a_to_c : Walk network.adj a c (a ∷ b ∷ c ∷ [])
unfolding segment_path_seconds add_segment str_eq contains insert
a_to_c = (segment_path_seconds-built (λ x. true) segments network a c network_built).0

reverse_path-Walk_example : Walk network.adj c a (reverse_path (a ∷ b ∷ c ∷ []))
reverse_path-Walk_example =
    reverse_path-Walk (λ x. true) segments network a c (a ∷ b ∷ c ∷ []) network_built a_to_c

abbrev node : Str → GraphNode ℕ
node slug = record {
  slug = slug;
  lat = 2;
  lng = 1;
  routing_lat = none;
  routing_lng = none;
  names = slug ∷ [];
}

abbrev graph : TransitGraph ℕ
graph = record {
  services =
      record {
        service_id = codes "x";
        edges = edge a c (pos 160) (pos 40) ∷ edge c a (pos 170) (pos 30) ∷ [];
        wait_secs = pos 0;
        wait_policy = wait_none;
      }
      ∷ [];
  nodes = node a ∷ node b ∷ node c ∷ [];
}
  where
    edge : Str → Str → ℤ → ℤ → Edge ℕ
    edge from to seconds dwell = record {
      from_slug = from;
      to_slug = to;
      seconds = seconds;
      dwell_s = dwell;
      route_id = [];
      from_chainage_m = 0;
      to_chainage_m = 0;
    }

compiled : compile (λ path. none) 0 stations (express ∷ []) (train ∷ []) segments policy ≡ ok graph
unfolding compile build_segment_adj lookup str_eq seeded_nodes sort_stops contains insert
    resolve_boarding_wait apply_boarding_wait resolve_into wait_secs segment_path_seconds ◌+ⁱ◌
    path_dwell_secs kind_or_none path_run_seconds reverse_path
compiled = refl

compile-AreGraphsOf_example :
    (n : Network) × (build_segment_adj
        (is_key (index_by (λ (st : Station ℕ). st.slug) stations))
        segments
      ≡ ok n)
    × AreGraphsOf (tables_of (λ path. none) 0 stations (train ∷ []) n) (express ∷ []) graph.services
compile-AreGraphsOf_example =
    compile-AreGraphsOf (λ path. none) 0 stations (express ∷ []) (train ∷ []) segments policy graph
      compiled
