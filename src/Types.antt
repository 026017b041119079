-- ===== src/Types.antt =====
-- internal/transit/types.go and contract/transit/graph.go: the records of the domain.
-- `F` is the type of Go's `float64`, whose arithmetic is a parameter where it is used.
use sparks_effect_api.Prelude.{ℕ, List, Option, Str, ℤ, Bool}

pub record BoardingWaitOverride : Type 0 where
  pub policy : Str
  pub secs : Option ℤ

pub record BoardingWaitPolicy : Type 0 where
  pub kind : Str
  pub fixed_secs : ℤ

pub record FrequencyWindow : Type 0 where
  pub start_time : Str
  pub end_time : Str
  pub headway_s : ℤ

-- A `GeoPoint` is its coordinates, a list of any length; the type tag is not read by this code.
pub record Station (F : Type 0) : Type 0 where
  pub id : Str
  pub slug : Str
  pub name : Str
  pub location : List F
  pub routing_location : Option (List F)
  pub platform_height : Str

pub record VehicleType : Type 0 where
  pub id : Str
  pub floor_height : Str
  pub dwell_level_s : ℤ
  pub dwell_step_s : ℤ

pub record ServiceStop : Type 0 where
  pub station_id : Str
  pub sequence : ℤ
  pub dwell_s : Option ℤ

pub record Service : Type 0 where
  pub id : Str
  pub vehicle_type_id : Str
  pub active : Bool
  pub stops : List ServiceStop
  pub frequency_windows : List FrequencyWindow
  pub boarding_wait : Option BoardingWaitOverride
  pub boarding_wait_policy : Str
  pub boarding_wait_secs : ℤ
  pub boarding_wait_source : Str

pub record SegmentTime : Type 0 where
  pub from_slug : Str
  pub to_slug : Str
  pub run_seconds : ℤ
  pub reverse_run_seconds : Option ℤ
  pub route_id : Str

pub record Edge (F : Type 0) : Type 0 where
  pub from_slug : Str
  pub to_slug : Str
  pub seconds : ℤ
  pub dwell_s : ℤ
  pub route_id : Str
  pub from_chainage_m : F
  pub to_chainage_m : F

pub record ServiceGraph (F : Type 0) : Type 0 where
  pub service_id : Str
  pub edges : List (Edge F)
  pub wait_secs : ℤ
  pub wait_policy : Str

pub record GraphNode (F : Type 0) : Type 0 where
  pub slug : Str
  pub lat : F
  pub lng : F
  pub routing_lat : Option F
  pub routing_lng : Option F
  pub names : List Str

-- The merge report is left to the clustering of stops.
pub record TransitGraph (F : Type 0) : Type 0 where
  pub services : List (ServiceGraph F)
  pub nodes : List (GraphNode F)

-- Times are instants on one clock.
pub record CompileJob (F : Type 0) : Type 0 where
  pub id : Str
  pub kind : Str
  pub status : Str
  pub scenario_id : Option Str
  pub user_scenario_id : Option Str
  pub user_service_id : Option Str
  pub owner_id : Option Str
  pub error : Str
  pub result : Option (TransitGraph F)
  pub compiled_service_ids : List Str
  pub created_at : ℕ
  pub updated_at : ℕ
