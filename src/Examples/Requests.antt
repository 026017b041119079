-- ===== src/Examples/Requests.antt =====
-- One isochrone request that is published, and one stale job that is polled.
use sparks_effect_api.Prelude.{
  ℕ, ◌+◌, ◌≤◌, [], ◌∷◌, none, some, codes, true, false, ◌≡◌, refl, ◌⊎◌, err, str_eq, has_row,
}
use sparks_effect_api.JobRunner.{queued}
use sparks_effect_api.RoutingJobs.{
  RoutingJob, RoutingError, fail_routing_job, find_reusable_routing_job,
}
use sparks_effect_api.RoutingApi.{
  Outside, Routing, accepted, created, enqueue_isochrone, is_waiting, fail_if_stale, stale_after,
  stale_message,
}
use sparks_effect_api.RoutingApi.Answered.{fail_if_stale-is_waiting}

abbrev job : RoutingJob ℕ
job = record {
  id = codes "n";
  status = queued;
  compile_job_id = codes "j";
  owner_id = none;
  lat = 1;
  lng = 2;
  budget_mins = 30;
  mode = codes "bike";
  result = none;
  error = [];
  created_at = 5;
  updated_at = 5;
  tileset_at = none;
  reusable_until = none;
}

abbrev outside : Outside
outside = record {
  lookup_down = false;
  id = some (codes "n");
  create_down = false;
  publish_down = false;
  fail_down = false;
}

abbrev empty : Routing ℕ
empty = record { jobs = []; published = [] }

-- A request that finds no earlier answer is accepted.
request_accepted :
    (enqueue_isochrone (λ n. n) outside 5 [] true job empty).0
    ≡ accepted (created 5 (codes "n") job)
unfolding enqueue_isochrone find_reusable_routing_job has_row
request_accepted = refl

still_waiting : is_waiting (fail_if_stale false 40 job (job ∷ [])).0 ≡ true
unfolding is_waiting str_eq fail_if_stale
still_waiting = refl

fail_if_stale-is_waiting_example :
    (40 ≤ 5 + stale_after)
    ⊎ (false ≡ true)
    ⊎ ((e : RoutingError) × (fail_routing_job 40 stale_message (codes "n") (job ∷ []) ≡ err e))
fail_if_stale-is_waiting_example = fail_if_stale-is_waiting false 40 job (job ∷ []) still_waiting
