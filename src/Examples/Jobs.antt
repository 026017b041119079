-- ===== src/Examples/Jobs.antt =====
-- One compile job, a runner with one compile, and two routing jobs.
use sparks_effect_api.Prelude.{
  ℕ, List, [], ◌∷◌, none, some, Str, codes, Bool, false, ◌≡◌, refl, ok, err, In, ◌≢◌, insert,
  contains, true, str_eq,
}
use sparks_effect_api.Types.{CompileJob, TransitGraph}
use sparks_effect_api.JobRunner.{
  fail_interrupted_jobs, Targets, Write, compile_target, run, queued, succeeded,
  compile_user_service, running, Runner, new_runner, enqueue, finish, delete, start_drain,
  drain_answer,
}
use sparks_effect_api.JobRunner.Outcome.{Reports, run-Reports}
use sparks_effect_api.JobRunner.Sweep.{IsSwept, fail_interrupted_jobs-IsSwept}
use sparks_effect_api.JobRunner.Drain.{starts, enqueues, drains, Reported, drain_answer-Runs}
use sparks_effect_api.RoutingJobs.{RoutingJob, find_reusable_routing_job, mark_routing_job_running}
use sparks_effect_api.RoutingJobs.Finished.{marks_running, StayFinished, Writes-StayFinished}
use sparks_effect_api.RoutingJobs.Reuse.{Answers, find_reusable_routing_job-Answers}

abbrev graph : TransitGraph ℕ
graph = record { services = []; nodes = [] }

abbrev targets : Targets ℕ
targets = record {
  quote = λ s. s;
  scenario = λ id. err (codes "not found");
  user_scenario = λ id. err (codes "not found");
  user_service = λ id. ok graph;
}

abbrev job : CompileJob ℕ
job = record {
  id = codes "j";
  kind = compile_user_service;
  status = queued;
  scenario_id = none;
  user_scenario_id = none;
  user_service_id = some (codes "s");
  owner_id = none;
  error = [];
  result = none;
  compiled_service_ids = [];
  created_at = 1;
  updated_at = 1;
}

abbrev up : Write → Bool
up w = false

-- The job of a service that compiles has succeeded after its run.
run_succeeds : (run targets up 3 job (job ∷ [])).0 ≡ succeeded
unfolding run str_eq
run_succeeds = refl

run-Reports_example :
    Reports up
      (compile_target targets job)
      3
      (codes "j")
      (job ∷ [])
      (run targets up 3 job (job ∷ []))
run-Reports_example = run-Reports targets up 3 job (job ∷ [])

abbrev runner : Runner
runner = start_drain (enqueue (codes "j") new_runner)

-- A compile that has left the set is not reported, and the drain still waits for it.
left_unreported :
    (drain_answer true (finish (codes "j") runner) ≡ some [])
    × (drain_answer false (finish (codes "j") runner) ≡ none)
unfolding drain_answer finish enqueue insert delete str_eq contains
left_unreported = (refl, refl)

drain_answer-Runs_example : Reported true runner (drain_answer true runner)
drain_answer-Runs_example =
    drain_answer-Runs runner true (drains (enqueues (codes "j") starts (λ m. m)))

abbrev routing : Str → Str → RoutingJob ℕ
routing id status = record {
  id = id;
  status = status;
  compile_job_id = codes "j";
  owner_id = none;
  lat = 1;
  lng = 2;
  budget_mins = 30;
  mode = codes "bike";
  result = none;
  error = [];
  created_at = 1;
  updated_at = 1;
  tileset_at = some 4;
  reusable_until = none;
}

abbrev routings : List (RoutingJob ℕ)
routings = routing (codes "p") succeeded ∷ routing (codes "q") queued ∷ []

reuse_finds :
    find_reusable_routing_job (λ n. n) 9 (routing (codes "n") queued) routings
    ≡ some (routing (codes "p") succeeded)
unfolding find_reusable_routing_job str_eq
reuse_finds = refl

find_reusable_routing_job-Answers_example :
    Answers (λ n. n) 9 routings (routing (codes "n") queued) (routing (codes "p") succeeded)
find_reusable_routing_job-Answers_example =
    find_reusable_routing_job-Answers (λ n. n) 9 (routing (codes "n") queued) routings
      (routing (codes "p") succeeded) reuse_finds

abbrev marked : List (RoutingJob ℕ)
marked =
    routing (codes "p") succeeded
    ∷ record (routing (codes "q") queued) { status = codes "running"; updated_at = 9 }
    ∷ []

mark_passes : mark_routing_job_running 9 (codes "q") routings ≡ ok marked
unfolding mark_routing_job_running str_eq
mark_passes = refl

Writes-StayFinished_example : StayFinished routings marked
Writes-StayFinished_example = Writes-StayFinished (marks_running 9 (codes "q") mark_passes)

fail_interrupted_jobs-IsSwept_example :
    IsSwept 3
      (job ∷ [])
      (fail_interrupted_jobs 3 (job ∷ [])).0
      (fail_interrupted_jobs 3 (job ∷ [])).1
    × ((k : CompileJob ℕ)
        → In k (fail_interrupted_jobs 3 (job ∷ [])).1
        → (k.status ≢ queued) × (k.status ≢ running))
    × (fail_interrupted_jobs 4 (fail_interrupted_jobs 3 (job ∷ [])).1
        ≡ (0, (fail_interrupted_jobs 3 (job ∷ [])).1))
fail_interrupted_jobs-IsSwept_example = fail_interrupted_jobs-IsSwept 3 4 (job ∷ [])
