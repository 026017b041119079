-- ===== src/JobRunner.antt =====
-- internal/compile/compile.go and internal/compile/runner.go: running one compile job against the
-- table of jobs, and the set of compiles in flight.
pub mod Written
pub mod Outcome
pub mod Drain
pub mod Sweep
use sparks_effect_api.Prelude.{
  ℕ, suc, ◌+◌, ◌-◌, nat_Eq, List, [], ◌∷◌, ◌++◌, Option, none, some, Str, codes, Bool, true, false,
  ◌||◌, ◌==◌, str_Eq, if◌then◌else◌, Result, ok, err, insert, map,
}
use sparks_effect_api.Types.{CompileJob, TransitGraph, ServiceGraph}

-- The statuses and the kinds of internal/transit/types.go.
abbrev pub queued : Str
queued = codes "queued"

abbrev pub running : Str
running = codes "running"

abbrev pub succeeded : Str
succeeded = codes "succeeded"

abbrev pub failed : Str
failed = codes "failed"

abbrev pub outcome_error : Str
outcome_error = codes "error"

abbrev pub compile_scenario : Str
compile_scenario = codes "compile_scenario"

abbrev pub compile_user_scenario : Str
compile_user_scenario = codes "compile_user_scenario"

abbrev pub compile_user_service : Str
compile_user_service = codes "compile_user_service"

module _ {F : Type 0} where
  -- Whether an update reached the job's row.
  unfoldable pub has_job : Str → List (CompileJob F) → Bool
  has_job id [] = false
  has_job id (j ∷ js) = j.id == id || has_job id js

  unfoldable pub update_job :
      (CompileJob F → CompileJob F) → Str → List (CompileJob F) → List (CompileJob F)
  update_job f id [] = []
  update_job f id (j ∷ js) = (if j.id == id then f j else j) ∷ update_job f id js

  unfoldable pub find_job : Str → List (CompileJob F) → Option (CompileJob F)
  find_job id [] = none
  find_job id (j ∷ js) = let rest = find_job id js in if j.id == id then some j else rest

  -- `CompiledServiceIDs`
  unfoldable pub compiled_service_ids : TransitGraph F → List Str
  compiled_service_ids g = map (λ (sg : ServiceGraph F). sg.service_id) g.services

pub data StoreError : Type 0 where
  job_not_found : Str → StoreError
  unavailable : StoreError

no_target : Str → Str → Str
no_target kind column = codes "compile: " ++ kind ++ codes " job has no " ++ column

-- What the compile of a target answers, by the target's kind and id; an error is its
-- text. `quote` is the `%q` of the package fmt.
pub record Targets (F : Type 0) : Type 0 where
  pub quote : Str → Str
  pub scenario : Str → Result Str (TransitGraph F)
  pub user_scenario : Str → Result Str (TransitGraph F)
  pub user_service : Str → Result Str (TransitGraph F)

-- The three writes of one run; any of them can find the database unavailable.
pub data Write : Type 0 where
  mark_running : Write
  record_failure : Write
  record_result : Write

module _ {F : Type 0} where
  -- An update by id that fails when it reaches no row.
  unfoldable pub write_job :
      Bool
      → (CompileJob F → CompileJob F)
      → Str
      → List (CompileJob F)
      → Result StoreError (List (CompileJob F))
  unfolding has_job update_job
  write_job down f id jobs =
      if down
      then err unavailable
      else if has_job id jobs
      then ok (update_job f id jobs)
      else err (job_not_found id)

  -- `UpdateJobStatus` and `CompleteJob`, on the row.
  abbrev pub with_status : ℕ → Str → Str → CompileJob F → CompileJob F
  with_status now status error j = record j { status = status; error = error; updated_at = now }

  abbrev pub with_result : ℕ → TransitGraph F → CompileJob F → CompileJob F
  with_result now g j = record j {
    status = succeeded;
    error = [];
    result = some g;
    compiled_service_ids = compiled_service_ids g;
    updated_at = now;
  }

  -- `compile`: the target is compiled by the job's kind.
  unfoldable pub compile_target : Targets F → CompileJob F → Result Str (TransitGraph F)
  unfolding no_target
  compile_target targets job =
      if job.kind == compile_scenario
      then elim job.scenario_id [
        | none ↦ err (no_target job.kind (codes "scenario_id"))
        | some id ↦ targets.scenario id
      ]
      else if job.kind == compile_user_scenario
      then elim job.user_scenario_id [
        | none ↦ err (no_target job.kind (codes "user_scenario_id"))
        | some id ↦ targets.user_scenario id
      ]
      else if job.kind == compile_user_service
      then elim job.user_service_id [
        | none ↦ err (no_target job.kind (codes "user_service_id"))
        | some id ↦ targets.user_service id
      ]
      else err (codes "compile: unknown job kind " ++ targets.quote job.kind)

  -- What `run` does once the target has been compiled.
  unfoldable pub record_outcome :
      (Write → Bool)
      → ℕ
      → Str
      → List (CompileJob F)
      → Result Str (TransitGraph F)
      → Str × Option StoreError × List (CompileJob F)
  unfolding write_job
  record_outcome down now id jobs (err message) =
      elim (write_job (down record_failure) (with_status now failed message) id jobs) [
        | err e ↦ (outcome_error, some e, jobs)
        | ok jobs' ↦ (failed, none, jobs')
      ]
  record_outcome down now id jobs (ok graph) =
      elim (write_job (down record_result) (with_result now graph) id jobs) [
        | err e ↦ (outcome_error, some e, jobs)
        | ok jobs' ↦ (succeeded, none, jobs')
      ]

  -- `run`: the outcome, the error, and the rows of the jobs.
  unfoldable pub run :
      Targets F
      → (Write → Bool)
      → ℕ
      → CompileJob F
      → List (CompileJob F)
      → Str × Option StoreError × List (CompileJob F)
  unfolding record_outcome compile_target
  run targets down now job jobs =
      elim (write_job (down mark_running) (with_status now running []) job.id jobs) [
        | err e ↦ (outcome_error, some e, jobs)
        | ok jobs' ↦ record_outcome down now job.id jobs' (compile_target targets job)
      ]

-- `status = ANY($3)` of `FailInterruptedJobs`.
unfoldable pub is_unfinished : Str → Bool
is_unfinished status = status == queued || status == running

abbrev pub interrupted_by_restart : Str
interrupted_by_restart = codes "interrupted by restart"

module _ {F : Type 0} where
  -- `FailInterruptedJobs`: the rows affected, and the rows.
  unfoldable pub fail_interrupted_jobs : ℕ → List (CompileJob F) → ℕ × List (CompileJob F)
  unfolding is_unfinished
  fail_interrupted_jobs now [] = (0, [])
  fail_interrupted_jobs now (j ∷ js) =
      let rest = fail_interrupted_jobs now js in
      if is_unfinished j.status
      then (suc rest.0, with_status now failed interrupted_by_restart j ∷ rest.1)
      else (rest.0, j ∷ rest.1)

-- `Runner`, with its goroutines: `compiling` holds the id of each that has not left `inFlight` yet,
-- and `leaving` of each that has, and has not told the wait group.
pub record Runner : Type 0 where
  pub draining : Bool
  pub in_flight : List Str
  pub wait_group : ℕ
  pub compiling : List Str
  pub leaving : List Str

abbrev pub new_runner : Runner
new_runner = record {
  draining = false;
  in_flight = [];
  wait_group = 0;
  compiling = [];
  leaving = [];
}

-- `Enqueue`, up to the start of the goroutine.
unfoldable pub enqueue : Str → Runner → Runner
enqueue id r = if r.draining then r else record r {
  in_flight = insert id r.in_flight;
  wait_group = r.wait_group + 1;
  compiling = id ∷ r.compiling;
}

-- `delete(r.inFlight, id)`
unfoldable pub delete : Str → List Str → List Str
delete id [] = []
delete id (k ∷ ks) = let rest = delete id ks in if k == id then rest else k ∷ rest

-- One goroutine of the job leaves.
unfoldable pub leave : Str → List Str → List Str
leave id [] = []
leave id (k ∷ ks) = let rest = leave id ks in if k == id then ks else k ∷ rest

-- The deferred end of the goroutine: the part under the lock, and then `wg.Done`.
unfoldable pub finish : Str → Runner → Runner
unfolding delete leave
finish id r = record r {
  in_flight = delete id r.in_flight;
  compiling = leave id r.compiling;
  leaving = id ∷ r.leaving;
}

unfoldable pub done : Str → Runner → Runner
unfolding leave
done id r = record r { wait_group = r.wait_group - 1; leaving = leave id r.leaving }

-- `Drain`: its first lines, and its answer, if it does not wait: by the wait group, or once the
-- context has expired.
abbrev pub start_drain : Runner → Runner
start_drain r = record r { draining = true }

unfoldable pub drain_answer : Bool → Runner → Option (List Str)
drain_answer expired r =
    if expired then some r.in_flight else if r.wait_group == 0 then some [] else none
