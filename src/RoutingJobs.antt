-- ===== src/RoutingJobs.antt =====
-- internal/persistence/postgres/postgres.go and worker.go: the table of routing jobs, what a worker
-- writes to it and which finished job answers a repeated request.
pub mod Finished
pub mod Reuse
use sparks_effect_api.Prelude.{
  ℕ, suc, List, [], ◌∷◌, Option, none, some, Str, Bool, true, false, not, ◌&&◌, ◌||◌, ltb, nat_eq,
  ◌==◌, nat_Eq, str_Eq, if◌then◌else◌, Result, ok, err,
}
use sparks_effect_api.JobRunner.{queued, running, succeeded, failed}

-- A time of 0 is Go's zero time.
pub record RoutingJob (F : Type 0) : Type 0 where
  pub id : Str
  pub status : Str
  pub compile_job_id : Str
  pub owner_id : Option Str
  pub lat : F
  pub lng : F
  pub budget_mins : ℕ
  pub mode : Str
  pub result : Option Str
  pub error : Str
  pub created_at : ℕ
  pub updated_at : ℕ
  pub tileset_at : Option ℕ
  pub reusable_until : Option ℕ

-- `JobSucceededBody`
pub record JobSucceeded : Type 0 where
  pub result : Str
  pub tileset_at : ℕ
  pub reusable_until : ℕ

pub data RoutingError : Type 0 where
  job_not_found : Str → RoutingError

unfoldable pub null_time : ℕ → Option ℕ
null_time t = if t == 0 then none else some t

unfoldable pub is_finished : Str → Bool
is_finished status = status == succeeded || status == failed

-- `status = ANY('{queued,running}')`
is_in_flight : Str → Bool
is_in_flight status = status == queued || status == running

-- `owner_id IS NOT DISTINCT FROM`
unfoldable pub same_owner : Option Str → Option Str → Bool
same_owner none none = true
same_owner none (some b) = false
same_owner (some a) none = false
same_owner (some a) (some b) = a == b

-- `max(tileset_at)`, which passes over NULL.
unfoldable pub later : Option ℕ → Option ℕ → Option ℕ
later none b = b
later (some a) none = some a
later (some a) (some b) = if ltb a b then some b else some a

-- `tileset_at = (SELECT …)`, which NULL on either side makes untrue.
unfoldable pub same_time : Option ℕ → Option ℕ → Bool
same_time none b = false
same_time (some a) none = false
same_time (some a) (some b) = nat_eq a b

unfoldable pub still_reusable : ℕ → Option ℕ → Bool
still_reusable now none = true
still_reusable now (some until) = ltb now until

-- `$3::timestamptz IS NULL OR created_at < $3`
is_before : Option ℕ → ℕ → Bool
is_before none t = true
is_before (some limit) t = ltb t limit

module _ {F : Type 0} where
  unfoldable pub reaches : (RoutingJob F → Bool) → Str → List (RoutingJob F) → Bool
  reaches p id [] = false
  reaches p id (j ∷ js) = (j.id == id && p j) || reaches p id js

  unfoldable pub update_routing :
      (RoutingJob F → Bool)
      → (RoutingJob F → RoutingJob F)
      → Str
      → List (RoutingJob F)
      → List (RoutingJob F)
  update_routing p f id [] = []
  update_routing p f id (j ∷ js) = (if j.id == id && p j then f j else j) ∷ update_routing p f id js

  -- `execRoutingJob`
  unfoldable pub exec_routing_job :
      (RoutingJob F → Bool)
      → (RoutingJob F → RoutingJob F)
      → Str
      → List (RoutingJob F)
      → Result RoutingError (List (RoutingJob F))
  unfolding reaches update_routing
  exec_routing_job p f id jobs =
      if reaches p id jobs then ok (update_routing p f id jobs) else err (job_not_found id)

  unfoldable pub mark_routing_job_running :
      ℕ → Str → List (RoutingJob F) → Result RoutingError (List (RoutingJob F))
  unfolding exec_routing_job is_finished
  mark_routing_job_running now id jobs =
      exec_routing_job (λ j. not (is_finished j.status))
        (λ j. record j { status = running; updated_at = now }) id jobs

  unfoldable pub succeed_routing_job :
      ℕ → JobSucceeded → Str → List (RoutingJob F) → Result RoutingError (List (RoutingJob F))
  unfolding exec_routing_job null_time
  succeed_routing_job now done id jobs =
      exec_routing_job (λ j. true)
        (λ j. record j {
          status = succeeded;
          result = some done.result;
          error = [];
          updated_at = now;
          tileset_at = null_time done.tileset_at;
          reusable_until = null_time done.reusable_until;
        })
        id jobs

  unfoldable pub fail_routing_job :
      ℕ → Str → Str → List (RoutingJob F) → Result RoutingError (List (RoutingJob F))
  unfolding exec_routing_job
  fail_routing_job now message id jobs =
      exec_routing_job (λ j. true)
        (λ j. record j { status = failed; error = message; updated_at = now }) id jobs

  unfoldable pub latest_tileset : List (RoutingJob F) → Option ℕ
  unfolding later
  latest_tileset [] = none
  latest_tileset (j ∷ js) =
      let rest = latest_tileset js in
      if j.status == succeeded then later j.tileset_at rest else rest

  -- The WHERE clause of `findReusableRoutingJobSQL`; `round` is `round(…::numeric, 5)`.
  unfoldable pub is_reusable : (F → ℕ) → ℕ → Option ℕ → RoutingJob F → RoutingJob F → Bool
  unfolding same_owner same_time still_reusable
  is_reusable round now latest want j =
      j.status == succeeded
      && j.compile_job_id == want.compile_job_id
      && j.mode == want.mode
      && j.budget_mins == want.budget_mins
      && round j.lat == round want.lat
      && round j.lng == round want.lng
      && same_owner j.owner_id want.owner_id
      && still_reusable now j.reusable_until
      && same_time j.tileset_at latest

  -- `ORDER BY updated_at DESC LIMIT 1`
  unfoldable pub newer : RoutingJob F → Option (RoutingJob F) → RoutingJob F
  newer j none = j
  newer j (some k) = if ltb j.updated_at k.updated_at then k else j

  unfoldable pub select_latest : (RoutingJob F → Bool) → List (RoutingJob F) → Option (RoutingJob F)
  unfolding newer
  select_latest p [] = none
  select_latest p (j ∷ js) =
      let rest = select_latest p js in if p j then some (newer j rest) else rest

  unfoldable pub find_reusable_routing_job :
      (F → ℕ) → ℕ → RoutingJob F → List (RoutingJob F) → Option (RoutingJob F)
  unfolding latest_tileset is_reusable select_latest
  find_reusable_routing_job round now want jobs =
      select_latest (is_reusable round now (latest_tileset jobs) want) jobs

  -- `countInFlightRoutingJobs`; `since` is `now - within`.
  unfoldable pub count_in_flight : ℕ → Option ℕ → List (RoutingJob F) → ℕ
  unfolding is_in_flight is_before
  count_in_flight since before [] = 0
  count_in_flight since before (j ∷ js) =
      let rest = count_in_flight since before js in
      if is_in_flight j.status && ltb since j.created_at && is_before before j.created_at
      then suc rest
      else rest
