-- ===== src/RoutingApi.antt =====
-- internal/handler/routingjob.go and isochronebacklog.go: enqueueing an isochrone request, the cap on
-- the backlog, and polling a job.
pub mod Answered
use sparks_effect_api.Prelude.{
  ℕ, ◌+◌, List, [], ◌∷◌, ◌++◌, ℤ, pos, ltb_ℤ, leb_ℤ, Option, none, some, Str, codes, Bool, true,
  not, ◌||◌, leb, ◌==◌, str_Eq, if◌then◌else◌, ok, err, has_row,
}
use sparks_effect_api.JobRunner.{queued, running, failed}
use sparks_effect_api.RoutingJobs.{
  RoutingJob, fail_routing_job, find_reusable_routing_job, count_in_flight,
}

-- Which of the calls to the outside fail; `id` is what `ids.NewUUID` returns.
pub record Outside : Type 0 where
  pub lookup_down : Bool
  pub id : Option Str
  pub create_down : Bool
  pub publish_down : Bool
  pub fail_down : Bool

-- The response, by its status.
pub data Answer (F : Type 0) : Type 0 where
  out_of_range : Answer F
  reused : RoutingJob F → Answer F
  accepted : RoutingJob F → Answer F
  bad_gateway : Answer F
  internal_error : Answer F

-- The rows, and the ids of the jobs that were published.
pub record Routing (F : Type 0) : Type 0 where
  pub jobs : List (RoutingJob F)
  pub published : List Str

abbrev pub stale_after : ℕ
stale_after = 90

abbrev pub stale_message : Str
stale_message =
    codes "The routing service isn't responding right now. Please try again in a few minutes."

-- `failUnpublishedJob`'s message, of the error's text.
abbrev pub unpublished : Str → Str
unpublished cause = codes "the isochrone was never enqueued: " ++ cause

module _ {F : Type 0} where
  -- `CreateRoutingJob`: the row, with the times of the database.
  unfoldable pub created : ℕ → Str → RoutingJob F → RoutingJob F
  created now id job = record job {
    id = id;
    status = queued;
    result = none;
    error = [];
    created_at = now;
    updated_at = now;
    tileset_at = none;
    reusable_until = none;
  }

  -- `failUnpublishedJob`, and any failing write whose error is only logged.
  unfoldable pub try_fail : Bool → ℕ → Str → Str → List (RoutingJob F) → List (RoutingJob F)
  try_fail down now message id jobs =
      if down
      then jobs
      else elim (fail_routing_job now message id jobs) [ err e ↦ jobs | ok jobs' ↦ jobs' ]

  -- The part of `enqueueIsochrone` after the lookup; an insert under an id that is taken is refused.
  unfoldable pub enqueue_new : Outside → ℕ → Str → RoutingJob F → Routing F → Answer F × Routing F
  unfolding created try_fail
  enqueue_new o now cause job r = elim o.id [
    | none ↦ (internal_error, r)
    | some id ↦
        if o.create_down || has_row (λ (j : RoutingJob F). j.id == id) r.jobs
        then (internal_error, r)
        else if o.publish_down
        then (
          bad_gateway,
          record r {
            jobs = try_fail o.fail_down now (unpublished cause) id (created now id job ∷ r.jobs);
          },
        )
        else (
          accepted (created now id job),
          record r { jobs = created now id job ∷ r.jobs; published = id ∷ r.published },
        )
  ]

  -- `enqueueIsochrone`; `in_range` is `originInRange`, and `cause` the text of a publishing error.
  unfoldable pub enqueue_isochrone :
      (F → ℕ) → Outside → ℕ → Str → Bool → RoutingJob F → Routing F → Answer F × Routing F
  unfolding enqueue_new
  enqueue_isochrone round o now cause in_range job r =
      if not in_range
      then (out_of_range, r)
      else if o.lookup_down
      then enqueue_new o now cause job r
      else elim (find_reusable_routing_job round now job r.jobs) [
        | some prior ↦ (reused prior, r)
        | none ↦ enqueue_new o now cause job r
      ]

  -- `CapIsochroneBacklog`: whether the request goes on; a count that fails admits it.
  unfoldable pub admits : Bool → ℤ → ℕ → List (RoutingJob F) → Bool
  admits down limit since jobs =
      if leb_ℤ limit (pos 0)
      then true
      else if down
      then true
      else ltb_ℤ (pos (count_in_flight since none jobs)) limit

  unfoldable pub is_waiting : RoutingJob F → Bool
  is_waiting job = job.status == queued || job.status == running

  -- `failIfStale`: the job that is shown, and the rows.
  unfoldable pub fail_if_stale :
      Bool → ℕ → RoutingJob F → List (RoutingJob F) → RoutingJob F × List (RoutingJob F)
  unfolding is_waiting
  fail_if_stale down now job jobs =
      if not (is_waiting job)
      then (job, jobs)
      else if leb now (job.created_at + stale_after)
      then (job, jobs)
      else if down
      then (job, jobs)
      else elim (fail_routing_job now stale_message job.id jobs) [
        | err e ↦ (job, jobs)
        | ok jobs' ↦ (record job { status = failed; error = stale_message }, jobs')
      ]
