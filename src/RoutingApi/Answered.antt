-- ===== src/RoutingApi/Answered.antt =====
-- What an isochrone request and a poll leave behind, branch by branch.
use sparks_effect_api.Prelude.{
  ℕ, codes, ◌++◌, none, some, In, ◌+◌, ◌≤◌, List, ◌∷◌, Str, Bool, true, false, leb, str_Eq, str_eq,
  err, Result-cases, ◌≡◌, refl, ◌⊎◌, inl, inr, Bool-cases, arith,
}
use sparks_effect_api.JobRunner.{failed}
use sparks_effect_api.RoutingJobs.{RoutingJob, RoutingError, fail_routing_job}
use sparks_effect_api.RoutingJobs.Reuse.{Answers}
use sparks_effect_api.RoutingApi.{
  Outside, Answer, out_of_range, reused, accepted, bad_gateway, internal_error, Routing, try_fail,
  is_waiting, fail_if_stale, stale_after, stale_message,
}

module _ {F : Type 0} where
  -- A new job of the request, under the id that was made for it.
  pub record IsRequested (o : Outside) (now : ℕ) (job j : RoutingJob F) : Type 0 where
    pub id : o.id ≡ some j.id
    pub compile_job_id : j.compile_job_id ≡ job.compile_job_id
    pub owner_id : j.owner_id ≡ job.owner_id
    pub lat : j.lat ≡ job.lat
    pub lng : j.lng ≡ job.lng
    pub budget_mins : j.budget_mins ≡ job.budget_mins
    pub mode : j.mode ≡ job.mode
    pub created_at : j.created_at ≡ now
    pub result : j.result ≡ none

  abbrev pub IsAnswered :
      (F → ℕ) → Outside → ℕ → Str → Bool → RoutingJob F → Routing F → Answer F × Routing F → Type 0
  IsAnswered round o now cause in_range job r (out_of_range, r') = (in_range ≡ false) × (r' ≡ r)
  IsAnswered round o now cause in_range job r (internal_error, r') =
      (r' ≡ r)
      × ((o.id ≡ none)
          ⊎ (o.create_down ≡ true)
          ⊎ ((j : RoutingJob F) × In j r.jobs × (o.id ≡ some j.id)))
  IsAnswered round o now cause in_range job r (reused prior, r') =
      (r' ≡ r) × Answers round now r.jobs job prior
  IsAnswered round o now cause in_range job r (accepted j, r') =
      IsRequested o now job j
      × (j.status ≡ codes "queued")
      × (o.publish_down ≡ false)
      × (r'.jobs ≡ j ∷ r.jobs)
      × (r'.published ≡ j.id ∷ r.published)
  IsAnswered round o now cause in_range job r (bad_gateway, r') =
      (o.publish_down ≡ true)
      × (r'.published ≡ r.published)
      × ((j : RoutingJob F) × IsRequested o now job j
          × (r'.jobs ≡ j ∷ r.jobs)
          × (((o.fail_down ≡ true) × (j.status ≡ codes "queued"))
              ⊎ ((o.fail_down ≡ false)
                  × (j.status ≡ codes "failed")
                  × (j.error ≡ codes "the isochrone was never enqueued: " ++ cause))))

  -- The job that failed is the request's still.
  failed_row : ℕ → Str → RoutingJob F → RoutingJob F
  failed_row now message j = record j { status = failed; error = message; updated_at = now }

  try_fail-down :
      (now : ℕ) (message id : Str) (jobs : List (RoutingJob F))
      → try_fail true now message id jobs ≡ jobs
  unfolding try_fail
  try_fail-down now message id jobs = refl

  -- A job that a poll still shows as queued or running is at most 90 seconds old, or the write that
  -- fails it has failed.
  pub fail_if_stale-is_waiting :
      (down : Bool) (now : ℕ) (job : RoutingJob F) (jobs : List (RoutingJob F))
      → is_waiting (fail_if_stale down now job jobs).0 ≡ true
      → (now ≤ job.created_at + stale_after)
        ⊎ (down ≡ true)
        ⊎ ((e : RoutingError) × (fail_routing_job now stale_message job.id jobs ≡ err e))
  unfolding fail_if_stale is_waiting str_eq
  fail_if_stale-is_waiting down now job jobs h =
      elim (Bool-cases (leb now (job.created_at + stale_after))) [
        | inl young ↦ inl (ground arith)
        | inr old ↦ elim (Bool-cases down) [
          | inl d ↦ inr (inl d)
          | inr up ↦ elim (Result-cases (fail_routing_job now stale_message job.id jobs)) [
            | inr (x, e) ↦ inr (inr (x, e))
            | inl (jobs', e) ↦ elim (Bool-cases (is_waiting job)) [
              | inr idle ↦ absurd (apart (is_waiting job) idle (rw (idle, fail_if_stale) at h))
              | inl waits ↦ absurd (
                  apart false refl
                    (rw e at (rw up at (rw old at (rw (waits, fail_if_stale) at h)))))
            ]
          ]
        ]
      ]
    where
      apart : (b : Bool) → b ≡ false → b ≡ true → ⊥
      apart b f g = cc
