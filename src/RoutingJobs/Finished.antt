-- ===== src/RoutingJobs/Finished.antt =====
-- A routing job that has finished stays finished.
use sparks_effect_api.Prelude.{
  ℕ, List, [], ◌∷◌, Str, Bool, true, ◌&&◌, ◌==◌, str_Eq, str_eq, ok, err-eq-ok, ok-eq-ok, ◌≡◌, refl,
  subst, inl, inr, Bool-cases, arith,
}
use sparks_effect_api.RoutingJobs.{
  RoutingJob, JobSucceeded, job_not_found, is_finished, reaches, update_routing, exec_routing_job,
  mark_routing_job_running, succeed_routing_job, fail_routing_job,
}

-- One write of a worker that succeeds.
pub data Writes {F : Type 0} : List (RoutingJob F) → List (RoutingJob F) → Type 0 where
  marks_running :
      {jobs jobs' : List (RoutingJob F)} (now : ℕ) (id : Str)
      → mark_routing_job_running now id jobs ≡ ok jobs'
      → Writes jobs jobs'
  succeeds :
      {jobs jobs' : List (RoutingJob F)} (now : ℕ) (done : JobSucceeded) (id : Str)
      → succeed_routing_job now done id jobs ≡ ok jobs'
      → Writes jobs jobs'
  fails :
      {jobs jobs' : List (RoutingJob F)} (now : ℕ) (message id : Str)
      → fail_routing_job now message id jobs ≡ ok jobs'
      → Writes jobs jobs'

module _ {F : Type 0} where
  -- Row by row: the same id, and finished if it was.
  abbrev pub StayFinished : List (RoutingJob F) → List (RoutingJob F) → Type 0
  StayFinished [] [] = Unit
  StayFinished (j ∷ js) (k ∷ ks) =
      (k.id ≡ j.id)
      × (is_finished j.status ≡ true → is_finished k.status ≡ true)
      × StayFinished js ks
  StayFinished _ _ = ⊥

  update_routing-StayFinished :
      (p : RoutingJob F → Bool) (f : RoutingJob F → RoutingJob F) (id : Str)
      (jobs : List (RoutingJob F))
      → ((j : RoutingJob F) → (f j).id ≡ j.id)
      → ((j : RoutingJob F)
          → p j ≡ true
          → is_finished j.status ≡ true
          → is_finished (f j).status ≡ true)
      → StayFinished jobs (update_routing p f id jobs)
  unfolding update_routing
  update_routing-StayFinished p f id [] keep stay = tt
  update_routing-StayFinished p f id (j ∷ js) keep stay = elim (Bool-cases (j.id == id && p j)) [
    | inl hit ↦
        rw hit (keep j, stay j (ground arith), update_routing-StayFinished p f id js keep stay)
    | inr miss ↦ rw miss (refl, (λ h. h), update_routing-StayFinished p f id js keep stay)
  ]

  exec_routing_job-StayFinished :
      (p : RoutingJob F → Bool) (f : RoutingJob F → RoutingJob F) (id : Str)
      (jobs jobs' : List (RoutingJob F))
      → ((j : RoutingJob F) → (f j).id ≡ j.id)
      → ((j : RoutingJob F)
          → p j ≡ true
          → is_finished j.status ≡ true
          → is_finished (f j).status ≡ true)
      → exec_routing_job p f id jobs ≡ ok jobs'
      → StayFinished jobs jobs'
  unfolding exec_routing_job
  exec_routing_job-StayFinished p f id jobs jobs' keep stay h =
      elim (Bool-cases (reaches p id jobs)) [
        | inl hit ↦
            subst (StayFinished jobs) (ok-eq-ok (rw (hit, exec_routing_job) at h))
              (update_routing-StayFinished p f id jobs keep stay)
        | inr miss ↦ err-eq-ok (job_not_found id) jobs' (rw (miss, exec_routing_job) at h)
      ]

  -- No write of a worker takes a job that has succeeded or failed back to queued or running, and
  -- none changes the ids of the rows.
  pub Writes-StayFinished :
      {jobs jobs' : List (RoutingJob F)} → Writes jobs jobs' → StayFinished jobs jobs'
  unfolding mark_routing_job_running succeed_routing_job fail_routing_job is_finished str_eq
  Writes-StayFinished (marks_running now id h) =
      exec_routing_job-StayFinished _ _ id _ _ (λ j. refl) (λ j p e. ground arith) h
  Writes-StayFinished (succeeds now done id h) =
      exec_routing_job-StayFinished _ _ id _ _ (λ j. refl) (λ j p e. refl) h
  Writes-StayFinished (fails now message id h) =
      exec_routing_job-StayFinished _ _ id _ _ (λ j. refl) (λ j p e. refl) h
