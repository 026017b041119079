-- ===== src/JobRunner/Outcome.antt =====
-- internal/compile/compile.go: what a run leaves in the job's row.
use sparks_effect_api.Prelude.{
  ℕ, codes, List, [], Option, none, some, Str, Bool, true, false, str_Eq, Result, ok, err, ◌≡◌,
  refl, ◌⊎◌, inl, inr, Result-cases,
}
use sparks_effect_api.Types.{CompileJob, TransitGraph}
use sparks_effect_api.JobRunner.{
  Targets, Write, mark_running, record_failure, record_result, StoreError, has_job, write_job,
  with_status, with_result, compile_target, record_outcome, run, failed, running, outcome_error,
}
use sparks_effect_api.JobRunner.Written.{
  IsWritten, IsLeft, HoldsGraph, HoldsStatus, write_job-IsWritten, twice, IsWritten-IsLeft,
  with_result-HoldsGraph, with_status-HoldsStatus, write_job-failed, only_down,
}

module _ {F : Type 0} where
  -- What the answer of a run tells of the compile and of the rows.
  abbrev pub Reports :
      (Write → Bool)
      → Result Str (TransitGraph F)
      → ℕ
      → Str
      → List (CompileJob F)
      → Str × Option StoreError × List (CompileJob F)
      → Type 0
  Reports down compiled now id jobs (outcome, error, jobs') =
      ((graph : TransitGraph F) × (compiled ≡ ok graph)
        × (outcome ≡ codes "succeeded")
        × (error ≡ none)
        × IsLeft (HoldsGraph now graph) id jobs jobs')
      ⊎ ((message : Str) × (compiled ≡ err message)
          × (outcome ≡ codes "failed")
          × (error ≡ none)
          × IsLeft (HoldsStatus now (codes "failed") message) id jobs jobs')
      ⊎ ((e : StoreError) × (outcome ≡ codes "error")
          × (error ≡ some e)
          × ((has_job id jobs ≡ false) ⊎ ((k : Write) × (down k ≡ true)))
          × ((jobs' ≡ jobs) ⊎ IsLeft (HoldsStatus now (codes "running") []) id jobs jobs'))

  -- The error of a write after the first one.
  marked-Reports :
      (down : Write → Bool) (compiled : Result Str (TransitGraph F)) (now : ℕ) (id : Str)
      (jobs marked : List (CompileJob F)) (k : Write) (g : CompileJob F → CompileJob F)
      (e : StoreError)
      → IsWritten (with_status now running []) id jobs marked
      → write_job (down k) g id marked ≡ err e
      → Reports down compiled now id jobs (outcome_error, some e, marked)
  marked-Reports down compiled now id jobs marked k g e w h = inr (
      inr (
        e,
        refl,
        refl,
        inr (k, only_down (with_status now running []) g id jobs marked (down k) e w h),
        inr (IsWritten-IsLeft _ _ id jobs marked (with_status-HoldsStatus now running []) w),
      ))

  record_outcome-Reports :
      (down : Write → Bool) (now : ℕ) (id : Str) (jobs marked : List (CompileJob F))
      (compiled : Result Str (TransitGraph F))
      → IsWritten (with_status now running []) id jobs marked
      → Reports down compiled now id jobs (record_outcome down now id marked compiled)
  unfolding record_outcome
  record_outcome-Reports down now id jobs marked (err message) w =
      let f = with_status now failed message in
      elim (Result-cases (write_job (down record_failure) f id marked)) [
        | inl (jobs', e) ↦
            let written =
              twice (with_status now running []) f f id jobs marked jobs' (λ j. refl) w
                (write_job-IsWritten _ _ id marked jobs' (λ j. refl) e) in
            rw (e, record_outcome)
              (inr (
                inl (
                  message,
                  refl,
                  refl,
                  refl,
                  IsWritten-IsLeft f _ id jobs jobs' (with_status-HoldsStatus now failed message)
                      written,
                )))
        | inr (x, e) ↦
            rw (e, record_outcome)
              (marked-Reports down (err message) now id jobs marked record_failure f x w e)
      ]
  record_outcome-Reports down now id jobs marked (ok graph) w =
      let f = with_result now graph in
      elim (Result-cases (write_job (down record_result) f id marked)) [
        | inl (jobs', e) ↦
            let written =
              twice (with_status now running []) f f id jobs marked jobs' (λ j. refl) w
                (write_job-IsWritten _ _ id marked jobs' (λ j. refl) e) in
            rw (e, record_outcome)
              (inl (
                graph,
                refl,
                refl,
                refl,
                IsWritten-IsLeft f _ id jobs jobs' (with_result-HoldsGraph now graph) written,
              ))
        | inr (x, e) ↦
            rw (e, record_outcome)
              (marked-Reports down (ok graph) now id jobs marked record_result f x w e)
      ]

  -- A run reports success exactly with a graph that the target compiled to, which the job's row then
  -- holds with its service ids and no error; failure exactly with the compile's error, whose text is
  -- then in the row. It reports an error only if the job has no row or a write found the database
  -- unavailable, and the row is then as it was, or running. What else the job has, and every other
  -- row, stays as it was.
  pub run-Reports :
      (targets : Targets F) (down : Write → Bool) (now : ℕ) (job : CompileJob F)
      (jobs : List (CompileJob F))
      → Reports down (compile_target targets job) now job.id jobs (run targets down now job jobs)
  unfolding run
  run-Reports targets down now job jobs =
      elim (Result-cases (write_job (down mark_running) (with_status now running []) job.id jobs)) [
        | inl (marked, e) ↦
            rw (e, run)
              (record_outcome-Reports down now job.id jobs marked (compile_target targets job)
                (write_job-IsWritten _ _ job.id jobs marked (λ j. refl) e))
        | inr (x, e) ↦
            rw (e, run)
              (inr (
                inr (
                  x,
                  refl,
                  refl,
                  elim (write_job-failed (down mark_running) _ job.id jobs x e) [
                    | inl gone ↦ inl gone
                    | inr b ↦ inr (mark_running, b)
                  ],
                  inl refl,
                )))
      ]
