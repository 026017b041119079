-- ===== src/JobRunner/Sweep.antt =====
-- internal/persistence/postgres/postgres.go: the sweep at boot.
use sparks_effect_api.Prelude.{
  ℕ, suc, codes, List, [], ◌∷◌, Str, true, false, str_Eq, str_eq, str_eq_iff, str_apart, ◌==◌, ◌≡◌,
  ◌≢◌, refl, sym, ap, ◌∙◌, subst, ◌⊎◌, inl, inr, In, Bool-cases, arith,
}
use sparks_effect_api.Types.{CompileJob}
use sparks_effect_api.JobRunner.{queued, running, failed, is_unfinished, fail_interrupted_jobs}

is_unfinished-true :
    (status : Str) → is_unfinished status ≡ true → (status ≡ queued) ⊎ (status ≡ running)
unfolding is_unfinished
is_unfinished-true status h = elim (Bool-cases (status == queued)) [
  | inl q ↦ inl ((str_eq_iff status queued).0 q)
  | inr other ↦ inr ((str_eq_iff status running).0 (ground arith))
]

is_unfinished-false :
    (status : Str) → is_unfinished status ≡ false → (status ≢ queued) × (status ≢ running)
unfolding is_unfinished
is_unfinished-false status h =
    (str_apart status queued (ground arith), str_apart status running (ground arith))

module _ {F : Type 0} where
  -- A sweep of the jobs that fails this many of them and leaves these.
  pub data IsSwept (now : ℕ) : List (CompileJob F) → ℕ → List (CompileJob F) → Type 0 where
    nothing : IsSwept now [] 0 []
    fails :
        (j : CompileJob F) {js ks : List (CompileJob F)} {n : ℕ}
        → (j.status ≡ queued) ⊎ (j.status ≡ running)
        → IsSwept now js n ks
        → IsSwept now (j ∷ js) (suc n) (
            record j {
              status = codes "failed";
              error = codes "interrupted by restart";
              updated_at = now;
            }
            ∷ ks)
    keeps :
        (j : CompileJob F) {js ks : List (CompileJob F)} {n : ℕ}
        → j.status ≢ queued
        → j.status ≢ running
        → IsSwept now js n ks
        → IsSwept now (j ∷ js) n (j ∷ ks)

  sweep-IsSwept :
      (now : ℕ) (jobs : List (CompileJob F))
      → IsSwept now jobs (fail_interrupted_jobs now jobs).0 (fail_interrupted_jobs now jobs).1
  unfolding fail_interrupted_jobs
  sweep-IsSwept now [] = nothing
  sweep-IsSwept now (j ∷ js) = elim (Bool-cases (is_unfinished j.status)) [
    | inl open_still ↦
        rw open_still (fails j (is_unfinished-true j.status open_still) (sweep-IsSwept now js))
    | inr finished ↦
        let (q, r) = is_unfinished-false j.status finished in
        rw finished (keeps j q r (sweep-IsSwept now js))
  ]

  IsSwept-finished :
      {now n : ℕ} {js ks : List (CompileJob F)}
      → IsSwept now js n ks
      → (k : CompileJob F) → In k ks
      → (k.status ≢ queued) × (k.status ≢ running)
  unfolding str_eq
  IsSwept-finished nothing k m = absurd m
  IsSwept-finished (fails j u s) k (inl e) =
      let status : k.status ≡ failed = ap (λ (z : CompileJob F). z.status) e in
      (
        λ q. str_apart failed queued refl (sym status ∙ q),
        λ q. str_apart failed running refl (sym status ∙ q),
      )
  IsSwept-finished (fails j u s) k (inr m) = IsSwept-finished s k m
  IsSwept-finished (keeps j q r s) k (inl e) =
      subst (λ (z : CompileJob F). (z.status ≢ queued) × (z.status ≢ running)) (sym e) (q, r)
  IsSwept-finished (keeps j q r s) k (inr m) = IsSwept-finished s k m

  finished-unswept :
      (later : ℕ) (ks : List (CompileJob F))
      → ((k : CompileJob F) → In k ks → (k.status ≢ queued) × (k.status ≢ running))
      → fail_interrupted_jobs later ks ≡ (0, ks)
  unfolding fail_interrupted_jobs
  finished-unswept later [] h = refl
  finished-unswept later (k ∷ ks) h =
      let shut : is_unfinished k.status ≡ false = elim (Bool-cases (is_unfinished k.status)) [
        | inr off ↦ off
        | inl on ↦ elim (is_unfinished-true k.status on) [
          | inl q ↦ absurd ((h k (inl refl)).0 q)
          | inr r ↦ absurd ((h k (inl refl)).1 r)
        ]
      ] in
      rw (fail_interrupted_jobs, shut, finished-unswept later ks (λ z m. h z (inr m))) refl

  -- The sweep fails every job that is queued or running, with the text of the restart, and counts
  -- them; every other job is as it was. No job is queued or running then, and a second sweep counts
  -- none and changes nothing.
  pub fail_interrupted_jobs-IsSwept :
      (now later : ℕ) (jobs : List (CompileJob F))
      → IsSwept now jobs (fail_interrupted_jobs now jobs).0 (fail_interrupted_jobs now jobs).1
        × ((k : CompileJob F)
            → In k (fail_interrupted_jobs now jobs).1
            → (k.status ≢ queued) × (k.status ≢ running))
        × (fail_interrupted_jobs later (fail_interrupted_jobs now jobs).1
            ≡ (0, (fail_interrupted_jobs now jobs).1))
  fail_interrupted_jobs-IsSwept now later jobs =
      let s = sweep-IsSwept now jobs in
      let finished = IsSwept-finished s in
      (s, finished, finished-unswept later (fail_interrupted_jobs now jobs).1 finished)
