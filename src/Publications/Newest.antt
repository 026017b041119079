-- ===== src/Publications/Newest.antt =====
-- internal/persistence/postgres/publication.go: which compile of a service is pinned.
use sparks_effect_api.Prelude.{
  ◌≤◌, List, [], ◌∷◌, Option, none, some, Str, Bool, true, false, str_Eq, ◌≡◌, ◌≢◌, ◌⊎◌, refl, sym,
  subst, ap, ◌∙◌, inl, inr, In, Bool-cases, Option-cases, some-eq-some, arith,
}
use sparks_effect_api.Types.{CompileJob}
use sparks_effect_api.Publications.Snapshots.{
  is_succeeded_of, is_newer, newest_of, latest_succeeded_compile_job,
}

module _ {F : Type 0} where
  -- Of two jobs the one that is kept is not the earlier one.
  newest_of-kept :
      (id_before : Str → Str → Bool) (x k : CompileJob F)
      → ((newest_of id_before x (some k) ≡ some x) × (k.created_at ≤ x.created_at))
        ⊎ ((newest_of id_before x (some k) ≡ some k) × (x.created_at ≤ k.created_at))
  unfolding newest_of is_newer
  newest_of-kept id_before x k = elim (Bool-cases (is_newer id_before k x)) [
    | inl later ↦ inr (rw later refl, ground arith)
    | inr not_later ↦ inl (rw not_later refl, ground arith)
  ]

  newest_of-some :
      (id_before : Str → Str → Bool) (x : CompileJob F) (o : Option (CompileJob F))
      → newest_of id_before x o ≢ none
  unfolding newest_of
  newest_of-some id_before x none h = absurd (cc)
  newest_of-some id_before x (some k) h = elim (newest_of-kept id_before x k) [
    | inl (e, _) ↦ let z : some x ≡ none = sym e ∙ h in absurd (cc)
    | inr (e, _) ↦ let z : some k ≡ none = sym e ∙ h in absurd (cc)
  ]

  latest-none :
      (id_before : Str → Str → Bool) (service : Str) (jobs : List (CompileJob F)) (k : CompileJob F)
      → latest_succeeded_compile_job id_before service jobs ≡ none
      → In k jobs
      → is_succeeded_of service k ≡ false
  unfolding latest_succeeded_compile_job
  latest-none id_before service [] k h m = absurd m
  latest-none id_before service (x ∷ xs) k h m = elim (Bool-cases (is_succeeded_of service x)) [
    | inl on ↦ absurd (
        newest_of-some id_before x (latest_succeeded_compile_job id_before service xs) (rw on at h))
    | inr off ↦ elim m [
      | inl same ↦ subst (λ (z : CompileJob F). is_succeeded_of service z ≡ false) (sym same) off
      | inr n ↦ latest-none id_before service xs k (rw off at h) n
    ]
  ]

  -- The job is a succeeded compile of the service, and none of those is later.
  abbrev pub IsNewest : Str → List (CompileJob F) → CompileJob F → Type 0
  IsNewest service jobs j =
      In j jobs
      × (is_succeeded_of service j ≡ true)
      × ((k : CompileJob F)
          → In k jobs
          → is_succeeded_of service k ≡ true
          → k.created_at ≤ j.created_at)

  IsNewest-first :
      (service : Str) (x : CompileJob F) (xs : List (CompileJob F))
      → is_succeeded_of service x ≡ true
      → ((k : CompileJob F)
          → In k xs
          → is_succeeded_of service k ≡ true
          → k.created_at ≤ x.created_at)
      → IsNewest service (x ∷ xs) x
  IsNewest-first service x xs on others = (
    inl refl,
    on,
    λ k m s. elim m [
      | inl same ↦ let e = ap (λ (z : CompileJob F). z.created_at) same in omega (arith, e)
      | inr n ↦ others k n s
    ],
  )

  IsNewest-later :
      (service : Str) (x j : CompileJob F) (xs : List (CompileJob F))
      → (is_succeeded_of service x ≡ true → x.created_at ≤ j.created_at)
      → IsNewest service xs j
      → IsNewest service (x ∷ xs) j
  IsNewest-later service x j xs first (m, s, n) = (
    inr m,
    s,
    λ k l t. elim l [
      | inl same ↦
          let le = first (subst (λ (z : CompileJob F). is_succeeded_of service z ≡ true) same t) in
          let e = ap (λ (z : CompileJob F). z.created_at) same in omega (arith, e, le)
      | inr o ↦ n k o t
    ],
  )

  pub latest-IsNewest :
      (id_before : Str → Str → Bool) (service : Str) (jobs : List (CompileJob F)) (j : CompileJob F)
      → latest_succeeded_compile_job id_before service jobs ≡ some j
      → IsNewest service jobs j
  unfolding latest_succeeded_compile_job newest_of
  latest-IsNewest id_before service [] j h = let z : none ≡ some j = h in cc
  latest-IsNewest id_before service (x ∷ xs) j h = elim (Bool-cases (is_succeeded_of service x)) [
    | inr off ↦
        IsNewest-later service x j xs (λ on. let z : true ≡ false = sym on ∙ off in absurd (cc))
          (latest-IsNewest id_before service xs j (rw off at h))
    | inl on ↦ elim (Option-cases (latest_succeeded_compile_job id_before service xs)) [
      | inl e ↦
          let same : x ≡ j = some-eq-some (rw (on, e) at h) in
          subst (IsNewest service (x ∷ xs)) same (
            IsNewest-first service x xs on (λ k m s.
              let z : true ≡ false = sym s ∙ latest-none id_before service xs k e m in absurd (cc)))
      | inr (k, e) ↦
          let rest = latest-IsNewest id_before service xs k e in
          let h' : newest_of id_before x (some k) ≡ some j =
            sym (ap (newest_of id_before x) e) ∙ rw on at h in
          elim (newest_of-kept id_before x k) [
            | inl (won, le) ↦
                subst (IsNewest service (x ∷ xs)) (some-eq-some (sym won ∙ h'))
                  (IsNewest-first service x xs on (λ y m s. omega (arith, le, rest.2 y m s)))
            | inr (won, le) ↦
                subst (IsNewest service (x ∷ xs)) (some-eq-some (sym won ∙ h'))
                  (IsNewest-later service x k xs (λ _. le) rest)
          ]
    ]
  ]
