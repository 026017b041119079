-- ===== src/BoardingWait/Bounds.antt =====
-- Bounds on the wait that boarding_wait.go charges.
use sparks_effect_api.Prelude.{
  List, [], ◌∷◌, Option, none, some, ◌≡◌, refl, ◌⊎◌, inl, inr, Str, ℤ, pos, half_ℤ, ltb_ℤ, ◌≤ℤ◌, ok,
  All, All-In, In, arith, str_eq_iff, if◌then◌else◌, str_eq, Bool-cases,
}
use sparks_effect_api.Types.{BoardingWaitPolicy, FrequencyWindow}
use sparks_effect_api.BoardingWait.{
  parse_kind, wait_none, wait_half_headway, wait_full_headway, wait_fixed,
  parse_boarding_wait_policy, min_headway, min_headway_from, wait_secs,
}

smaller : ℤ → ℤ → ℤ
smaller a b = if ltb_ℤ a b then a else b

smaller_le : (a b : ℤ) → (smaller a b ≤ℤ a) × (smaller a b ≤ℤ b)
unfolding smaller
smaller_le a b = ground arith

min_headway_from-le :
    (best : ℤ) (ws : List FrequencyWindow)
    → (min_headway_from best ws ≤ℤ best) × All (λ w. min_headway_from best ws ≤ℤ w.headway_s) ws
unfolding min_headway_from smaller
min_headway_from-le best [] = (omega arith, tt)
min_headway_from-le best (w ∷ ws) =
    let (low, rest) = min_headway_from-le (smaller w.headway_s best) ws in
    let (left, right) = smaller_le w.headway_s best in (omega arith, (omega arith, rest))

min_headway_from-In :
    (best : ℤ) (ws : List FrequencyWindow)
    → (min_headway_from best ws ≡ best)
      ⊎ ((w : FrequencyWindow) × In w ws × (min_headway_from best ws ≡ w.headway_s))
unfolding min_headway_from
min_headway_from-In best [] = inl refl
min_headway_from-In best (w ∷ ws) =
    elim (min_headway_from-In (if ltb_ℤ w.headway_s best then w.headway_s else best) ws) [
      | inr (v, m, e) ↦ inr (v, inr m, e)
      | inl e ↦ elim (Bool-cases (ltb_ℤ w.headway_s best)) [
        | inl lower ↦ inr (w, inl refl, ground arith)
        | inr higher ↦ inl (ground arith)
      ]
    ]

-- The minimum headway is at most every window's headway, and it is the headway of one of them
-- unless there is no window, where it is 0.
pub min_headway-le :
    (ws : List FrequencyWindow)
    → All (λ w. min_headway ws ≤ℤ w.headway_s) ws
      × (((ws ≡ []) × (min_headway ws ≡ pos 0))
          ⊎ ((w : FrequencyWindow) × In w ws × (min_headway ws ≡ w.headway_s)))
unfolding min_headway
min_headway-le [] = (tt, inl (refl, refl))
min_headway-le (w ∷ ws) =
    let (low, rest) = min_headway_from-le w.headway_s ws in
    (
      (low, rest),
      inr (elim (min_headway_from-In w.headway_s ws) [
        | inl e ↦ (w, inl refl, e)
        | inr (v, m, e) ↦ (v, inr m, e)
      ]),
    )

half-le : (z : ℤ) → pos 0 ≤ℤ z → (pos 0 ≤ℤ half_ℤ z) × (half_ℤ z ≤ℤ z)
unfolding half_ℤ
half-le z h = ground arith

-- The kinds that a parsed policy can have.
abbrev pub IsParsed : BoardingWaitPolicy → Type 0
IsParsed p =
    (p.kind ≡ wait_none)
    ⊎ (p.kind ≡ wait_half_headway)
    ⊎ (p.kind ≡ wait_full_headway)
    ⊎ ((p.kind ≡ wait_fixed) × (pos 0 ≤ℤ p.fixed_secs))

parse_kind-IsParsed :
    (kind : Str) (secs : Option ℤ) (p : BoardingWaitPolicy)
    → parse_kind kind secs ≡ ok p
    → IsParsed p
unfolding parse_kind
parse_kind-IsParsed kind none p h = ground (
  arith,
  str_eq_iff kind wait_none,
  str_eq_iff kind wait_half_headway,
  str_eq_iff kind wait_full_headway,
  str_eq_iff kind wait_fixed,
)
parse_kind-IsParsed kind (some s) p h = ground (
  arith,
  str_eq_iff kind wait_none,
  str_eq_iff kind wait_half_headway,
  str_eq_iff kind wait_full_headway,
  str_eq_iff kind wait_fixed,
)

All-le_trans :
    (a b : ℤ) (ws : List FrequencyWindow)
    → a ≤ℤ b
    → All (λ w. b ≤ℤ w.headway_s) ws
    → All (λ w. a ≤ℤ w.headway_s) ws
All-le_trans a b [] h k = tt
All-le_trans a b (w ∷ ws) h k = (omega (arith, k.0), All-le_trans a b ws h k.1)

abbrev pub AllPositive : List FrequencyWindow → Type 0
AllPositive = All (λ w. pos 0 ≤ℤ w.headway_s)

min_headway-nonneg : (ws : List FrequencyWindow) → AllPositive ws → pos 0 ≤ℤ min_headway ws
min_headway-nonneg ws h = elim (min_headway-le ws).1 [
  | inl (_, e) ↦ rw e (omega arith)
  | inr (w, m, e) ↦ rw e (All-In (λ v. pos 0 ≤ℤ v.headway_s) ws w h m)
]

-- The wait of a policy, or its error.
abbrev pub ChargedWithin : BoardingWaitPolicy → List FrequencyWindow → Type 0
ChargedWithin p ws =
    (s : ℤ) × (wait_secs p ws ≡ ok s)
    × (pos 0 ≤ℤ s)
    × ((p.kind ≡ wait_fixed) ⊎ All (λ w. s ≤ℤ w.headway_s) ws)

-- A policy that was parsed never fails to resolve against windows whose headways are not negative:
-- the wait is not negative, and unless the policy is a fixed one it is at most every headway.
pub parse-wait_secs :
    (kind : Str) (secs : Option ℤ) (p : BoardingWaitPolicy) (ws : List FrequencyWindow)
    → parse_boarding_wait_policy kind secs ≡ ok p
    → AllPositive ws
    → ChargedWithin p ws
unfolding parse_boarding_wait_policy wait_secs str_eq
parse-wait_secs kind secs p ws h k =
    elim (parse_kind-IsParsed (if str_eq kind [] then wait_none else kind) secs p h) [
      | inl e ↦ (pos 0, rw e, omega arith, inr k)
      | inr (inl e) ↦
          let (low, high) = half-le (min_headway ws) (min_headway-nonneg ws k) in
          (
            half_ℤ (min_headway ws),
            rw e,
            low,
            inr (
                All-le_trans (half_ℤ (min_headway ws)) (min_headway ws) ws high
                  (min_headway-le ws).0),
          )
      | inr (inr (inl e)) ↦
          (min_headway ws, rw e, min_headway-nonneg ws k, inr (min_headway-le ws).0)
      | inr (inr (inr (e, n))) ↦ (p.fixed_secs, rw e (ground arith), n, inl e)
    ]
