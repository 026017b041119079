-- ===== src/Windows/Timetable.antt =====
-- The frequency windows that pass: each is a span of the day, and no two overlap.
use sparks_effect_api.Prelude.{
  ℕ, suc, ◌≤◌, ◌<◌, List, [], ◌∷◌, ◌++◌, none, some, Str, codes, false, ltb, leb, pos, leb_ℤ, ◌&&◌,
  ◌≡◌, refl, ◌↔◌, ◌⊎◌, inl, inr, All, cons-eq-nil, subst, sym, ap, Result, ok, err, err-eq-ok,
  ok-eq-ok, contains, str_Eq, str_eq, ◌+◌, ◌/◌, Option-cases, Bool-cases, arith,
}
use sparks_effect_api.Types.{FrequencyWindow}
use sparks_effect_api.Windows.{
  Fault, Span, minutes_of_day, parse_window_time, first_collision, required, bad_format, faults_of,
  is_blank_from, white_space, unfinished, check_window, check_parsed, windows_from,
  validate_frequency_windows, is_blank,
}
use sparks_effect_api.Windows.Clock.{IsClock, minutes_of_day_iff}

-- What a timetable's window is, by the times it reads to.
pub record IsWindow (i : ℕ) (fw : FrequencyWindow) (s : Span) : Type 0 where
  pub at : s.index ≡ i
  pub starts : minutes_of_day fw.start_time ≡ some s.start
  pub ends : minutes_of_day fw.end_time ≡ some s.end
  pub order : s.start < s.end
  pub headway : leb_ℤ fw.headway_s (pos 0) ≡ false

abbrev pub Apart : Span → Span → Type 0
Apart s r = (r.end ≤ s.start) ⊎ (s.end ≤ r.start)

-- The spans of the windows from index `i` on, each apart from the ones before it.
abbrev pub AreApart : ℕ → List Span → List FrequencyWindow → List Span → Type 0
AreApart i seen [] [] = Unit
AreApart i seen (fw ∷ fws) (s ∷ ss) =
    IsWindow i fw s × All (Apart s) seen × AreApart (suc i) (seen ++ s ∷ []) fws ss
AreApart i seen _ _ = ⊥

first_collision_iff :
    (start end i : ℕ) (spans : List Span)
    → (first_collision start end spans ≡ none)
      ↔ All (Apart (record { index = i; start = start; end = end })) spans
unfolding first_collision
first_collision_iff start end i [] = ((λ h. tt), λ a. refl)
first_collision_iff start end i (prev ∷ spans) =
    elim (Bool-cases (ltb start prev.end && ltb prev.start end)) [
      | inl hit ↦ ((λ h. ground arith), λ a. ground arith)
      | inr miss ↦
          let ih = first_collision_iff start end i spans in
          (
            (λ h. (ground arith, ih.0 (rw (miss, first_collision) at h))),
            λ a. rw (miss, first_collision) (ih.1 a.1),
          )
    ]

digit-not_space : (c : ℕ) → 48 ≤ c → c ≤ 57 → contains white_space (c ∷ []) ≡ false
unfolding contains str_eq
digit-not_space c l u = ground arith

digit-not_unfinished : (c : ℕ) → 48 ≤ c → c ≤ 57 → contains unfinished (c ∷ []) ≡ false
unfolding contains str_eq
digit-not_unfinished c l u = ground arith

digit-not_blank : (c : ℕ) (cs : Str) → 48 ≤ c → c ≤ 57 → is_blank (c ∷ cs) ≡ false
unfolding is_blank is_blank_from
digit-not_blank c cs l u =
    rw (digit-not_space c l u, digit-not_unfinished c l u, is_blank, is_blank_from) refl

IsClock-not_blank : (value : Str) (m : ℕ) → IsClock value m → is_blank value ≡ false
IsClock-not_blank value m c =
    rw c.shown (digit-not_blank (48 + c.hour / 10) _ (omega arith) (omega (arith, c.hour_ok)))

parse_window_time_iff :
    (name : Str) (i : ℕ) (value : Str) (m : ℕ)
    → (parse_window_time name i value ≡ ok m) ↔ (minutes_of_day value ≡ some m)
unfolding parse_window_time
parse_window_time_iff name i value m = elim (Bool-cases (is_blank value)) [
  | inl blank ↦ (
    (λ h. err-eq-ok (required name i) m (rw (blank, parse_window_time) at h)),
    λ h. let full = IsClock-not_blank value m ((minutes_of_day_iff value m).0 h) in cc,
  )
  | inr full ↦ elim (Option-cases (minutes_of_day value)) [
    | inl n ↦
        ((λ h. err-eq-ok (bad_format name i) m (rw (full, n, parse_window_time) at h)), λ h. cc)
    | inr (k, n) ↦ (
      (λ h. let e : k ≡ m = ok-eq-ok (rw (full, n, parse_window_time) at h) in rw (n, e) refl),
      λ h. let e : k ≡ m = cc in rw (full, n, parse_window_time) (ap ok e),
    )
  ]
]

-- What the loop's body has found, by the parsed times, when it reports no fault.
record IsPlaced (i : ℕ) (seen : List Span) (fw : FrequencyWindow) (start end : Result Fault ℕ)
    (after : List Span) (s : Span) : Type 0 where
  at : s.index ≡ i
  starts : start ≡ ok s.start
  ends : end ≡ ok s.end
  order : s.start < s.end
  headway : leb_ℤ fw.headway_s (pos 0) ≡ false
  apart : All (Apart s) seen
  grown : after ≡ seen ++ s ∷ []

check_parsed-IsPlaced :
    (i : ℕ) (seen : List Span) (fw : FrequencyWindow) (start end : Result Fault ℕ)
    → (check_parsed i seen fw start end).0 ≡ []
    → (s : Span) × IsPlaced i seen fw start end (check_parsed i seen fw start end).1 s
unfolding check_parsed faults_of
check_parsed-IsPlaced i seen fw (err f) end h = cc
check_parsed-IsPlaced i seen fw (ok start) (err f) h = cc
check_parsed-IsPlaced i seen fw (ok start) (ok end) h =
    elim (Bool-cases (leb_ℤ fw.headway_s (pos 0))) [
      | inl bad ↦ cons-eq-nil (rw (bad, check_parsed) at h)
      | inr good ↦ elim (Bool-cases (leb end start)) [
        | inl late ↦ cons-eq-nil (rw late at (rw (good, check_parsed) at h))
        | inr early ↦ elim (Option-cases (first_collision start end seen)) [
          | inr (k, n) ↦ cons-eq-nil (rw n at (rw early at (rw (good, check_parsed) at h)))
          | inl n ↦ (
            record { index = i; start = start; end = end },
            record {
              at = refl;
              starts = refl;
              ends = refl;
              order = ground arith;
              headway = good;
              apart = (first_collision_iff start end i seen).0 n;
              grown = rw (early, check_parsed) refl;
            },
          )
        ]
      ]
    ]

check_parsed-no_faults :
    (i : ℕ) (seen : List Span) (fw : FrequencyWindow) (start end : Result Fault ℕ)
    (after : List Span) (s : Span)
    → IsPlaced i seen fw start end after s
    → (check_parsed i seen fw start end ≡ ([], seen ++ s ∷ []))
unfolding check_parsed faults_of
check_parsed-no_faults i seen fw start end after s p =
    let early : leb s.end s.start ≡ false = let o = p.order in ground arith in
    let free : first_collision s.start s.end seen ≡ none =
      (first_collision_iff s.start s.end s.index seen).1 p.apart in
    let at : record { index = i; start = s.start; end = s.end } ≡ s =
      ap (λ k. record { index = k; start = s.start; end = s.end }) (sym p.at) in
    rw (p.starts, p.ends, p.headway, early, free, at) refl

check_window-no_faults :
    (i : ℕ) (seen : List Span) (fw : FrequencyWindow) (s : Span)
    → IsWindow i fw s
    → All (Apart s) seen
    → check_window i seen fw ≡ ([], seen ++ s ∷ [])
unfolding check_window
check_window-no_faults i seen fw s w a =
    check_parsed-no_faults i seen fw _ _ (seen ++ s ∷ []) s (record {
      at = w.at;
      starts = (parse_window_time_iff (codes "start_time") i fw.start_time s.start).1 w.starts;
      ends = (parse_window_time_iff (codes "end_time") i fw.end_time s.end).1 w.ends;
      order = w.order;
      headway = w.headway;
      apart = a;
      grown = refl;
    })

check_window-IsWindow :
    (i : ℕ) (seen : List Span) (fw : FrequencyWindow)
    → (check_window i seen fw).0 ≡ []
    → (s : Span) × IsWindow i fw s
      × All (Apart s) seen
      × ((check_window i seen fw).1 ≡ seen ++ s ∷ [])
unfolding check_window
check_window-IsWindow i seen fw h =
    let (s, p) = check_parsed-IsPlaced i seen fw _ _ h in
    (
      s,
      record {
        at = p.at;
        starts = (parse_window_time_iff (codes "start_time") i fw.start_time s.start).0 p.starts;
        ends = (parse_window_time_iff (codes "end_time") i fw.end_time s.end).0 p.ends;
        order = p.order;
        headway = p.headway;
      },
      p.apart,
      p.grown,
    )

append-eq-nil : {A : Type 0} (xs ys : List A) → xs ++ ys ≡ [] → (xs ≡ []) × (ys ≡ [])
append-eq-nil [] ys h = (refl, h)
append-eq-nil (x ∷ xs) ys h = cons-eq-nil h

windows_from-AreApart :
    (i : ℕ) (seen : List Span) (fws : List FrequencyWindow)
    → windows_from i seen fws ≡ []
    → (ss : List Span) × AreApart i seen fws ss
unfolding windows_from
windows_from-AreApart i seen [] h = ([], tt)
windows_from-AreApart i seen (fw ∷ fws) h =
    let (here, later) = append-eq-nil (check_window i seen fw).0 _ h in
    let (s, w, a, grown) = check_window-IsWindow i seen fw here in
    let (ss, rest) =
      windows_from-AreApart (suc i) (seen ++ s ∷ []) fws (rw (grown, windows_from) at later) in
    (s ∷ ss, (w, a, rest))

AreApart-no_faults :
    (i : ℕ) (seen : List Span) (fws : List FrequencyWindow) (ss : List Span)
    → AreApart i seen fws ss
    → windows_from i seen fws ≡ []
unfolding windows_from
AreApart-no_faults i seen [] ss p = refl
AreApart-no_faults i seen (fw ∷ fws) [] p = absurd p
AreApart-no_faults i seen (fw ∷ fws) (s ∷ ss) p =
    subst (λ (r : List Fault × List Span). r.0 ++ windows_from (suc i) r.1 fws ≡ [])
      (sym (check_window-no_faults i seen fw s p.0 p.1))
      (AreApart-no_faults (suc i) (seen ++ s ∷ []) fws ss p.2)

-- The frequency windows have no fault exactly when each reads to a span of the day that ends after
-- it starts, has a headway above 0, and no two of the spans overlap.
pub validate_frequency_windows_iff :
    (windows : List FrequencyWindow)
    → (validate_frequency_windows windows ≡ [])
      ↔ ((spans : List Span) × AreApart 0 [] windows spans)
unfolding validate_frequency_windows
validate_frequency_windows_iff windows =
    (windows_from-AreApart 0 [] windows, λ p. AreApart-no_faults 0 [] windows p.0 p.1)
