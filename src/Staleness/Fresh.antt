-- ===== src/Staleness/Fresh.antt =====
-- When a compile is not stale: the services are the same, and none has changed since.
use sparks_effect_api.Prelude.{
  ℕ, ◌≤◌, List, [], ◌∷◌, some, Str, true, false, ltb, nat_eq, str_Eq, length, contains, insert,
  lookup, ◌≡◌, refl, ◌↔◌, ◌⊎◌, inl, inr, In, Bool-cases, Option-cases, arith, contains-In,
  In-contains, NoRepeat, Within, NoRepeat-length, Within-flip,
}
use sparks_effect_api.Staleness.{id_set, any_missing, any_updated, membership_stale}

pub record IsFresh (compiled : List Str) (captured_at : ℕ) (current : List Str)
    (updated_at : List (Str × ℕ)) : Type 0 where
  pub kept : Within compiled current
  pub known : Within current compiled
  pub unchanged :
      (id : Str) (t : ℕ) → In id current → lookup updated_at id ≡ some t → t ≤ captured_at

id_set-Within : (ids : List Str) → Within (id_set ids) ids
unfolding id_set insert
id_set-Within [] z m = absurd m
id_set-Within (id ∷ ids) z m = elim (Bool-cases (contains (id_set ids) id)) [
  | inl old ↦ inr (id_set-Within ids z (rw old at m))
  | inr new ↦ elim (added (rw new at m)) [ inl p ↦ inl p | inr k ↦ inr (id_set-Within ids z k) ]
]
  where
    added : In z (id ∷ id_set ids) → (z ≡ id) ⊎ In z (id_set ids)
    added k = k

Within-id_set : (ids : List Str) → Within ids (id_set ids)
unfolding id_set insert
Within-id_set [] z m = absurd m
Within-id_set (id ∷ ids) z m = elim (Bool-cases (contains (id_set ids) id)) [
  | inl old ↦
      rw old
        (elim m [ inl p ↦ rw p (contains-In (id_set ids) id old) | inr k ↦ Within-id_set ids z k ])
  | inr new ↦ rw new (elim m [ inl p ↦ inl p | inr k ↦ inr (Within-id_set ids z k) ])
]

id_set-NoRepeat : (ids : List Str) → NoRepeat (id_set ids)
unfolding id_set insert
id_set-NoRepeat [] = tt
id_set-NoRepeat (id ∷ ids) = elim (Bool-cases (contains (id_set ids) id)) [
  | inl old ↦ rw old (id_set-NoRepeat ids)
  | inr new ↦ rw new ((λ m. let old = In-contains (id_set ids) id m in cc), id_set-NoRepeat ids)
]

any_missing_iff :
    (compiled ids : List Str) → (any_missing compiled ids ≡ false) ↔ Within ids compiled
unfolding any_missing
any_missing_iff compiled [] = ((λ h z m. absurd m), λ w. refl)
any_missing_iff compiled (id ∷ ids) = elim (Bool-cases (contains compiled id)) [
  | inl here ↦ (
    (λ h z m. elim m [
      | inl p ↦ rw p (contains-In compiled id here)
      | inr k ↦ (any_missing_iff compiled ids).0 (rw here at h) z k
    ]),
    λ w. rw here ((any_missing_iff compiled ids).1 (λ z m. w z (inr m))),
  )
  | inr gone ↦ (
    (λ h. absurd (true_false (rw gone at h))),
    λ w. absurd (let here = In-contains compiled id (w id (inl refl)) in cc),
  )
]
  where
    true_false : true ≡ false → ⊥
    true_false h = cc

any_updated_iff :
    (updated_at : List (Str × ℕ)) (captured_at : ℕ) (ids : List Str)
    → (any_updated updated_at captured_at ids ≡ false)
      ↔ ((id : Str) (t : ℕ) → In id ids → lookup updated_at id ≡ some t → t ≤ captured_at)
unfolding any_updated
any_updated_iff updated_at captured_at [] = ((λ h id t m. absurd m), λ w. refl)
any_updated_iff updated_at captured_at (id ∷ ids) = elim (Option-cases (lookup updated_at id)) [
  | inl n ↦ (
    (λ h k t m e. elim m [
      | inl p ↦ cc
      | inr q ↦ (any_updated_iff updated_at captured_at ids).0 (rw (n, any_updated) at h) k t q e
    ]),
    λ w.
        rw (n, any_updated)
          ((any_updated_iff updated_at captured_at ids).1 (λ k t m. w k t (inr m))),
  )
  | inr (u, n) ↦ elim (Bool-cases (ltb captured_at u)) [
    | inl late ↦ (
      (λ h. absurd (true_false (rw late at (rw (n, any_updated) at h)))),
      λ w. let bound : u ≤ captured_at = w id u (inl refl) n in ground arith,
    )
    | inr early ↦ (
      (λ h k t m e. elim m [
        | inl p ↦ let same : t ≡ u = cc in ground arith
        | inr q ↦
            (any_updated_iff updated_at captured_at ids).0 (rw early at (rw (n, any_updated) at h))
              k t q e
      ]),
      λ w.
          rw (n, early, any_updated)
            ((any_updated_iff updated_at captured_at ids).1 (λ k t m. w k t (inr m))),
    )
  ]
]
  where
    true_false : true ≡ false → ⊥
    true_false h = cc

-- For a list of current services without repetition, a compile is not stale exactly when its
-- services are the current ones and none of them was updated after it was captured.
pub membership_stale_iff :
    (compiled : List Str) (captured_at : ℕ) (current : List Str) (updated_at : List (Str × ℕ))
    → NoRepeat current
    → (membership_stale compiled captured_at current updated_at ≡ false)
      ↔ IsFresh compiled captured_at current updated_at
unfolding membership_stale
membership_stale_iff compiled captured_at current updated_at d = (
  (λ h. elim (Bool-cases (nat_eq (length (id_set compiled)) (length current))) [
    | inr n ↦ absurd (true_false (rw n at h))
    | inl n ↦ elim (Bool-cases (any_missing (id_set compiled) current)) [
      | inl m ↦ absurd (true_false (rw m at (rw n at h)))
      | inr m ↦
          let within : Within current (id_set compiled) =
            (any_missing_iff (id_set compiled) current).0 m in
          record {
            kept = λ z k.
                Within-flip current (id_set compiled) d within (ground arith) z
                  (Within-id_set compiled z k);
            known = λ z k. id_set-Within compiled z (within z k);
            unchanged = (any_updated_iff updated_at captured_at current).0 (rw m at (rw n at h));
          }
    ]
  ]),
  λ f.
      let within : Within current (id_set compiled) =
        λ z k. Within-id_set compiled z (f.known z k) in
      let back : Within (id_set compiled) current = λ z k. f.kept z (id_set-Within compiled z k) in
      let n : length (id_set compiled) ≡ length current = omega (
        arith,
        NoRepeat-length (id_set compiled) current (id_set-NoRepeat compiled) back,
        NoRepeat-length current (id_set compiled) d within,
      ) in
      let e : nat_eq (length (id_set compiled)) (length current) ≡ true = ground arith in
      rw (e, (any_missing_iff (id_set compiled) current).1 within)
        ((any_updated_iff updated_at captured_at current).1 f.unchanged),
)
  where
    true_false : true ≡ false → ⊥
    true_false h = cc
