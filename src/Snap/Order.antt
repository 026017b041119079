-- ===== src/Snap/Order.antt =====
-- The stops that have no fault run one way.
use sparks_effect_api.Prelude.{
  ℕ, suc, List, [], ◌∷◌, Option, none, some, Bool, true, false, ◌≡◌, ◌≢◌, refl, ◌↔◌, ◌⊎◌, inl, inr,
  sym, ap, ◌∙◌,
}
use sparks_effect_api.Snap.{
  Dir, level, ahead, back, turn, order_fault_from, first_chainage_order_fault,
}

Dir-cases : (d : Dir) → (d ≡ level) ⊎ (d ≡ ahead) ⊎ (d ≡ back)
Dir-cases level = inl refl
Dir-cases ahead = inr (inl refl)
Dir-cases back = inr (inr refl)

module _ {F : Type 0} (step : F → F → Dir) where
  -- No step has the direction `d`.
  abbrev pub Never : Dir → List F → Type 0
  Never d [] = Unit
  Never d (x ∷ []) = Unit
  Never d (x ∷ y ∷ rest) = (step x y ≢ d) × Never d (y ∷ rest)

  -- One step of the loop, for a sign that is known.
  unroll :
      (i : ℕ) (dir : Dir) (x y : F) (d : Dir) (rest : List F)
      → step x y ≡ d
      → order_fault_from step i dir (x ∷ y ∷ rest)
        ≡ elim (turn dir d).0 as (λ o. Option (ℕ × Bool)) [
          | none ↦ order_fault_from step (suc i) (turn dir d).1 (y ∷ rest)
          | some backwards ↦ some (i, backwards)
        ]
  unfolding order_fault_from
  unroll i dir x y d rest e =
      ap
        (λ (z : Dir). elim (turn dir z).0 as (λ o. Option (ℕ × Bool)) [
          | none ↦ order_fault_from step (suc i) (turn dir z).1 (y ∷ rest)
          | some backwards ↦ some (i, backwards)
        ])
        e

  ahead_iff : (i : ℕ) (xs : List F) → (order_fault_from step i ahead xs ≡ none) ↔ Never back xs
  unfolding order_fault_from turn
  ahead_iff i [] = ((λ h. tt), λ n. refl)
  ahead_iff i (x ∷ []) = ((λ h. tt), λ n. refl)
  ahead_iff i (x ∷ y ∷ rest) = elim (Dir-cases (step x y)) [
    | inl e ↦
        let u : order_fault_from step i ahead (x ∷ y ∷ rest)
            ≡ order_fault_from step (suc i) ahead (y ∷ rest) =
          unroll i ahead x y level rest e in
        (
          (λ h. ((λ z. cc), (ahead_iff (suc i) (y ∷ rest)).0 (sym u ∙ h))),
          λ n. u ∙ (ahead_iff (suc i) (y ∷ rest)).1 n.1,
        )
    | inr (inl e) ↦
        let u : order_fault_from step i ahead (x ∷ y ∷ rest)
            ≡ order_fault_from step (suc i) ahead (y ∷ rest) =
          unroll i ahead x y ahead rest e in
        (
          (λ h. ((λ z. cc), (ahead_iff (suc i) (y ∷ rest)).0 (sym u ∙ h))),
          λ n. u ∙ (ahead_iff (suc i) (y ∷ rest)).1 n.1,
        )
    | inr (inr e) ↦
        let u : order_fault_from step i ahead (x ∷ y ∷ rest) ≡ some (i, false) =
          unroll i ahead x y back rest e in
        ((λ h. cc), λ n. absurd (n.0 e))
  ]

  back_iff : (i : ℕ) (xs : List F) → (order_fault_from step i back xs ≡ none) ↔ Never ahead xs
  unfolding order_fault_from turn
  back_iff i [] = ((λ h. tt), λ n. refl)
  back_iff i (x ∷ []) = ((λ h. tt), λ n. refl)
  back_iff i (x ∷ y ∷ rest) = elim (Dir-cases (step x y)) [
    | inl e ↦
        let u : order_fault_from step i back (x ∷ y ∷ rest)
            ≡ order_fault_from step (suc i) back (y ∷ rest) =
          unroll i back x y level rest e in
        (
          (λ h. ((λ z. cc), (back_iff (suc i) (y ∷ rest)).0 (sym u ∙ h))),
          λ n. u ∙ (back_iff (suc i) (y ∷ rest)).1 n.1,
        )
    | inr (inl e) ↦
        let u : order_fault_from step i back (x ∷ y ∷ rest) ≡ some (i, true) =
          unroll i back x y ahead rest e in
        ((λ h. cc), λ n. absurd (n.0 e))
    | inr (inr e) ↦
        let u : order_fault_from step i back (x ∷ y ∷ rest)
            ≡ order_fault_from step (suc i) back (y ∷ rest) =
          unroll i back x y back rest e in
        (
          (λ h. ((λ z. cc), (back_iff (suc i) (y ∷ rest)).0 (sym u ∙ h))),
          λ n. u ∙ (back_iff (suc i) (y ∷ rest)).1 n.1,
        )
  ]

  level_iff :
      (i : ℕ) (xs : List F)
      → (order_fault_from step i level xs ≡ none) ↔ (Never back xs ⊎ Never ahead xs)
  unfolding order_fault_from turn
  level_iff i [] = ((λ h. inl tt), λ n. refl)
  level_iff i (x ∷ []) = ((λ h. inl tt), λ n. refl)
  level_iff i (x ∷ y ∷ rest) = elim (Dir-cases (step x y)) [
    | inl e ↦
        let u : order_fault_from step i level (x ∷ y ∷ rest)
            ≡ order_fault_from step (suc i) level (y ∷ rest) =
          unroll i level x y level rest e in
        (
          (λ h. elim ((level_iff (suc i) (y ∷ rest)).0 (sym u ∙ h)) [
            | inl n ↦ inl ((λ z. cc), n)
            | inr n ↦ inr ((λ z. cc), n)
          ]),
          λ n. elim n [
            | inl m ↦ u ∙ (level_iff (suc i) (y ∷ rest)).1 (inl m.1)
            | inr m ↦ u ∙ (level_iff (suc i) (y ∷ rest)).1 (inr m.1)
          ],
        )
    | inr (inl e) ↦
        let u : order_fault_from step i level (x ∷ y ∷ rest)
            ≡ order_fault_from step (suc i) ahead (y ∷ rest) =
          unroll i level x y ahead rest e in
        (
          (λ h. inl ((λ z. cc), (ahead_iff (suc i) (y ∷ rest)).0 (sym u ∙ h))),
          λ n. elim n [ inl m ↦ u ∙ (ahead_iff (suc i) (y ∷ rest)).1 m.1 | inr m ↦ absurd (m.0 e) ],
        )
    | inr (inr e) ↦
        let u : order_fault_from step i level (x ∷ y ∷ rest)
            ≡ order_fault_from step (suc i) back (y ∷ rest) =
          unroll i level x y back rest e in
        (
          (λ h. inr ((λ z. cc), (back_iff (suc i) (y ∷ rest)).0 (sym u ∙ h))),
          λ n. elim n [ inl m ↦ absurd (m.0 e) | inr m ↦ u ∙ (back_iff (suc i) (y ∷ rest)).1 m.1 ],
        )
  ]

  -- The chainages of a service's stops have no order fault exactly when no step goes back or no step
  -- goes ahead.
  pub first_chainage_order_fault_iff :
      (chainage_m : List F)
      → (first_chainage_order_fault step chainage_m ≡ none)
        ↔ (Never back chainage_m ⊎ Never ahead chainage_m)
  unfolding first_chainage_order_fault
  first_chainage_order_fault_iff chainage_m = level_iff 0 chainage_m
