-- ===== src/Examples/Chainages.antt =====
-- The chainages of stops along a line, and of stops that turn back.
use sparks_effect_api.Prelude.{
  ℕ, ltb, [], ◌∷◌, none, some, false, if◌then◌else◌, ◌≡◌, refl, ◌↔◌, ◌⊎◌,
}
use sparks_effect_api.Snap.{Dir, level, ahead, back, first_chainage_order_fault}
use sparks_effect_api.Snap.Order.{Never, first_chainage_order_fault_iff}

abbrev step : ℕ → ℕ → Dir
step x y = if ltb x y then ahead else if ltb y x then back else level

-- The third step is the first that goes back.
turns_back : first_chainage_order_fault step (1 ∷ 1 ∷ 4 ∷ 2 ∷ []) ≡ some (2, false)
unfolding first_chainage_order_fault
turns_back = refl

first_chainage_order_fault_iff_example :
    (first_chainage_order_fault step (9 ∷ 4 ∷ 4 ∷ []) ≡ none)
    ↔ (Never step back (9 ∷ 4 ∷ 4 ∷ []) ⊎ Never step ahead (9 ∷ 4 ∷ 4 ∷ []))
first_chainage_order_fault_iff_example = first_chainage_order_fault_iff step (9 ∷ 4 ∷ 4 ∷ [])
