-- ===== src/Snap.antt =====
-- internal/transit/snap.go: `FirstChainageOrderFault`, over the sign of the step from one chainage
-- to the next, which `step` gives.
pub mod Order
use sparks_effect_api.Prelude.{ℕ, suc, List, [], ◌∷◌, Option, none, some, Bool, true, false}

-- The sign of `delta`, and the direction: `level` while none is established.
pub data Dir : Type 0 where
  level : Dir
  ahead : Dir
  back : Dir

-- What one step does: the direction after it, or whether the fault is on a descending line.
unfoldable pub turn : Dir → Dir → Option Bool × Dir
turn dir level = (none, dir)
turn level ahead = (none, ahead)
turn level back = (none, back)
turn ahead ahead = (none, ahead)
turn ahead back = (some false, ahead)
turn back ahead = (some true, back)
turn back back = (none, back)

module _ {F : Type 0} (step : F → F → Dir) where
  -- The loop; the answer has the index and `backwards`.
  unfoldable pub order_fault_from : ℕ → Dir → List F → Option (ℕ × Bool)
  unfolding turn
  order_fault_from i dir [] = none
  order_fault_from i dir (x ∷ []) = none
  order_fault_from i dir (x ∷ y ∷ rest) =
      let (fault, dir') = turn dir (step x y) in
      let later = order_fault_from (suc i) dir' (y ∷ rest) in
      elim fault [ none ↦ later | some backwards ↦ some (i, backwards) ]

  unfoldable pub first_chainage_order_fault : List F → Option (ℕ × Bool)
  unfolding order_fault_from
  first_chainage_order_fault chainage_m = order_fault_from 0 level chainage_m
