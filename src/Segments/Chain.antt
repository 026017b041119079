-- ===== src/Segments/Chain.antt =====
-- The chain of predecessors that the search records, and its walk from the end.
use sparks_effect_api.Prelude.{
  ℕ, zero, suc, ◌<◌, List, [], ◌∷◌, ◌++◌, some, Str, true, false, ◌≡◌, refl, inl, inr, ◌==◌, str_Eq,
  str_eq, str_eq_iff, str_eq_refl, if◌then◌else◌, contains, In, length, arith, Bool-cases,
}
use mathlib.Core.List.{append_assoc}
use sparks_effect_api.Segments.{Adj, SegEdge, prev_of, walk_back}

-- The path to `x` that the entries of `prev` spell, from the search's start.
unfoldable pub chain : List (Str × Str) → Str → List Str
chain [] x = x ∷ []
chain ((y, p) ∷ prev) x = if x == y then chain prev p ++ x ∷ [] else chain prev x

-- The nodes that have an entry, and the start.
abbrev pub reached : Str → List (Str × Str) → List Str
reached from [] = from ∷ []
reached from ((y, p) ∷ prev) = y ∷ reached from prev

-- Each entry is of a new node, its predecessor was reached before, and has an edge to it.
abbrev pub IsGrown : Adj → Str → List (Str × Str) → Type 0
IsGrown adj from [] = Unit
IsGrown adj from ((y, p) ∷ prev) =
    (contains (reached from prev) y ≡ false)
    × (contains (reached from prev) p ≡ true)
    × ((e : SegEdge) × In e (adj p) × (e.to ≡ y))
    × IsGrown adj from prev

pub start-reached :
    (from : Str) (prev : List (Str × Str)) → contains (reached from prev) from ≡ true
unfolding contains
start-reached from [] = ground (arith, str_eq_refl from)
start-reached from ((y, p) ∷ prev) = ground (arith, start-reached from prev)

-- Two nodes of which only one was reached differ.
fresh_ne :
    (xs : List Str) (x y : Str) → contains xs x ≡ true → contains xs y ≡ false → str_eq x y ≡ false
fresh_ne xs x y h k = ground (arith, str_eq_iff x y)

fresh_start :
    (from y : Str) (prev : List (Str × Str))
    → contains (reached from prev) y ≡ false
    → str_eq y from ≡ false
fresh_start from y prev h = ground (
  arith,
  fresh_ne (reached from prev) from y (start-reached from prev) h,
  str_eq_iff y from,
  str_eq_iff from y,
)

-- The chain of a node that a later entry does not name is as before.
pub chain_older :
    (y p x : Str) (prev : List (Str × Str)) (from : Str)
    → contains (reached from prev) y ≡ false
    → contains (reached from prev) x ≡ true
    → chain ((y, p) ∷ prev) x ≡ chain prev x
unfolding chain
chain_older y p x prev from fresh old = rw (fresh_ne (reached from prev) x y old fresh)

-- A chain ends in its node.
pub chain_last :
    (prev : List (Str × Str)) (x : Str) → (init : List Str) × (chain prev x ≡ init ++ x ∷ [])
unfolding chain
chain_last [] x = ([], refl)
chain_last ((y, p) ∷ prev) x = elim (Bool-cases (x == y)) [
  | inl same ↦ (chain prev p, rw same)
  | inr other ↦ let (init, e) = chain_last prev x in (init, rw other e)
]

-- The predecessor of a reached node other than the start was reached.
prev_of-reached :
    (adj : Adj) (from x : Str) (prev : List (Str × Str))
    → IsGrown adj from prev
    → contains (reached from prev) x ≡ true
    → str_eq x from ≡ false
    → contains (reached from prev) (prev_of prev x) ≡ true
unfolding prev_of contains
prev_of-reached adj from x [] g r h = ground arith
prev_of-reached adj from x ((y, q) ∷ prev) g r h =
    ground (arith, prev_of-reached adj from x prev g.3)

-- A newer entry does not change the walk from an older node.
walk_back_older :
    (fuel : ℕ) (adj : Adj) (from y q x : Str) (prev : List (Str × Str)) (path : List Str)
    → IsGrown adj from prev
    → contains (reached from prev) y ≡ false
    → contains (reached from prev) x ≡ true
    → walk_back fuel ((y, q) ∷ prev) from x path ≡ walk_back fuel prev from x path
unfolding walk_back
walk_back_older zero adj from y q x prev path g fresh r = refl
walk_back_older (suc fuel) adj from y q x prev path g fresh r =
    let before = prev_of prev x in
    ground (
      arith,
      fresh_ne (reached from prev) x y r fresh,
      prev_of-reached adj from x prev g r,
      walk_back_older fuel adj from y q before prev (before ∷ path) g fresh,
    )

-- With fuel above the number of entries, the walk back from a reached node spells its chain.
pub walk_back-chain :
    (fuel : ℕ) (adj : Adj) (from x : Str) (all : List (Str × Str)) (path : List Str)
    → IsGrown adj from all
    → contains (reached from all) x ≡ true
    → length all < fuel
    → (tail : List Str) × (chain all x ≡ tail ++ x ∷ [])
      × (walk_back fuel all from x path ≡ some (tail ++ path))
unfolding chain walk_back contains
walk_back-chain zero adj from x all path g r h = absurd (omega arith)
walk_back-chain (suc fuel) adj from x [] path g r h = ([], refl, ground arith)
walk_back-chain (suc fuel) adj from x ((y, p) ∷ prev) path g r h = elim (Bool-cases (x == y)) [
  | inl same ↦
      let (tail, e, w) = walk_back-chain fuel adj from p prev (p ∷ path) g.3 g.1 (omega arith) in
      let start_ne : str_eq x from ≡ false =
        rw ((str_eq_iff x y).0 same) (fresh_start from y prev g.0) in
      (
        tail ++ p ∷ [],
        rw (e, same) refl,
        ground (
          arith,
          start_ne,
          walk_back_older fuel adj from y p p prev (p ∷ path) g.3 g.0 g.1,
          w,
          append_assoc tail (p ∷ []) path,
        ),
      )
  | inr other ↦
      let older : contains (reached from prev) x ≡ true = ground arith in
      let (tail, e, w) = walk_back-chain (suc fuel) adj from x prev path g.3 older (omega arith) in
      (tail, rw other e, rw (walk_back_older (suc fuel) adj from y p x prev path g.3 g.0 older) w)
]
