-- ===== src/Prelude/Split.antt =====
-- `strings.Split` at one byte.
use Prim.Native.Nat.{ℕ}
use mathlib.Core.Path.{◌≡◌, refl, ap, ◌∙◌}
use mathlib.Core.Logic.{◌≢◌, inl, inr}
use mathlib.Core.List.{List, [], ◌∷◌, ◌++◌}
use native.Mathlib.Omega.{arith}
use sparks_effect_api.Prelude.Tests.{nat_eq, if◌then◌else◌, Bool-cases}
use sparks_effect_api.Prelude.Lists.{cons-eq-nil, List-cases}
use sparks_effect_api.Prelude.Text.{Str}

unfoldable pub prepend : ℕ → List Str → List Str
prepend c [] = (c ∷ []) ∷ []
prepend c (p ∷ ps) = (c ∷ p) ∷ ps

unfoldable pub split_on : ℕ → Str → List Str
unfolding prepend
split_on sep [] = [] ∷ []
split_on sep (c ∷ s) =
    let rest = split_on sep s in if nat_eq c sep then [] ∷ rest else prepend c rest

prepend-append : (c : ℕ) (xs ys : List Str) → xs ≢ [] → prepend c (xs ++ ys) ≡ prepend c xs ++ ys
unfolding prepend
prepend-append c [] ys h = absurd (h refl)
prepend-append c (x ∷ xs) ys h = refl

split_on-ne-nil : (sep : ℕ) (s : Str) → split_on sep s ≢ []
unfolding split_on prepend
split_on-ne-nil sep [] h = cc
split_on-ne-nil sep (c ∷ s) h = elim (Bool-cases (nat_eq c sep)) [
  | inl at ↦ cons-eq-nil (rw at at h)
  | inr other ↦ elim (List-cases (split_on sep s)) [
    | inl none_left ↦ split_on-ne-nil sep s none_left
    | inr (p, ps, e) ↦
        let z : prepend c (split_on sep s) ≡ [] = rw other at h in
        cons-eq-nil {x = c ∷ p} {xs = ps} (rw (e, prepend) at z)
  ]
]

-- What stands before a separator is split by itself.
pub split_on-append :
    (sep : ℕ) (s t : Str) → split_on sep (s ++ sep ∷ t) ≡ split_on sep s ++ split_on sep t
unfolding split_on
split_on-append sep [] t = ground arith
split_on-append sep (c ∷ s) t = elim (Bool-cases (nat_eq c sep)) [
  | inl at ↦ rw at (ap (λ r. [] ∷ r) (split_on-append sep s t))
  | inr other ↦ rw other (
      ap (prepend c) (split_on-append sep s t)
      ∙ prepend-append c (split_on sep s) (split_on sep t) (split_on-ne-nil sep s))
]
