-- ===== src/Prelude/Distinct.antt =====
-- Lists without repetition, and how long they can be.
use Prim.Native.Nat.{suc, ◌≤◌}
use mathlib.Core.Path.{◌≡◌, refl, sym, ◌∙◌, subst}
use mathlib.Core.Logic.{◌⊎◌, inl, inr}
use mathlib.Core.Bool.{Bool, true, false}
use mathlib.Core.List.{List, [], ◌∷◌}
use native.Mathlib.Omega.{arith}
use sparks_effect_api.Prelude.Tests.{Bool-cases}
use sparks_effect_api.Prelude.Lists.{In, length}
use sparks_effect_api.Prelude.Equality.{Eq, contains, contains-In, In-contains}

module _ {A : Type 0} where
  abbrev pub NoRepeat : List A → Type 0
  NoRepeat [] = Unit
  NoRepeat (x ∷ xs) = (¬ (In x xs)) × NoRepeat xs

  -- Every element of the one list is in the other.
  abbrev pub Within : List A → List A → Type 0
  Within xs ys = (z : A) → In z xs → In z ys

  -- A list with one occurrence of `x` taken out.
  take_out :
      (x : A) (ys : List A)
      → In x ys
      → (rest : List A) × (length ys ≡ suc (length rest))
        × ((z : A) → In z ys → (z ≡ x) ⊎ In z rest)
  take_out x [] m = absurd m
  take_out x (y ∷ ys) (inl e) =
      (ys, refl, λ z m. elim m [ inl p ↦ inl (p ∙ sym e) | inr n ↦ inr n ])
  take_out x (y ∷ ys) (inr m) =
      let (rest, n, split) = take_out x ys m in
      (
        y ∷ rest,
        omega (arith, n),
        λ z k. elim k [
          | inl p ↦ inr (inl p)
          | inr l ↦ elim (split z l) [ inl p ↦ inl p | inr q ↦ inr (inr q) ]
        ],
      )

  pub NoRepeat-length : (xs ys : List A) → NoRepeat xs → Within xs ys → length xs ≤ length ys
  NoRepeat-length [] ys d w = omega arith
  NoRepeat-length (x ∷ xs) ys d w =
      let (rest, n, split) = take_out x ys (w x (inl refl)) in
      let within : Within xs rest = λ z m. elim (split z (w z (inr m))) [
        | inl p ↦ absurd (d.0 (subst (λ a. In a xs) p m))
        | inr k ↦ k
      ] in
      omega (arith, n, NoRepeat-length xs rest d.1 within)

module _ {A : Type 0} ⦃e : Eq A⦄ where
  -- A list without repetition that is at least as long as one that holds it has all its elements.
  pub Within-flip :
      (xs ys : List A) → NoRepeat xs → Within xs ys → length ys ≤ length xs → Within ys xs
  Within-flip xs ys d w n z m = elim (Bool-cases (contains xs z)) [
    | inl in_xs ↦ contains-In xs z in_xs
    | inr out ↦
        let longer : suc (length xs) ≤ length ys =
          NoRepeat-length (z ∷ xs) ys (λ k. no out (In-contains xs z k), d)
            (λ a k. elim k [ inl p ↦ subst (λ b. In b ys) (sym p) m | inr l ↦ w a l ]) in
        let impossible : ⊥ = omega arith in absurd impossible
  ]
    where
      no : {b : Bool} → b ≡ false → b ≡ true → ⊥
      no f t = cc
