-- ===== src/Prelude/Equality.antt =====
-- Equality of keys as an instance, and the sets and maps that Go keys by them.
use Prim.Native.Nat.{ℕ}
use mathlib.Core.Path.{◌≡◌, refl}
use mathlib.Core.Logic.{◌↔◌, inl, inr}
use mathlib.Core.Bool.{Bool, true, false, ◌||◌}
use mathlib.Core.Option.{Option, none, some}
use mathlib.Core.List.{List, [], ◌∷◌}
use native.Mathlib.Omega.{arith}
use sparks_effect_api.Prelude.Tests.{nat_eq, nat_eq_iff, if◌then◌else◌, Bool-cases}
use sparks_effect_api.Prelude.Lists.{In}
use sparks_effect_api.Prelude.Text.{Str, str_eq, str_eq_iff}

pub record Eq {ℓ} (K : Type ℓ) : Type ℓ where
  pub same : K → K → Bool
  pub same_iff : (j k : K) → (same j k ≡ true) ↔ (j ≡ k)

infix 50 ◌==◌
abbrev pub ◌==◌ {ℓ} : {A : Type ℓ} ⦃e : Eq A⦄ → A → A → Bool
◌==◌ ⦃e⦄ = e.same

instance abbrev pub nat_Eq : Eq ℕ
nat_Eq = record { same = nat_eq; same_iff = nat_eq_iff }

instance abbrev pub str_Eq : Eq Str
str_Eq = record { same = str_eq; same_iff = str_eq_iff }

-- `m[k]` of a Go map whose assignments stand in the list, the latest first.
module _ {ℓ κ} {K : Type ℓ} {V : Type κ} ⦃e : Eq K⦄ where
  unfoldable pub lookup : List (K × V) → K → Option V
  lookup [] k = none
  lookup ((j, v) ∷ m) k = if k == j then some v else lookup m k

module _ {ℓ} {A : Type ℓ} ⦃e : Eq A⦄ where
  -- `m[a]` of a `map[A]bool` that holds the keys `xs`.
  unfoldable pub contains : List A → A → Bool
  contains [] a = false
  contains (x ∷ xs) a = a == x || contains xs a

  -- `m[a] = true`; the keys stay distinct, so `len(m)` is the list's length.
  unfoldable pub insert : A → List A → List A
  insert a xs = if contains xs a then xs else a ∷ xs

  pub eq_refl : (a : A) → (a == a) ≡ true
  eq_refl a = (e.same_iff a a).1 refl

module _ {A : Type 0} ⦃e : Eq A⦄ where
  pub contains-In : (xs : List A) (a : A) → contains xs a ≡ true → In a xs
  unfolding contains
  contains-In [] a h = ground arith
  contains-In (x ∷ xs) a h = elim (Bool-cases (a == x)) [
    | inl same ↦ inl ((e.same_iff a x).0 same)
    | inr other ↦ inr (contains-In xs a (ground arith))
  ]

  pub In-contains : (xs : List A) (a : A) → In a xs → contains xs a ≡ true
  unfolding contains
  In-contains [] a m = absurd m
  In-contains (x ∷ xs) a (inl p) = ground (arith, e.same_iff a x)
  In-contains (x ∷ xs) a (inr m) = ground (arith, In-contains xs a m)

module _ {K V : Type 0} ⦃e : Eq K⦄ where
  pub lookup-In : (m : List (K × V)) (k : K) (v : V) → lookup m k ≡ some v → In (k, v) m
  unfolding lookup
  lookup-In [] k v h = ground arith
  lookup-In ((j, w) ∷ m) k v h = elim (Bool-cases (k == j)) [
    | inl same ↦ inl (ground (arith, e.same_iff k j))
    | inr other ↦ inr (lookup-In m k v (ground arith))
  ]
