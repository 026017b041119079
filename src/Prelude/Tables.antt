-- ===== src/Prelude/Tables.antt =====
-- A table as the list of its rows, and the statements of SQL on it.
use mathlib.Core.Path.{◌≡◌, ◌∙◌, refl, sym, ap, subst}
use mathlib.Core.Logic.{inl, inr}
use mathlib.Core.Bool.{Bool, true, false, ◌||◌}
use mathlib.Core.Option.{Option, none, some}
use mathlib.Core.List.{List, [], ◌∷◌}
use native.Mathlib.Omega.{arith}
use sparks_effect_api.Prelude.Tests.{if◌then◌else◌, Bool-cases}
use sparks_effect_api.Prelude.Lists.{In}

module _ {A : Type 0} where
  -- `UPDATE … WHERE`
  unfoldable pub update_where : (A → Bool) → (A → A) → List A → List A
  update_where p f [] = []
  update_where p f (x ∷ xs) = (if p x then f x else x) ∷ update_where p f xs

  -- `SELECT … WHERE`, by a key.
  unfoldable pub select : (A → Bool) → List A → Option A
  select p [] = none
  select p (x ∷ xs) = let rest = select p xs in if p x then some x else rest

  -- `DELETE … WHERE`
  unfoldable pub delete_where : (A → Bool) → List A → List A
  delete_where p [] = []
  delete_where p (x ∷ xs) = let rest = delete_where p xs in if p x then rest else x ∷ rest

  -- `EXISTS (SELECT … WHERE)`, and whether `RowsAffected` is above 0.
  unfoldable pub has_row : (A → Bool) → List A → Bool
  has_row p [] = false
  has_row p (x ∷ xs) = p x || has_row p xs

  pub select-holds : (k : A → Bool) (xs : List A) (x : A) → select k xs ≡ some x → k x ≡ true
  unfolding select
  select-holds k [] x h = ground arith
  select-holds k (y ∷ ys) x h = elim (Bool-cases (k y)) [
    | inl hit ↦ ground arith
    | inr miss ↦ select-holds k ys x (ground arith)
  ]

  pub select-In : (k : A → Bool) (xs : List A) (x : A) → select k xs ≡ some x → In x xs
  unfolding select
  select-In k [] x h = ground arith
  select-In k (y ∷ ys) x h = elim (Bool-cases (k y)) [
    | inl hit ↦ inl (ground arith)
    | inr miss ↦ inr (select-In k ys x (ground arith))
  ]

  pub delete_where-In :
      (p : A → Bool) (xs : List A) (x : A) → In x (delete_where p xs) → In x xs × (p x ≡ false)
  unfolding delete_where
  delete_where-In p [] x m = absurd m
  delete_where-In p (y ∷ ys) x m = elim (Bool-cases (p y)) [
    | inl gone ↦
        let (rest, kept) = delete_where-In p ys x (rw (gone, if◌then◌else◌) at m) in
        (inr rest, kept)
    | inr stays ↦ elim (rw (stays, if◌then◌else◌) at m) as (λ _. In x (y ∷ ys) × (p x ≡ false)) [
      | inl e ↦ (inl e, subst (λ z. p z ≡ false) (sym e) stays)
      | inr k ↦ let (rest, kept) = delete_where-In p ys x k in (inr rest, kept)
    ]
  ]

  pub In-delete_where :
      (p : A → Bool) (xs : List A) (x : A) → In x xs → p x ≡ false → In x (delete_where p xs)
  unfolding delete_where
  In-delete_where p [] x m h = absurd m
  In-delete_where p (y ∷ ys) x (inl e) h = rw (subst (λ z. p z ≡ false) e h) (inl e)
  In-delete_where p (y ∷ ys) x (inr m) h = elim (Bool-cases (p y)) [
    | inl gone ↦ rw gone (In-delete_where p ys x m h)
    | inr stays ↦ rw stays (inr (In-delete_where p ys x m h))
  ]

  -- A row after an update is an old row that the test missed, or the image of one that it hit.
  pub data IsUpdated (p : A → Bool) (f : A → A) (xs : List A) (y : A) : Type 0 where
    missed : In y xs → p y ≡ false → IsUpdated p f xs y
    hit : (x : A) → In x xs → p x ≡ true → y ≡ f x → IsUpdated p f xs y

  IsUpdated-later :
      (p : A → Bool) (f : A → A) (x : A) (xs : List A) (y : A)
      → IsUpdated p f xs y
      → IsUpdated p f (x ∷ xs) y
  IsUpdated-later p f x xs y (missed m h) = missed (inr m) h
  IsUpdated-later p f x xs y (hit z m h e) = hit z (inr m) h e

  pub update_where-IsUpdated :
      (p : A → Bool) (f : A → A) (xs : List A) (y : A)
      → In y (update_where p f xs)
      → IsUpdated p f xs y
  unfolding update_where
  update_where-IsUpdated p f [] y m = absurd m
  update_where-IsUpdated p f (x ∷ xs) y (inl e) = elim (Bool-cases (p x)) [
    | inl at ↦ hit x (inl refl) at (ground arith)
    | inr off ↦
        let same : y ≡ x = ground arith in
        missed (inl same) (subst (λ z. p z ≡ false) (sym same) off)
  ]
  update_where-IsUpdated p f (x ∷ xs) y (inr m) =
      IsUpdated-later p f x xs y (update_where-IsUpdated p f xs y m)

  pub has_row-In : (p : A → Bool) (xs : List A) (x : A) → In x xs → p x ≡ true → has_row p xs ≡ true
  unfolding has_row
  has_row-In p [] x m h = absurd m
  has_row-In p (y ∷ ys) x (inl e) h = rw (subst (λ z. p z ≡ true) e h) refl
  has_row-In p (y ∷ ys) x (inr m) h = ground (arith, has_row-In p ys x m h)

  pub select-none :
      (p : A → Bool) (xs : List A) → ((x : A) → In x xs → p x ≡ false) → select p xs ≡ none
  unfolding select
  select-none p [] h = refl
  select-none p (x ∷ xs) h = rw (h x (inl refl)) (select-none p xs (λ y m. h y (inr m)))

  pub select-some :
      (p : A → Bool) (xs : List A) → has_row p xs ≡ true → (x : A) × (select p xs ≡ some x)
  unfolding select has_row
  select-some p [] h = cc
  select-some p (x ∷ xs) h = elim (Bool-cases (p x)) [
    | inl at ↦ (x, rw at refl)
    | inr off ↦ rw off (select-some p xs (rw off at h))
  ]

  pub select_unique :
      (p : A → Bool) (xs : List A) (x : A)
      → In x xs
      → p x ≡ true
      → ((y : A) → In y xs → p y ≡ true → y ≡ x)
      → select p xs ≡ some x
  select_unique p xs x m h only =
      let (y, e) = select-some p xs (has_row-In p xs x m h) in
      e ∙ ap some (only y (select-In p xs y e) (select-holds p xs y e))

  pub has_row-found :
      (p : A → Bool) (xs : List A) → has_row p xs ≡ true → (x : A) × In x xs × (p x ≡ true)
  unfolding has_row
  has_row-found p [] h = cc
  has_row-found p (x ∷ xs) h = elim (Bool-cases (p x)) [
    | inl at ↦ (x, inl refl, at)
    | inr off ↦ let (y, m, e) = has_row-found p xs (rw off at h) in (y, inr m, e)
  ]

  pub missed-In :
      (p : A → Bool) (xs : List A) (x : A) → has_row p xs ≡ false → In x xs → p x ≡ false
  unfolding has_row
  missed-In p [] x h m = absurd m
  missed-In p (y ∷ ys) x h (inl e) = subst (λ z. p z ≡ false) (sym e) (ground arith)
  missed-In p (y ∷ ys) x h (inr m) = missed-In p ys x (ground arith) m

  pub In-update_where :
      (p : A → Bool) (f : A → A) (xs : List A) (x : A)
      → In x xs
      → p x ≡ false
      → In x (update_where p f xs)
  unfolding update_where
  In-update_where p f [] x m h = absurd m
  In-update_where p f (y ∷ ys) x (inl e) h = rw (subst (λ z. p z ≡ false) e h) (inl e)
  In-update_where p f (y ∷ ys) x (inr m) h = inr (In-update_where p f ys x m h)

  pub update_where-In :
      (p : A → Bool) (f : A → A) (xs : List A) (x : A)
      → In x xs
      → p x ≡ true
      → In (f x) (update_where p f xs)
  unfolding update_where
  update_where-In p f [] x m h = absurd m
  update_where-In p f (y ∷ ys) x (inl e) h = rw (subst (λ z. p z ≡ true) e h) (inl (ap f e))
  update_where-In p f (y ∷ ys) x (inr m) h = inr (update_where-In p f ys x m h)

  -- A row found by its key is found again after an update that keeps the key.
  pub select-update_where :
      (k p : A → Bool) (f : A → A) (xs : List A) (x : A)
      → ((y : A) → k (f y) ≡ k y)
      → select k xs ≡ some x
      → p x ≡ true
      → select k (update_where p f xs) ≡ some (f x)
  unfolding select update_where
  select-update_where k p f [] x keep h e = ground arith
  select-update_where k p f (y ∷ ys) x keep h e = elim (Bool-cases (k y)) [
    | inl here ↦
        let same : y ≡ x = ground arith in
        rw (same, e, keep x, subst (λ z. k z ≡ true) same here) refl
    | inr miss ↦ elim (Bool-cases (p y)) [
      | inl t ↦ rw (t, keep y, miss) (select-update_where k p f ys x keep (ground arith) e)
      | inr n ↦ rw (n, miss) (select-update_where k p f ys x keep (ground arith) e)
    ]
  ]

  pub select-overwritten :
      (p : A → Bool) (new : A) (xs : List A) (x : A)
      → p new ≡ true
      → select p xs ≡ some x
      → select p (update_where p (λ _. new) xs) ≡ some new
  unfolding select update_where
  select-overwritten p new [] x at h = let z : none ≡ some x = h in cc
  select-overwritten p new (y ∷ ys) x at h = elim (Bool-cases (p y)) [
    | inl here ↦ rw (here, at) refl
    | inr miss ↦ rw (miss, miss) (select-overwritten p new ys x at (rw miss at h))
  ]

  -- An update of other rows changes nothing for a key.
  pub select-update_other :
      (k p : A → Bool) (f : A → A) (xs : List A)
      → ((y : A) → p y ≡ true → (k y ≡ false) × (k (f y) ≡ false))
      → select k (update_where p f xs) ≡ select k xs
  unfolding select update_where
  select-update_other k p f [] other = refl
  select-update_other k p f (y ∷ ys) other = elim (Bool-cases (p y)) [
    | inl t ↦
        let (before, after) = other y t in
        rw (t, before, after) (select-update_other k p f ys other)
    | inr n ↦ elim (Bool-cases (k y)) [
      | inl here ↦ rw (n, here) refl
      | inr miss ↦ rw (n, miss) (select-update_other k p f ys other)
    ]
  ]
