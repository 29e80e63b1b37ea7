-- ===== src/Base/Sorting.antt =====
-- sort.Slice and sort.SliceStable: the order that a comparison gives, ties in their old order. A
-- sort that is not stable may order ties in any way; no theorem depends on them.
use mathlib.Core.Path.{◌≡◌, refl}
use mathlib.Core.Bool.{Bool, true, false, not}
use mathlib.Core.List.{List, [], ◌∷◌}
use native.Mathlib.Omega.{arith}
use go_auth_x.Base.Tests.{if◌then◌else◌}
use go_auth_x.Base.Lists.{any, keep, length}

module _ {ℓ} {A : Type ℓ} where
  -- `x` goes before the first member that is greater.
  unfoldable pub insert_by : (A → A → Bool) → A → List A → List A
  insert_by less x [] = x ∷ []
  insert_by less x (y ∷ ys) =
      let rest = insert_by less x ys in if less y x then y ∷ rest else x ∷ y ∷ ys

  unfoldable pub sort_by : (A → A → Bool) → List A → List A
  unfolding insert_by
  sort_by less [] = []
  sort_by less (x ∷ xs) = insert_by less x (sort_by less xs)

  any-insert_by :
      (less : A → A → Bool) (p : A → Bool) (x : A) (xs : List A)
      → any p (insert_by less x xs) ≡ any p (x ∷ xs)
  unfolding any insert_by
  any-insert_by less p x [] = refl
  any-insert_by less p x (y ∷ ys) = ground (arith, any-insert_by less p x ys)

  -- Sorting keeps the members.
  pub any-sort_by :
      (less : A → A → Bool) (p : A → Bool) (xs : List A) → any p (sort_by less xs) ≡ any p xs
  unfolding any sort_by
  any-sort_by less p [] = refl
  any-sort_by less p (x ∷ xs) =
      ground (arith, any-insert_by less p x (sort_by less xs), any-sort_by less p xs)

  count-insert_by :
      (less : A → A → Bool) (p : A → Bool) (x : A) (xs : List A)
      → length (keep p (insert_by less x xs)) ≡ length (keep p (x ∷ xs))
  unfolding keep insert_by
  count-insert_by less p x [] = refl
  count-insert_by less p x (y ∷ ys) = ground (arith, count-insert_by less p x ys)

  -- Sorting keeps each member as often as it is there.
  pub count-sort_by :
      (less : A → A → Bool) (p : A → Bool) (xs : List A)
      → length (keep p (sort_by less xs)) ≡ length (keep p xs)
  unfolding keep sort_by
  count-sort_by less p [] = refl
  count-sort_by less p (x ∷ xs) =
      ground (arith, count-insert_by less p x (sort_by less xs), count-sort_by less p xs)

  -- Each member is not greater than the next.
  abbrev pub not_after : (A → A → Bool) → A → List A → Bool
  not_after less x [] = true
  not_after less x (y ∷ ys) = not (less y x)

  unfoldable pub is_sorted : (A → A → Bool) → List A → Bool
  is_sorted less [] = true
  is_sorted less (x ∷ xs) = elim (not_after less x xs) [ true ↦ is_sorted less xs | false ↦ false ]

  is_sorted-insert_by :
      (less : A → A → Bool) (x : A) (xs : List A)
      → ((a b : A) → less a b ≡ true → less b a ≡ false)
      → is_sorted less xs ≡ true
      → is_sorted less (insert_by less x xs) ≡ true
  unfolding is_sorted insert_by
  is_sorted-insert_by less x [] asym h = refl
  is_sorted-insert_by less x (y ∷ []) asym h = ground (arith, asym y x)
  is_sorted-insert_by less x (y ∷ z ∷ zs) asym h =
      ground (arith, asym y x, is_sorted-insert_by less x (z ∷ zs) asym)

  -- The result is in order.
  pub is_sorted-sort_by :
      (less : A → A → Bool) (xs : List A)
      → ((a b : A) → less a b ≡ true → less b a ≡ false)
      → is_sorted less (sort_by less xs) ≡ true
  unfolding is_sorted sort_by
  is_sorted-sort_by less [] asym = refl
  is_sorted-sort_by less (x ∷ xs) asym =
      is_sorted-insert_by less x (sort_by less xs) asym (is_sorted-sort_by less xs asym)
