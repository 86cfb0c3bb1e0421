-- ===== src/Common/Sort.antt =====
-- Python's `sorted(xs, key=f)`: a stable sort, as an insertion sort over an ordered key.
use Prim.Native.Nat.{suc}
use mathlib.Core.Path.{◌≡◌, refl}
use mathlib.Core.Logic.{inl, inr}
use mathlib.Core.Bool.{false}
use mathlib.Core.List.{List, [], ◌∷◌, Perm}
use mathlib.Core.List.Perm
use native.Mathlib.Omega.{arith}
use package.personal_deadline_manage.Common.Tests.{if◌then◌else◌, Bool-cases}
use package.personal_deadline_manage.Common.Lists.{length, All}
use package.personal_deadline_manage.Common.Order.{Order}

module _ {ℓ κ} {A : Type ℓ} {K : Type κ} ⦃o : Order K⦄ (key : A → K) where
  -- Ahead of the first element that is not smaller, so that equal keys keep their order.
  unfoldable pub insert_by : A → List A → List A
  insert_by x [] = x ∷ []
  insert_by x (y ∷ ys) =
      let rest = insert_by x ys in if o.lt (key y) (key x) then y ∷ rest else x ∷ y ∷ ys

  unfoldable pub sort_by : List A → List A
  unfolding insert_by
  sort_by [] = []
  sort_by (x ∷ xs) = insert_by x (sort_by xs)

  -- No later element has a smaller key.
  abbrev pub IsSorted : List A → Type 0
  IsSorted [] = Unit
  IsSorted (x ∷ xs) = All (λ y. o.lt (key y) (key x) ≡ false) xs × IsSorted xs

  pub length-insert_by : (x : A) (xs : List A) → length (insert_by x xs) ≡ suc (length xs)
  unfolding insert_by
  length-insert_by x [] = refl
  length-insert_by x (y ∷ ys) = ground (arith, length-insert_by x ys)

  pub length-sort_by : (xs : List A) → length (sort_by xs) ≡ length xs
  unfolding sort_by
  length-sort_by [] = refl
  length-sort_by (x ∷ xs) = ground (arith, length-insert_by x (sort_by xs), length-sort_by xs)

  insert_by-perm : (x : A) (xs : List A) → Perm (insert_by x xs) (x ∷ xs)
  unfolding insert_by
  insert_by-perm x [] = Perm.refl (x ∷ [])
  insert_by-perm x (y ∷ ys) = elim (Bool-cases (o.lt (key y) (key x))) [
    | inl smaller ↦ rw smaller (Perm.trans (Perm.cons y (insert_by-perm x ys)) (Perm.swap x y ys))
    | inr level ↦ rw level (Perm.refl (x ∷ y ∷ ys))
  ]

  -- A sort loses and repeats nothing.
  pub sort_by-perm : (xs : List A) → Perm (sort_by xs) xs
  unfolding sort_by
  sort_by-perm [] = Perm.refl []
  sort_by-perm (x ∷ xs) = Perm.trans (insert_by-perm x (sort_by xs)) (Perm.cons x (sort_by-perm xs))

module _ {ℓ κ ι} {A : Type ℓ} {K : Type κ} ⦃o : Order K⦄ (P : A → Type ι) (key : A → K) where
  pub All-insert_by : (x : A) (xs : List A) → P x → All P xs → All P (insert_by key x xs)
  unfolding insert_by
  All-insert_by x [] p h = (p, tt)
  All-insert_by x (y ∷ ys) p h = elim (Bool-cases (o.lt (key y) (key x))) [
    | inl smaller ↦ rw smaller ((h.0, All-insert_by x ys p h.1))
    | inr level ↦ rw level ((p, h))
  ]

  -- What holds of every element holds after sorting.
  pub All-sort_by : (xs : List A) → All P xs → All P (sort_by key xs)
  unfolding sort_by
  All-sort_by [] h = tt
  All-sort_by (x ∷ xs) h = All-insert_by x (sort_by key xs) h.0 (All-sort_by xs h.1)

module _ {ℓ κ} {A : Type ℓ} {K : Type κ} ⦃o : Order K⦄ (key : A → K) where
  not_smaller_trans :
      (x y : A) (ys : List A)
      → o.lt (key y) (key x) ≡ false
      → All (λ z. o.lt (key z) (key y) ≡ false) ys
      → All (λ z. o.lt (key z) (key x) ≡ false) ys
  not_smaller_trans x y [] h hs = tt
  not_smaller_trans x y (z ∷ zs) h hs =
      (o.not_lt_trans (key x) (key y) (key z) h hs.0, not_smaller_trans x y zs h hs.1)

  insert_by-IsSorted : (x : A) (xs : List A) → IsSorted key xs → IsSorted key (insert_by key x xs)
  unfolding insert_by
  insert_by-IsSorted x [] s = (tt, tt)
  insert_by-IsSorted x (y ∷ ys) s = elim (Bool-cases (o.lt (key y) (key x))) [
    | inl smaller ↦ rw smaller (
        (
          All-insert_by _ key x ys (o.asym (key y) (key x) smaller) s.0,
          insert_by-IsSorted x ys s.1,
        ))
    | inr level ↦ rw level (((level, not_smaller_trans x y ys level s.0), s))
  ]

  -- A sorted list is in the order of its keys.
  pub sort_by-IsSorted : (xs : List A) → IsSorted key (sort_by key xs)
  unfolding sort_by
  sort_by-IsSorted [] = tt
  sort_by-IsSorted (x ∷ xs) = insert_by-IsSorted x (sort_by key xs) (sort_by-IsSorted xs)
