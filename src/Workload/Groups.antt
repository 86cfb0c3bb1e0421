-- ===== src/Workload/Groups.antt =====
-- A `defaultdict(list)` that collects items under a number: its items in the order of insertion.
use personal_deadline_manage.Common.{
  ℕ, ◌≡◌, refl, ◌∙◌, Bool, false, Option, none, some, List, [], ◌∷◌, ◌++◌, arith, ◌==◌,
  if◌then◌else◌, filter,
}
use personal_deadline_manage.Store.Rows.{row, HasKeys}

abbrev pub key_is : ℕ → Option ℕ → Bool
key_is k none = false
key_is k (some j) = j == k

module _ {A : Type 0} where
  abbrev pub group_key : ℕ × List A → ℕ
  group_key g = g.0

  -- `groups[k].append(a)`
  abbrev pub add_to : ℕ → A → List (ℕ × List A) → List (ℕ × List A)
  add_to k a [] = (k, a ∷ []) ∷ []
  add_to k a ((j, xs) ∷ gs) = if j == k then (j, xs ++ a ∷ []) ∷ gs else (j, xs) ∷ add_to k a gs

  -- An item without a key is skipped.
  abbrev pub add_if : Option ℕ → A → List (ℕ × List A) → List (ℕ × List A)
  add_if none a gs = gs
  add_if (some k) a gs = add_to k a gs

module _ {A : Type 0} (key : A → Option ℕ) where
  -- The loop over the items.
  unfoldable pub collect : List A → List (ℕ × List A) → List (ℕ × List A)
  collect [] gs = gs
  collect (a ∷ xs) gs = collect xs (add_if (key a) a gs)

  -- The items that belong under `k`.
  abbrev pub is_under : ℕ → A → Bool
  is_under k a = key_is k (key a)

  abbrev pub under : ℕ → List A → List A
  under k xs = filter (is_under k) xs

module _ {A : Type 0} where
  -- A group that is there once it has an item.
  abbrev pub group_of : ℕ → List A → Option (ℕ × List A)
  group_of k [] = none
  group_of k (a ∷ xs) = some (k, a ∷ xs)

  abbrev grown : Option (ℕ × List A) → ℕ → List A → Option (ℕ × List A)
  grown none k xs = group_of k xs
  grown (some (j, ys)) k xs = some (j, ys ++ xs)

  append_nil : (xs : List A) → xs ++ [] ≡ xs
  append_nil [] = refl
  append_nil (a ∷ xs) = ground (arith, append_nil xs)

  append_assoc : (xs ys zs : List A) → (xs ++ ys) ++ zs ≡ xs ++ (ys ++ zs)
  append_assoc [] ys zs = refl
  append_assoc (a ∷ xs) ys zs = ground (arith, append_assoc xs ys zs)

  row-add_to :
      (k j : ℕ) (a : A) (gs : List (ℕ × List A))
      → row group_key j (add_to k a gs)
        ≡ (if k == j then grown (row group_key j gs) j (a ∷ []) else row group_key j gs)
  row-add_to k j a [] = ground arith
  row-add_to k j a ((i, xs) ∷ gs) = ground (arith, row-add_to k j a gs)

  add_to-HasKeys :
      (k : ℕ) (a : A) (gs : List (ℕ × List A))
      → HasKeys group_key gs
      → HasKeys group_key (add_to k a gs)
  add_to-HasKeys k a [] h = (refl, tt)
  add_to-HasKeys k a ((i, xs) ∷ gs) h =
      ground (arith, row-add_to k i a gs, add_to-HasKeys k a gs h.1)

  grown_grown :
      (g : Option (ℕ × List A)) (k : ℕ) (a : A) (xs : List A)
      → grown (grown g k (a ∷ [])) k xs ≡ grown g k (a ∷ xs)
  grown_grown none k a xs = refl
  grown_grown (some (j, ys)) k a xs = ground (arith, append_assoc ys (a ∷ []) xs)

  grown_nil : (g : Option (ℕ × List A)) (k : ℕ) → grown g k [] ≡ g
  grown_nil none k = refl
  grown_nil (some (j, ys)) k = ground (arith, append_nil ys)

module _ {A : Type 0} where
  row-add_if :
      (o : Option ℕ) (j : ℕ) (a : A) (gs : List (ℕ × List A))
      → row group_key j (add_if o a gs)
        ≡ (if key_is j o then grown (row group_key j gs) j (a ∷ []) else row group_key j gs)
  row-add_if none j a gs = refl
  row-add_if (some k) j a gs = row-add_to k j a gs

  add_if-HasKeys :
      (o : Option ℕ) (a : A) (gs : List (ℕ × List A))
      → HasKeys group_key gs
      → HasKeys group_key (add_if o a gs)
  add_if-HasKeys none a gs h = h
  add_if-HasKeys (some k) a gs h = add_to-HasKeys k a gs h

module _ {A : Type 0} (key : A → Option ℕ) where
  row-collect_from :
      (k : ℕ) (xs : List A) (gs : List (ℕ × List A))
      → row group_key k (collect key xs gs) ≡ grown (row group_key k gs) k (under key k xs)
  unfolding collect
  row-collect_from k [] gs = ground (arith, grown_nil (row group_key k gs) k)
  row-collect_from k (a ∷ xs) gs =
      row-collect_from k xs (add_if (key a) a gs)
      ∙ ground
          (arith, row-add_if (key a) k a gs, grown_grown (row group_key k gs) k a (under key k xs))

  collect_from-HasKeys :
      (xs : List A) (gs : List (ℕ × List A))
      → HasKeys group_key gs
      → HasKeys group_key (collect key xs gs)
  unfolding collect
  collect_from-HasKeys [] gs h = h
  collect_from-HasKeys (a ∷ xs) gs h =
      collect_from-HasKeys xs (add_if (key a) a gs) (add_if-HasKeys (key a) a gs h)

  -- There is a group for every key that an item has, with the items in their order.
  pub row-collect :
      (k : ℕ) (xs : List A) → row group_key k (collect key xs []) ≡ group_of k (under key k xs)
  row-collect k xs = row-collect_from k xs []

  pub collect-HasKeys : (xs : List A) → HasKeys group_key (collect key xs [])
  collect-HasKeys xs = collect_from-HasKeys xs [] tt
