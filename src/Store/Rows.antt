-- ===== src/Store/Rows.antt =====
-- Tables as lists of rows with ids: lookup, update and removal by id.
use mathlib.Core.Path.{subst}
use personal_deadline_manage.Common.{
  Bool-cases, inl, inr, ℕ, suc, ◌≡◌, refl, ◌≢◌, Bool, Option, none, some, List, [], ◌∷◌, ◌++◌,
  arith, ◌==◌, if◌then◌else◌, filter, All,
}

module _ {R : Type 0} (id : R → ℕ) where
  -- `SELECT … WHERE id = k`
  abbrev pub row : ℕ → List R → Option R
  row k [] = none
  row k (r ∷ rs) = if id r == k then some r else row k rs

  -- `UPDATE … WHERE id = k`
  abbrev pub put : R → List R → List R
  put new [] = []
  put new (r ∷ rs) = if id r == id new then new ∷ rs else r ∷ put new rs

  -- `DELETE … WHERE id = k`
  abbrev pub without : ℕ → List R → List R
  without k [] = []
  without k (r ∷ rs) = if id r == k then rs else r ∷ without k rs

  -- The primary key: no two rows have one id.
  abbrev pub HasKeys : List R → Type 0
  HasKeys [] = Unit
  HasKeys (r ∷ rs) = (row (id r) rs ≡ none) × HasKeys rs

  pub row-append :
      (k : ℕ) (rs : List R) (new : R)
      → row k (rs ++ new ∷ [])
        ≡ elim (row k rs) [ some r ↦ some r | none ↦ if id new == k then some new else none ]
  row-append k [] new = refl
  row-append k (r ∷ rs) new = ground (arith, row-append k rs new)

  pub id-row : (k : ℕ) (rs : List R) (r : R) → row k rs ≡ some r → id r ≡ k
  id-row k [] r h = cc
  id-row k (x ∷ rs) r h = ground (arith, id-row k rs r)

  pub row-put_self :
      (new : R) (rs : List R) (r : R)
      → row (id new) rs ≡ some r
      → row (id new) (put new rs) ≡ some new
  row-put_self new [] r h = cc
  row-put_self new (x ∷ rs) r h = ground (arith, row-put_self new rs r)

  pub row-put_ne : (k : ℕ) (new : R) (rs : List R) → id new ≢ k → row k (put new rs) ≡ row k rs
  row-put_ne k new [] h = refl
  row-put_ne k new (x ∷ rs) h = ground (arith, row-put_ne k new rs)

  pub row-put-none : (k : ℕ) (new : R) (rs : List R) → row k rs ≡ none → row k (put new rs) ≡ none
  row-put-none k new [] h = refl
  row-put-none k new (x ∷ rs) h = ground (arith, row-put-none k new rs)

  pub row-put_keeps : (k : ℕ) (new : R) (rs : List R) → row k rs ≢ none → row k (put new rs) ≢ none
  row-put_keeps k new [] h = h
  row-put_keeps k new (x ∷ rs) h = ground (arith, row-put_keeps k new rs)

  pub row-without_ne : (j k : ℕ) (rs : List R) → j ≢ k → row j (without k rs) ≡ row j rs
  row-without_ne j k [] h = refl
  row-without_ne j k (x ∷ rs) h = ground (arith, row-without_ne j k rs)

  pub row-without-none : (j k : ℕ) (rs : List R) → row j rs ≡ none → row j (without k rs) ≡ none
  row-without-none j k [] h = refl
  row-without-none j k (x ∷ rs) h = ground (arith, row-without-none j k rs)

  pub row-without_self : (k : ℕ) (rs : List R) → HasKeys rs → row k (without k rs) ≡ none
  row-without_self k [] h = refl
  row-without_self k (x ∷ rs) h = ground (arith, row-without_self k rs h.1)

  pub append-HasKeys :
      (rs : List R) (new : R) → HasKeys rs → row (id new) rs ≡ none → HasKeys (rs ++ new ∷ [])
  append-HasKeys [] new h free = (refl, tt)
  append-HasKeys (r ∷ rs) new h free =
      ground (arith, row-append (id r) rs new, append-HasKeys rs new h.1)

  pub put-HasKeys : (new : R) (rs : List R) → HasKeys rs → HasKeys (put new rs)
  put-HasKeys new [] h = tt
  put-HasKeys new (r ∷ rs) h = ground (arith, put-HasKeys new rs h.1, row-put-none (id r) new rs)

  pub without-HasKeys : (k : ℕ) (rs : List R) → HasKeys rs → HasKeys (without k rs)
  without-HasKeys k [] h = tt
  without-HasKeys k (r ∷ rs) h =
      ground (arith, without-HasKeys k rs h.1, row-without-none (id r) k rs)

  pub row-filter-none :
      (p : R → Bool) (k : ℕ) (rs : List R) → row k rs ≡ none → row k (filter p rs) ≡ none
  row-filter-none p k [] h = refl
  row-filter-none p k (r ∷ rs) h = ground (arith, row-filter-none p k rs)

  pub filter-HasKeys : (p : R → Bool) (rs : List R) → HasKeys rs → HasKeys (filter p rs)
  filter-HasKeys p [] h = tt
  filter-HasKeys p (r ∷ rs) h = ground (arith, filter-HasKeys p rs h.1, row-filter-none p (id r) rs)

  pub All-row : (P : R → Type 0) (k : ℕ) (rs : List R) (r : R) → All P rs → row k rs ≡ some r → P r
  All-row P k [] r h e = cc
  All-row P k (x ∷ rs) r h e = elim (Bool-cases (id x == k)) [
    | inl same ↦ (let here : x ≡ r = ground arith in subst P here h.0)
    | inr other ↦ All-row P k rs r h.1 (rw other at e)
  ]

  pub All-put : (P : R → Type 0) (new : R) (rs : List R) → P new → All P rs → All P (put new rs)
  All-put P new [] p h = tt
  All-put P new (x ∷ rs) p h = elim (Bool-cases (id x == id new)) [
    | inl same ↦ rw same ((p, h.1))
    | inr other ↦ rw other ((h.0, All-put P new rs p h.1))
  ]

  pub All-without : (P : R → Type 0) (k : ℕ) (rs : List R) → All P rs → All P (without k rs)
  All-without P k [] h = tt
  All-without P k (x ∷ rs) h = elim (Bool-cases (id x == k)) [
    | inl same ↦ rw same h.1
    | inr other ↦ rw other ((h.0, All-without P k rs h.1))
  ]

-- What `UPDATE … SET … WHERE p` does, and the number of rows that it matches.
module _ {R : Type 0} where
  abbrev pub update_where : (R → Bool) → (R → R) → List R → List R
  update_where p set [] = []
  update_where p set (r ∷ rs) = (if p r then set r else r) ∷ update_where p set rs

  abbrev pub count_where : (R → Bool) → List R → ℕ
  count_where p [] = 0
  count_where p (r ∷ rs) = let n = count_where p rs in if p r then suc n else n

module _ {R : Type 0} (id : R → ℕ) (p : R → Bool) (set : R → R) where
  pub row-update_where :
      ((r : R) → id (set r) ≡ id r)
      → (k : ℕ) (rs : List R)
      → row id k (update_where p set rs)
        ≡ elim (row id k rs) [ none ↦ none | some r ↦ some (if p r then set r else r) ]
  row-update_where keep k [] = refl
  row-update_where keep k (r ∷ rs) = ground (arith, keep r, row-update_where keep k rs)

  pub update_where-HasKeys :
      ((r : R) → id (set r) ≡ id r)
      → (rs : List R) → HasKeys id rs
      → HasKeys id (update_where p set rs)
  update_where-HasKeys keep [] h = tt
  update_where-HasKeys keep (r ∷ rs) h =
      ground (arith, keep r, row-update_where keep (id r) rs, update_where-HasKeys keep rs h.1)
