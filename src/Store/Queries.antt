-- ===== src/Store/Queries.antt =====
-- Rows by id under the clauses of a query: WHERE, ORDER BY and LIMIT.
use personal_deadline_manage.Common.{
  ℕ, zero, suc, ◌≡◌, refl, ◌∙◌, Bool, false, inl, inr, none, some, List, [], ◌∷◌, ◌==◌, length, ap,
  arith, if◌then◌else◌, Bool-cases, ==_iff, filter, take, All, All-mono, All-take,
}
use personal_deadline_manage.Common.Order.{Order}
use personal_deadline_manage.Common.Sort.{insert_by, sort_by, IsSorted}
use personal_deadline_manage.Store.Rows.{row, HasKeys, All-row, row-filter-none}

module _ {R : Type 0} (id : R → ℕ) where
  apart :
      (x r : R) (rs : List R)
      → row id (id x) rs ≡ none
      → row id (id r) rs ≡ some r
      → row id (id r) (x ∷ rs) ≡ some r
  apart x r rs free here = elim (Bool-cases (id x == id r)) [
    | inl same ↦ cc (free, here, (==_iff (id x) (id r)).0 same)
    | inr other ↦ rw other here
  ]

  -- Every row is found under its own id.
  pub All-row_self : (rs : List R) → HasKeys id rs → All (λ r. row id (id r) rs ≡ some r) rs
  All-row_self [] h = tt
  All-row_self (x ∷ rs) h = (
    ground arith,
    All-mono (λ r. row id (id r) rs ≡ some r) (λ r. row id (id r) (x ∷ rs) ≡ some r)
        (λ r e. apart x r rs h.0 e) rs (All-row_self rs h.1),
  )

  pub row-filter :
      (p : R → Bool) (k : ℕ) (rs : List R)
      → HasKeys id rs
      → row id k (filter p rs)
        ≡ elim (row id k rs) [ none ↦ none | some r ↦ if p r then some r else none ]
  row-filter p k [] h = refl
  row-filter p k (r ∷ rs) h = ground (arith, row-filter p k rs h.1, row-filter-none id p k rs)

module _ {R K : Type 0} (id : R → ℕ) ⦃o : Order K⦄ (key : R → K) where
  row-insert_by :
      (k : ℕ) (x : R) (rs : List R)
      → row id (id x) rs ≡ none
      → row id k (insert_by key x rs) ≡ row id k (x ∷ rs)
  unfolding insert_by
  row-insert_by k x [] h = refl
  row-insert_by k x (y ∷ ys) h = ground (arith, row-insert_by k x ys)

  insert_by-HasKeys :
      (x : R) (rs : List R)
      → row id (id x) rs ≡ none
      → HasKeys id rs
      → HasKeys id (insert_by key x rs)
  unfolding insert_by
  insert_by-HasKeys x [] h k = (refl, tt)
  insert_by-HasKeys x (y ∷ ys) h k =
      ground (arith, row-insert_by (id y) x ys, insert_by-HasKeys x ys)

  -- Sorting moves rows and changes none.
  pub row-sort_by : (k : ℕ) (rs : List R) → HasKeys id rs → row id k (sort_by key rs) ≡ row id k rs
  unfolding sort_by
  row-sort_by k [] h = refl
  row-sort_by k (x ∷ rs) h =
      row-insert_by k x (sort_by key rs) (row-sort_by (id x) rs h.1 ∙ h.0)
      ∙ ground (arith, row-sort_by k rs h.1)

  pub sort_by-HasKeys : (rs : List R) → HasKeys id rs → HasKeys id (sort_by key rs)
  unfolding sort_by
  sort_by-HasKeys [] h = tt
  sort_by-HasKeys (x ∷ rs) h =
      insert_by-HasKeys x (sort_by key rs) (row-sort_by (id x) rs h.1 ∙ h.0)
        (sort_by-HasKeys rs h.1)

  -- What LIMIT leaves out does not come before what it keeps.
  pub take_first :
      (n k : ℕ) (rs : List R) (r : R)
      → IsSorted key rs
      → row id k rs ≡ some r
      → row id k (take n rs) ≡ none
      → All (λ d. o.lt (key r) (key d) ≡ false) (take n rs)
  take_first zero k rs r s here out = tt
  take_first (suc n) k [] r s here out = tt
  take_first (suc n) k (x ∷ rs) r s here out =
      let other : (id x == k) ≡ false = ground arith in
      let rest : row id k rs ≡ some r = rw other at here in
      (
        All-row id (λ d. o.lt (key d) (key x) ≡ false) k rs r s.0 rest,
        take_first n k rs r s.1 rest (rw other at out),
      )

module _ {R : Type 0} (id : R → ℕ) where
  pub row-take-none : (n k : ℕ) (rs : List R) → row id k rs ≡ none → row id k (take n rs) ≡ none
  row-take-none zero k rs h = refl
  row-take-none (suc n) k [] h = refl
  row-take-none (suc n) k (x ∷ rs) h = ground (arith, row-take-none n k rs)

  pub take-HasKeys : (n : ℕ) (rs : List R) → HasKeys id rs → HasKeys id (take n rs)
  take-HasKeys zero rs h = tt
  take-HasKeys (suc n) [] h = tt
  take-HasKeys (suc n) (x ∷ rs) h = (row-take-none n (id x) rs h.0, take-HasKeys n rs h.1)

  -- Rows are left out only if the limit is reached.
  pub take_full :
      (n k : ℕ) (rs : List R) (r : R)
      → row id k rs ≡ some r
      → row id k (take n rs) ≡ none
      → length (take n rs) ≡ n
  take_full zero k rs r here out = refl
  take_full (suc n) k [] r here out = cc
  take_full (suc n) k (x ∷ rs) r here out =
      let other : (id x == k) ≡ false = ground arith in
      ap suc (take_full n k rs r (rw other at here) (rw other at out))

module _ {R K : Type 0} ⦃o : Order K⦄ (key : R → K) where
  pub take-IsSorted : (n : ℕ) (rs : List R) → IsSorted key rs → IsSorted key (take n rs)
  take-IsSorted zero rs s = tt
  take-IsSorted (suc n) [] s = tt
  take-IsSorted (suc n) (x ∷ rs) s =
      (All-take (λ y. o.lt (key y) (key x) ≡ false) n rs s.0, take-IsSorted n rs s.1)
