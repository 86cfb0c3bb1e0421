-- ===== src/Workload/Reports.antt =====
-- A report on groups: those with a property, one entry for each, in the order of their keys.
use personal_deadline_manage.Common.{
  ℕ, ◌≡◌, refl, ◌∙◌, Bool, true, false, Option, none, some, List, [], ◌∷◌, map, arith,
  if◌then◌else◌, filter, All, ltb, Bool-cases, inl, inr,
}
use personal_deadline_manage.Common.Order.{nat_order}
use personal_deadline_manage.Common.Sort.{sort_by, IsSorted, sort_by-IsSorted}
use personal_deadline_manage.Store.Rows.{row, HasKeys, filter-HasKeys}
use personal_deadline_manage.Store.Queries.{row-filter, row-sort_by, sort_by-HasKeys}
use personal_deadline_manage.Workload.Groups.{
  group_key, collect, under, group_of, row-collect, collect-HasKeys,
}

abbrev pub map_option : {A B : Type 0} → (A → B) → Option A → Option B
map_option f none = none
map_option f (some a) = some (f a)

abbrev pub keep_if : {A : Type 0} → (A → Bool) → Option A → Option A
keep_if p none = none
keep_if p (some a) = if p a then some a else none

-- The entries, each once and in order; `entry k` is the one that there is to be for `k`.
pub record Reports {B : Type 0} (id : B → ℕ) (entry : ℕ → Option B) (bs : List B) : Type 0 where
  pub entries : (k : ℕ) → row id k bs ≡ entry k
  pub distinct : HasKeys id bs
  pub in_order : IsSorted id bs

module _ {R B : Type 0} (key : R → ℕ) (id : B → ℕ) (make : R → B)
    (same : (r : R) → id (make r) ≡ key r) where
  pub row-map : (k : ℕ) (rs : List R) → row id k (map make rs) ≡ map_option make (row key k rs)
  row-map k [] = refl
  row-map k (r ∷ rs) = ground (arith, same r, row-map k rs)

  pub map-HasKeys : (rs : List R) → HasKeys key rs → HasKeys id (map make rs)
  map-HasKeys [] h = tt
  map-HasKeys (r ∷ rs) h = ground (arith, same r, row-map (key r) rs, map-HasKeys rs h.1)

  not_before :
      (p : R → Bool) (x : R) (rs : List R)
      → All (λ r. ltb (key r) (key x) ≡ false) rs
      → All (λ b. ltb (id b) (id (make x)) ≡ false) (map make (filter p rs))
  not_before p x [] h = tt
  not_before p x (r ∷ rs) h = elim (Bool-cases (p r)) [
    | inl kept ↦ rw kept ((ground (arith, h.0, same r, same x), not_before p x rs h.1))
    | inr left_out ↦ rw left_out (not_before p x rs h.1)
  ]

  pub filter-IsSorted :
      (p : R → Bool) (rs : List R) → IsSorted key rs → IsSorted id (map make (filter p rs))
  filter-IsSorted p [] h = tt
  filter-IsSorted p (r ∷ rs) h = elim (Bool-cases (p r)) [
    | inl kept ↦ rw kept ((not_before p r rs h.0, filter-IsSorted p rs h.1))
    | inr left_out ↦ rw left_out (filter-IsSorted p rs h.1)
  ]

module _ {A B : Type 0} (key : A → Option ℕ) (id : B → ℕ) (make : ℕ × List A → B)
    (same : (g : ℕ × List A) → id (make g) ≡ g.0) (p : ℕ × List A → Bool) (xs : List A) where
  abbrev kept : List (ℕ × List A)
  kept = filter p (collect key xs [])

  kept_keys : HasKeys group_key kept
  kept_keys = filter-HasKeys group_key p (collect key xs []) (collect-HasKeys key xs)

  made_keys : HasKeys id (map make kept)
  made_keys = map-HasKeys group_key id make same kept kept_keys

  row-kept : (k : ℕ) → row group_key k kept ≡ keep_if p (group_of k (under key k xs))
  row-kept k =
      row-filter group_key p k (collect key xs []) (collect-HasKeys key xs)
      ∙ ground (arith, row-collect key k xs)

  pub sort_by-Reports :
      Reports id
        (λ k. map_option make (keep_if p (group_of k (under key k xs))))
        (sort_by id (map make kept))
  sort_by-Reports = record {
    entries = λ k.
        row-sort_by id id k (map make kept) made_keys
        ∙ row-map group_key id make same k kept
        ∙ ground (arith, row-kept k);
    distinct = sort_by-HasKeys id id (map make kept) made_keys;
    in_order = sort_by-IsSorted id (map make kept);
  }

-- An entry for the items `ts` under `k`, where a group without items has none.
pub entry_of :
    {A B : Type 0} (make : ℕ × List A → B) (p : ℕ × List A → Bool) (k : ℕ) (ts : List A)
    → p (k, []) ≡ false
    → map_option make (keep_if p (group_of k ts))
      ≡ (if p (k, ts) then some (make (k, ts)) else none)
entry_of make p k [] h = ground (arith, h)
entry_of make p k (t ∷ ts) h = ground (arith)

pub filter_all : {A : Type 0} (xs : List A) → filter (λ x. true) xs ≡ xs
filter_all [] = refl
filter_all (x ∷ xs) = ground (arith, filter_all xs)

pub Reports_mono :
    {B : Type 0} (id : B → ℕ) (f g : ℕ → Option B) (bs : List B)
    → ((k : ℕ) → f k ≡ g k)
    → Reports id f bs
    → Reports id g bs
Reports_mono id f g bs same r = record {
  entries = λ k. r.entries k ∙ same k;
  distinct = r.distinct;
  in_order = r.in_order;
}
