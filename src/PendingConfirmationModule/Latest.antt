-- ===== src/PendingConfirmationModule/Latest.antt =====
-- What `get_latest_pending` finds.
use mathlib.Core.Path.{subst}
use personal_deadline_manage.Common.{
  ◌≡◌, refl, ◌∙◌, true, false, inl, inr, Option, none, some, List, [], ◌∷◌, arith, filter,
  All-filter, All, Bool-cases,
}
use personal_deadline_manage.Common.Order.{nat_order, pair_order}
use personal_deadline_manage.Common.Sort.{IsSorted, sort_by, sort_by-IsSorted, All-sort_by}
use personal_deadline_manage.Model.{Uuid, PendingConfirmation}
use personal_deadline_manage.Store.{Result, ok, err, Db, open_session, statement}
use personal_deadline_manage.Store.Rows.{row, HasKeys, All-row, filter-HasKeys}
use personal_deadline_manage.Store.Queries.{row-filter, row-sort_by, All-row_self}
use personal_deadline_manage.Store.ConfirmationRepository.{
  confirmation_id, pending_of, age_key, last, latest_row,
}
use personal_deadline_manage.PendingConfirmationModule.{get_latest_pending}

-- `c` is at least as new as `d`: it was not created before it, nor at its time with a smaller id.
abbrev pub NotOlder : PendingConfirmation → PendingConfirmation → Type 0
NotOlder c d = pair_order.lt (age_key c) (age_key d) ≡ false

NotOlder-self : (c : PendingConfirmation) → NotOlder c c
NotOlder-self c = ground arith

All-last :
    (P : PendingConfirmation → Type 0) (cs : List PendingConfirmation) (c : PendingConfirmation)
    → All P cs
    → last cs ≡ some c
    → P c
All-last P [] c h e = cc
All-last P (x ∷ []) c h e = let same : x ≡ c = cc in subst P same h.0
All-last P (x ∷ y ∷ cs) c h e = All-last P (y ∷ cs) c h.1 e

last-NotOlder :
    (cs : List PendingConfirmation) (c : PendingConfirmation)
    → IsSorted age_key cs
    → last cs ≡ some c
    → All (NotOlder c) cs
last-NotOlder [] c s e = tt
last-NotOlder (x ∷ []) c s e =
    let same : x ≡ c = cc in (subst (λ d. NotOlder d x) same (NotOlder-self x), tt)
last-NotOlder (x ∷ y ∷ cs) c s e =
    (All-last (λ d. NotOlder d x) (y ∷ cs) c s.0 e, last-NotOlder (y ∷ cs) c s.1 e)

last-none : (cs : List PendingConfirmation) → last cs ≡ none → cs ≡ []
last-none [] e = refl
last-none (x ∷ []) e = cc
last-none (x ∷ y ∷ cs) e = (let gone = last-none (y ∷ cs) e in cc)

-- The newest PENDING confirmation of the user in the table; none, only if there is none.
abbrev pub Latest : Option Uuid → Db → Option PendingConfirmation → Type 0
Latest user db none =
    (d : PendingConfirmation)
    → row confirmation_id d.id db.confirmations ≡ some d
    → pending_of user d ≡ false
Latest user db (some c) =
    (row confirmation_id c.id db.confirmations ≡ some c)
    × (pending_of user c ≡ true)
    × ((d : PendingConfirmation)
        → row confirmation_id d.id db.confirmations ≡ some d
        → pending_of user d ≡ true
        → NotOlder c d)

module _ (user : Option Uuid) (db : Db) (keys : HasKeys confirmation_id db.confirmations) where
  abbrev candidates : List PendingConfirmation
  candidates = sort_by age_key (filter (pending_of user) db.confirmations)

  row-candidates :
      (d : PendingConfirmation)
      → row confirmation_id d.id db.confirmations ≡ some d
      → pending_of user d ≡ true
      → row confirmation_id d.id candidates ≡ some d
  row-candidates d here mine =
      row-sort_by confirmation_id age_key d.id (filter (pending_of user) db.confirmations)
        (filter-HasKeys confirmation_id (pending_of user) db.confirmations keys)
      ∙ row-filter confirmation_id (pending_of user) d.id db.confirmations keys
      ∙ rw here (rw mine refl)

  abbrev IsCandidate : PendingConfirmation → Type 0
  IsCandidate d = (row confirmation_id d.id db.confirmations ≡ some d) × (pending_of user d ≡ true)

  candidates-IsCandidate : All IsCandidate candidates
  candidates-IsCandidate =
      All-sort_by IsCandidate age_key (filter (pending_of user) db.confirmations) (
        All-filter (λ d. row confirmation_id d.id db.confirmations ≡ some d) IsCandidate
          (pending_of user) (λ d mine here. (here, mine)) db.confirmations
          (All-row_self confirmation_id db.confirmations keys))

  no_candidate :
      last candidates ≡ none
      → (d : PendingConfirmation) → row confirmation_id d.id candidates ≡ some d
      → ⊥
  no_candidate e d there = let nothing = rw (last-none candidates e) at there in cc

  found-Latest :
      (found : Option PendingConfirmation) → last candidates ≡ found → Latest user db found
  found-Latest none e = λ d here. elim (Bool-cases (pending_of user d)) [
    | inl mine ↦ absurd (no_candidate e d (row-candidates d here mine))
    | inr other ↦ other
  ]
  found-Latest (some c) e =
      let taken = All-last IsCandidate candidates c candidates-IsCandidate e in
      (
        taken.0,
        taken.1,
        λ d here mine.
            All-row confirmation_id (NotOlder c) d.id candidates d
              (last-NotOlder candidates c (sort_by-IsSorted age_key _) e)
              (row-candidates d here mine),
      )

  abbrev pub Finds : Result (Option PendingConfirmation) → Type 0
  Finds (ok found) = Latest user db found
  Finds (err e) = ⊥

  -- On confirmations with unique ids, an undisturbed `get_latest_pending` returns; it finds a
  -- PENDING row of the user such that no PENDING row of the user was created later, or at the same
  -- time with a greater id, and finds none only if the user has no PENDING row.
  pub get_latest_pending-Latest : Finds (get_latest_pending user (open_session db [])).0
  unfolding get_latest_pending statement latest_row
  get_latest_pending-Latest = found-Latest (last candidates) refl
