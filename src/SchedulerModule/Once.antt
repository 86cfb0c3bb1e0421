-- ===== src/SchedulerModule/Once.antt =====
-- One tick of the worker, from what is committed before it to what is committed after.
use personal_deadline_manage.Common.{
  ℕ, ap, ◌≡◌, refl, Bool, true, false, inl, inr, Option, none, some, List, [], ◌∷◌, arith, length,
  ltb, All, All-mono, if◌then◌else◌, Bool-cases, Option-cases,
}
use personal_deadline_manage.Model.{Moment, Task, Reminder}
use personal_deadline_manage.Store.{
  Db, Result, ok, err, Event, Session, commit, or_rollback, open_session, pure, ◌>>=◌,
}
use personal_deadline_manage.Store.Atomic.{
  Isolated, isolated_rules, IsQuiet, Settles, commit_event-Settles,
}
use personal_deadline_manage.Store.Keeps.{
  Keeps, Holds, Respects, keeps_rules, Keeps-bind, Keeps-commit, Keeps-pure, or_rollback-Holds,
}
use personal_deadline_manage.Store.WellFormed.{WellFormed, claim-WellFormed}
use personal_deadline_manage.Store.Rows.{row}
use personal_deadline_manage.Store.ReminderRepository.{reminder_id}
use personal_deadline_manage.SchedulerService
use personal_deadline_manage.SchedulerService.{TickResult, Tally, attempt, process, process_all}
use personal_deadline_manage.SchedulerService.Due.{IsDueRow}
use personal_deadline_manage.SchedulerService.Calm.{
  undisturbed, ClaimedRows, claim_all, claim_all-ClaimedRows, due_now, due_now-Selects,
  due_now-Ready, announced, tick-undisturbed,
}
use personal_deadline_manage.SchedulerModule.{conclude, tick, run_once}

module _ (send : Reminder → Task → Bool) (now : Moment) where
  attempt-Isolated :
      (r : Reminder) (t : Option Task) (c : Tally) → Isolated (attempt send now r t c)
  unfolding attempt
  attempt-Isolated r none c = search isolated_rules
  attempt-Isolated r (some t) c = search isolated_rules

  process-Isolated : (r : Reminder) (c : Tally) → Isolated (process send now r c)
  unfolding process
  process-Isolated r c = search (isolated_rules, attempt-Isolated)

  process_all-Isolated : (due : List Reminder) (c : Tally) → Isolated (process_all send now due c)
  unfolding process_all
  process_all-Isolated [] c = search isolated_rules
  process_all-Isolated (r ∷ due) c =
      search (isolated_rules, process-Isolated, process_all-Isolated due)

  service_tick-Isolated : (limit : ℕ) → Isolated (SchedulerService.tick send now limit)
  unfolding SchedulerService.tick
  service_tick-Isolated limit = search (isolated_rules, process_all-Isolated)

module _ (send : Reminder → Task → Bool) (now : Moment) where
  attempt-Keeps :
      (r : Reminder) (t : Option Task) (c : Tally) → Keeps WellFormed (attempt send now r t c)
  unfolding attempt
  attempt-Keeps r none c = search keeps_rules
  attempt-Keeps r (some t) c = search (keeps_rules, claim-WellFormed)

  process-Keeps : (r : Reminder) (c : Tally) → Keeps WellFormed (process send now r c)
  unfolding process
  process-Keeps r c = search (keeps_rules, attempt-Keeps)

  process_all-Keeps :
      (due : List Reminder) (c : Tally) → Keeps WellFormed (process_all send now due c)
  unfolding process_all
  process_all-Keeps [] c = search keeps_rules
  process_all-Keeps (r ∷ due) c = search (keeps_rules, process-Keeps, process_all-Keeps due)

  service_tick-Keeps : (limit : ℕ) → Keeps WellFormed (SchedulerService.tick send now limit)
  unfolding SchedulerService.tick
  service_tick-Keeps limit = search (keeps_rules, process_all-Keeps)

conclude-Holds :
    (r : Result TickResult) (s : Session) → Holds WellFormed s → Holds WellFormed (conclude r s).1
unfolding conclude
conclude-Holds (err e) s h = record {
  committed = h.committed;
  working = h.committed;
  world = h.world;
}
conclude-Holds (ok r) s h = elim (Bool-cases (ltb 0 r.due_count)) [
  | inl some_due ↦ rw some_due (
      or_rollback-Holds WellFormed ((commit >>= λ _. pure r) s) (
        (Keeps-bind WellFormed commit (λ _. pure r) (Keeps-commit WellFormed)
            (λ _. Keeps-pure WellFormed r)).at
          s h))
  | inr nothing ↦ rw nothing h
]

-- If the tables have unique ids and every reminder has its task, and other transactions keep this,
-- then it holds of the committed tables after a tick, whether it returns or raises.
pub run_once-WellFormed :
    (send : Reminder → Task → Bool) (now : Moment) (limit : ℕ) (db : Db) (world : List Event)
    → WellFormed db
    → All (Respects WellFormed) world
    → WellFormed (run_once send now limit db world).1
unfolding run_once tick
run_once-WellFormed send now limit db world w respects =
    let s = SchedulerService.tick send now limit (open_session db world) in
    (conclude-Holds s.0 s.1 (
      (service_tick-Keeps send now limit).at (open_session db world)
        (record { committed = w; working = w; world = respects }))).committed

-- How `conclude` ends, for work that began with the committed tables `before` and ended as `done`.
abbrev pub Concludes : Db → Result TickResult × Session → Result TickResult × Session → Type 0
Concludes before done (err e, s) = s.committed ≡ before
Concludes before done (ok r, s) =
    (done.0 ≡ ok r) × (s.committed ≡ (if ltb 0 r.due_count then done.1.working else before))

commit-Concludes :
    (before : Db) (r : TickResult) (s : Session) (out : Result TickResult × Session)
    → ltb 0 r.due_count ≡ true
    → Settles before (ok r, s) out
    → Concludes before (ok r, s) out
commit-Concludes before r s (err e, s') some_due h = h.0
commit-Concludes before r s (ok r', s') some_due h = ground (arith, h.0, h.1, some_due)

conclude-Concludes :
    (before : Db) (r : Result TickResult) (s : Session)
    → IsQuiet s
    → s.committed ≡ before
    → Concludes before (r, s) (conclude r s)
unfolding conclude
conclude-Concludes before (err e) s q same = same
conclude-Concludes before (ok r) s q same = elim (Bool-cases (ltb 0 r.due_count)) [
  | inl some_due ↦ rw some_due (
      commit-Concludes before r s (or_rollback ((commit >>= λ _. pure r) s)) some_due
        (unfold commit in commit_event-Settles before r s.world s q same))
  | inr nothing ↦ rw nothing ((refl, rw nothing same))
]

module _ (send : Reminder → Task → Bool) (now : Moment) (limit : ℕ) where
  -- Where no other transaction commits meanwhile, a tick that raises leaves the committed tables
  -- as they were; one that returns, returns the service's result and commits the service's writes
  -- if anything was due, and nothing otherwise.
  pub tick-Concludes :
      (s : Session)
      → IsQuiet s
      → Concludes s.committed (SchedulerService.tick send now limit s) (tick send now limit s)
  unfolding tick
  tick-Concludes s q =
      let isolated = service_tick-Isolated send now limit in
      conclude-Concludes s.committed (SchedulerService.tick send now limit s).0
        (SchedulerService.tick send now limit s).1 (isolated.quiet s q) (isolated.committed s q)

nothing_due :
    (now : Moment) (due : List Reminder) (db : Db)
    → ltb 0 (length due) ≡ false
    → ClaimedRows now due db db
nothing_due now [] db h k = refl
nothing_due now (r ∷ due) db h k = absurd (ground (arith, h))

abbrev Announces : (Reminder → Task → Bool) → Moment → ℕ → Db → Result TickResult × Session → Type 0
Announces send now limit db (r, s) =
    (r ≡ ok (announced send now limit db)) × ClaimedRows now (due_now now limit db) db s.committed

module _ (send : Reminder → Task → Bool) (now : Moment) (limit : ℕ) (db : Db)
    (w : WellFormed db) where
  abbrev claimed_db : Db
  claimed_db = claim_all now (due_now now limit db) db

  conclude-announced :
      Announces send now limit db
        (conclude (ok (announced send now limit db)) (undisturbed db claimed_db))
  unfolding conclude
  conclude-announced = elim (Bool-cases (ltb 0 (length (due_now now limit db)))) [
    | inl some_due ↦ rw some_due (
        (
          refl,
          claim_all-ClaimedRows now (due_now now limit db) db
              (due_now-Selects now limit db w).distinct (due_now-Ready now limit db w),
        ))
    | inr nothing ↦ rw nothing ((refl, nothing_due now (due_now now limit db) db nothing))
  ]

  abbrev closed : Result TickResult × Session → Result TickResult × Db
  closed (r, s) = let (r', s') = conclude r s in (r', s'.committed)

  run_once-undisturbed :
      run_once send now limit db []
      ≡ closed (ok (announced send now limit db), undisturbed db claimed_db)
  unfolding run_once tick
  run_once-undisturbed = ap closed (tick-undisturbed now limit db w send db)

  -- A tick that nothing disturbs, on tables with keys, returns the counts of a tick that sends
  -- every reminder that it found due (failed are those on whose task the provider raises), and
  -- commits exactly those reminders as SENT at its time, every other reminder row unchanged.
  pub run_once_announces :
      let (r, db') = run_once send now limit db [] in
      (r ≡ ok (announced send now limit db)) × ClaimedRows now (due_now now limit db) db db'
  run_once_announces = rw run_once-undisturbed conclude-announced

  settled_row :
      (later : Moment) (db' : Db) (r : Reminder)
      → ClaimedRows now (due_now now limit db) db db'
      → IsDueRow later db'.reminders r
      → row reminder_id r.id (due_now now limit db) ≡ none
  settled_row later db' r claimed d =
      elim (Option-cases (row reminder_id r.id (due_now now limit db))) [
        | inl free ↦ free
        | inr (old, announced_already) ↦ ground (arith, d.0, d.1, claimed r.id, announced_already)
      ]

  -- After an undisturbed tick on tables with keys, a tick at any later or earlier time and with
  -- any limit finds none of the announced reminders due.
  pub run_once_settles :
      (later : Moment) (limit' : ℕ)
      → let db' = (run_once send now limit db []).1 in
        All (λ r. row reminder_id r.id (due_now now limit db) ≡ none) (due_now later limit' db')
  run_once_settles later limit' =
      let db' = (run_once send now limit db []).1 in
      All-mono (IsDueRow later db'.reminders)
        (λ r. row reminder_id r.id (due_now now limit db) ≡ none)
        (λ r d. settled_row later db' r run_once_announces.1 d) (due_now later limit' db')
        (due_now-Selects later limit' db' (run_once-WellFormed send now limit db [] w tt)).stored
