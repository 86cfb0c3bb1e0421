-- ===== src/Worker/Stops.antt =====
-- The loop stops soon after a signal, and not before.
use personal_deadline_manage.Common.{
  ℕ, zero, suc, ◌+◌, ◌*◌, ◌≡◌, refl, ap, ◌∙◌, ◌≢◌, Bool, false, none, some, List, [], ◌∷◌, ◌++◌,
  All, arith, length, ltb, if◌then◌else◌,
}
use personal_deadline_manage.Model.{Task, Reminder}
use personal_deadline_manage.Store.{Db}
use personal_deadline_manage.Store.Keeps.{Respects}
use personal_deadline_manage.Store.WellFormed.{WellFormed}
use personal_deadline_manage.SchedulerModule.Once.{run_once-WellFormed}
use personal_deadline_manage.Worker.{
  Signal, never, during_tick, during_sleep, Round, sleep, Progress, halted, ticked, after_tick,
  run_forever,
}

sleep_whole : (n : ℕ) → sleep n none ≡ n
unfolding sleep
sleep_whole zero = refl
sleep_whole (suc n) = ground (arith, sleep_whole n)

-- Of the slices, those begun when the signal arrives.
sleep_cut : (n k : ℕ) → sleep n (some k) ≡ (if ltb k n then suc k else n)
unfolding sleep
sleep_cut zero k = ground arith
sleep_cut (suc n) zero = ground arith
sleep_cut (suc n) (suc k) = ground (arith, sleep_cut n k)

none_before : (slices last : ℕ) → last ≡ 0 * slices + last
none_before slices last = ground arith

one_round : (n slices last : ℕ) → slices + (n * slices + last) ≡ suc n * slices + last
one_round n slices last = ground arith

-- The loop after a stop.
abbrev pub stopped : Db → ℕ → ℕ → Progress
stopped db ticks slept = record { tables = db; ticks = ticks; slept = slept; is_running = false }

abbrev pub Quiet : Round → Type 0
Quiet r = r.signal ≡ never

-- The slices slept in the round of the signal.
abbrev pub last_sleep : ℕ → Signal → ℕ
last_sleep slices never = slices
last_sleep slices during_tick = 0
last_sleep slices (during_sleep k) = if ltb k slices then suc k else slices

module _ (send : Reminder → Task → Bool) (tick_seconds batch_size : ℕ) where
  -- The tables after the ticks of some rounds.
  abbrev pub after_ticks : List Round → Db → Db
  after_ticks [] db = db
  after_ticks (r ∷ rs) db = after_ticks rs (ticked send tick_seconds batch_size r db)

  halts :
      (signal : Signal) (db : Db) (rest : Progress)
      → signal ≢ never
      → after_tick send tick_seconds batch_size signal db rest
        ≡ halted db (last_sleep (tick_seconds * 2) signal)
  halts never db rest h = absurd (h refl)
  halts during_tick db rest h = refl
  halts (during_sleep k) db rest h = rw (sleep_cut (tick_seconds * 2) k) refl

  -- If a signal arrives in some round and none before, the worker's loop ends in that round: it
  -- has run the ticks up to that round's and none later, has slept the whole interval in each
  -- earlier round, and in that round only the half-second slices up to the one in which the signal
  -- arrives.
  pub run_forever-stops :
      (before : List Round) (r : Round) (after : List Round) (db : Db)
      → All Quiet before
      → r.signal ≢ never
      → run_forever send tick_seconds batch_size (before ++ r ∷ after) db
        ≡ stopped
            (after_ticks (before ++ r ∷ []) db)
            (suc (length before))
            (length before * (tick_seconds * 2) + last_sleep (tick_seconds * 2) r.signal)
  unfolding run_forever
  run_forever-stops [] r after db quiet signalled =
      halts r.signal _ _ signalled
      ∙ ap (stopped (ticked send tick_seconds batch_size r db) 1) (none_before _ _)
  run_forever-stops (q ∷ before) r after db quiet signalled =
      let next = ticked send tick_seconds batch_size q db in
      let slices = tick_seconds * 2 in
      rw (quiet.0, run_forever-stops before r after next quiet.1 signalled, sleep_whole slices)
        (ap (stopped (after_ticks (before ++ r ∷ []) next) (suc (suc (length before))))
          (one_round (length before) slices (last_sleep slices r.signal)))

  after_tick-WellFormed :
      (signal : Signal) (db : Db) (rest : Progress)
      → WellFormed db
      → WellFormed rest.tables
      → WellFormed (after_tick send tick_seconds batch_size signal db rest).tables
  after_tick-WellFormed never db rest w v = v
  after_tick-WellFormed during_tick db rest w v = w
  after_tick-WellFormed (during_sleep k) db rest w v = w

  -- S
  pub run_forever-WellFormed :
      (rounds : List Round) (db : Db)
      → WellFormed db
      → All (λ (r : Round). All (Respects WellFormed) r.world) rounds
      → WellFormed (run_forever send tick_seconds batch_size rounds db).tables
  unfolding run_forever
  run_forever-WellFormed [] db w respects = w
  run_forever-WellFormed (r ∷ rs) db w respects =
      let next = run_once-WellFormed send r.now batch_size db r.world w respects.0 in
      after_tick-WellFormed r.signal _ _ next
        (run_forever-WellFormed rs (ticked send tick_seconds batch_size r db) next respects.1)
