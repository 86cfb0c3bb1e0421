-- ===== src/Worker.antt =====
-- `run_forever` of scheduler.py: a tick, a sleep in slices of half a second, and again, until a
-- signal asks to stop. What happens around the loop is a list of rounds.
pub mod Stops
use personal_deadline_manage.Common.{
  ℕ, zero, suc, ◌+◌, ◌*◌, Bool, true, false, Option, none, some, List, [], ◌∷◌,
}
use personal_deadline_manage.Model.{Moment, Task, Reminder}
use personal_deadline_manage.Store.{Db, Event}
use personal_deadline_manage.SchedulerModule.{run_once}

-- When SIGINT or SIGTERM arrives in a round: not at all, during the tick, or during the sleep after
-- some whole slices; a later one arrives at the end of the sleep.
pub data Signal : Type 0 where
  never during_tick : Signal
  during_sleep : ℕ → Signal

-- The time that the round reads, what the database does in it, and its signal.
pub record Round : Type 0 where
  pub now : Moment
  pub world : List Event
  pub signal : Signal

-- `while remaining > 0 and not shutdown_requested`: the slices that are slept. `remaining` is in
-- slices; the interval is a whole number of seconds, so that every chunk is one slice.
unfoldable pub sleep : ℕ → Option ℕ → ℕ
sleep zero arrives = 0
sleep (suc remaining) none = suc (sleep remaining none)
sleep (suc remaining) (some zero) = 1
sleep (suc remaining) (some (suc k)) = suc (sleep remaining (some k))

-- How the loop stands after the rounds.
pub record Progress : Type 0 where
  pub tables : Db
  pub ticks : ℕ
  pub slept : ℕ
  pub is_running : Bool

abbrev pub halted : Db → ℕ → Progress
halted db slices = record { tables = db; ticks = 1; slept = slices; is_running = false }

abbrev pub one_more : ℕ → Progress → Progress
one_more slices p = record p { ticks = suc p.ticks; slept = slices + p.slept }

module _ (send : Reminder → Task → Bool) (tick_seconds batch_size : ℕ) where
  -- An error of a tick is logged, and the loop goes on.
  abbrev pub ticked : Round → Db → Db
  ticked r db = (run_once send r.now batch_size db r.world).1

  abbrev pub after_tick : Signal → Db → Progress → Progress
  after_tick never db rest = one_more (sleep (tick_seconds * 2) none) rest
  after_tick during_tick db rest = halted db 0
  after_tick (during_sleep k) db rest = halted db (sleep (tick_seconds * 2) (some k))

  unfoldable pub run_forever : List Round → Db → Progress
  unfolding run_once sleep
  run_forever [] db = record { tables = db; ticks = 0; slept = 0; is_running = true }
  run_forever (r ∷ rs) db =
      let rest = run_forever rs (ticked r db) in after_tick r.signal (ticked r db) rest
