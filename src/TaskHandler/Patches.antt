-- ===== src/TaskHandler/Patches.antt =====
-- What a PATCH of a task does when nothing disturbs it.
use mathlib.Core.Path.{subst}
use personal_deadline_manage.Common.{
  ◌≡◌, refl, sym, ap, ◌∙◌, false, Option, none, some, [], arith, Bool-cases, inl, inr,
}
use personal_deadline_manage.Common.Int.{ℤ, pos, ltb_ℤ}
use personal_deadline_manage.Model.{Uuid, Text, Moment, Task, Column, known}
use personal_deadline_manage.Store.{ok, Db, open_session, statement, commit, transact}
use personal_deadline_manage.Store.Rows.{row, put, id-row, row-put_self}
use personal_deadline_manage.Store.TaskRepository.{task_id, touch, update_task_row}
use personal_deadline_manage.TaskService
use personal_deadline_manage.TaskService.{
  Field, unset, given, TaskPatch, assign, is_past, bad_duration,
}
use personal_deadline_manage.TaskModule
use personal_deadline_manage.Parameters.{
  Json, null, composite, text, integer, Parsed, aware, malformed, naive, beyond,
}
use personal_deadline_manage.TaskHandler.{
  TaskUpdateRequest, update_duration_must_be_positive_or_none, patch_of, update_task, argument,
  column_of, from_domain, deadline_must_be_aware, description_must_be_str_or_none,
}

-- The schema has refused what the service would refuse of a duration.
duration_accepted :
    (v : Field Json) (d : Field (Option ℤ))
    → update_duration_must_be_positive_or_none v ≡ ok d
    → bad_duration d ≡ false
unfolding update_duration_must_be_positive_or_none
duration_accepted unset d h =
    let same : unset ≡ d = cc in subst (λ e. bad_duration e ≡ false) same refl
duration_accepted (given null) d h =
    let same : given none ≡ d = cc in subst (λ e. bad_duration e ≡ false) same refl
duration_accepted (given composite) d h = absurd (ground arith)
duration_accepted (given (text t)) d h = absurd (ground arith)
duration_accepted (given (integer i)) d h = elim (Bool-cases (ltb_ℤ (pos 0) i)) [
  | inl positive ↦
      (let kept : ok (given (some i)) ≡ ok d = rw positive at h in
        let same : given (some i) ≡ d = cc in
        subst (λ e. bad_duration e ≡ false) same (ground (arith, positive)))
  | inr other ↦ absurd (ground (arith, h, other))
]

-- The columns after an update are those that were assigned.
module _ (now : Moment) (change : Task → Task) (t : Task) where
  abbrev touched : Task
  touched = touch now change t

  task_id-touch : (change t).id ≡ t.id → touched.id ≡ t.id
  unfolding touch
  task_id-touch h = ground (arith, h)

  record Touches : Type 0 where
    pub task_name : touched.task_name ≡ (change t).task_name
    pub description : touched.description ≡ (change t).description
    pub deadline : touched.deadline ≡ (change t).deadline
    pub duration_minutes : touched.duration_minutes ≡ (change t).duration_minutes
    pub priority : touched.priority ≡ (change t).priority
    pub status : touched.status ≡ (change t).status
    pub created_at : touched.created_at ≡ (change t).created_at

  touch-Touches : Touches
  unfolding touch
  touch-Touches = record {
    task_name = ground arith;
    description = ground arith;
    deadline = ground arith;
    duration_minutes = ground arith;
    priority = ground arith;
    status = ground arith;
    created_at = ground arith;
  }

update_calm :
    (now : Moment) (k : Uuid) (patch : TaskPatch) (db : Db) (t : Task)
    → row task_id k db.tasks ≡ some t
    → is_past now patch.deadline ≡ false
    → bad_duration patch.duration_minutes ≡ false
    → TaskModule.update_task now k patch (open_session db []) ≡ (
      ok (touch now (assign patch) t),
      open_session (record db { tasks = put task_id (touch now (assign patch) t) db.tasks }) [],
    )
unfolding TaskModule.update_task TaskService.update_task TaskService.get_task update_task_row
    statement commit transact
update_calm now k patch db t here fine fits = rw (here, fine, fits) (rw here refl)

-- What a field of a request makes of a column: an omitted one leaves it as it was; a null leaves a
-- column that is required, and clears a description or a duration.
abbrev pub or_old : {A : Type 0} → Field (Option A) → A → A
or_old unset old = old
or_old (given none) old = old
or_old (given (some new)) old = new

abbrev pub or_column : {E : Type 0} → Field (Option E) → Column E → Column E
or_column unset old = old
or_column (given none) old = old
or_column (given (some new)) old = known new

abbrev pub or_moment : Field (Option Parsed) → Moment → Moment
or_moment (given (some (aware new))) old = new
or_moment field old = old

abbrev pub or_description : Field Json → Option Text → Option Text
or_description unset old = old
or_description (given (text new)) old = some new
or_description (given v) old = none

abbrev pub or_duration : Field Json → Option ℤ → Option ℤ
or_duration unset old = old
or_duration (given (integer new)) old = some new
or_duration (given v) old = none

pub record Patched (request : TaskUpdateRequest) (old new : Task) : Type 0 where
  pub id : new.id ≡ old.id
  pub task_name : new.task_name ≡ or_old request.task_name old.task_name
  pub description : new.description ≡ or_description request.description old.description
  pub deadline : new.deadline ≡ or_moment request.deadline old.deadline
  pub priority : new.priority ≡ or_column request.priority old.priority
  pub status : new.status ≡ or_column request.status old.status
  pub duration_minutes :
      new.duration_minutes ≡ or_duration request.duration_minutes old.duration_minutes
  pub created_at : new.created_at ≡ old.created_at

name_set :
    (v : Field (Option Text)) (old : Text) → TaskService.or_keep (argument v) old ≡ or_old v old
name_set unset old = refl
name_set (given none) old = refl
name_set (given (some new)) old = refl

column_set :
    {E : Type 0} (v : Field (Option E)) (old : Column E)
    → TaskService.or_keep (column_of (argument v)) old ≡ or_column v old
column_set unset old = refl
column_set (given none) old = refl
column_set (given (some new)) old = refl

deadline_set :
    (v : Field (Option Parsed)) (t : Option Moment) (old : Moment)
    → deadline_must_be_aware v ≡ ok t
    → TaskService.or_keep t old ≡ or_moment v old
unfolding deadline_must_be_aware
deadline_set unset t old h = ground (arith, h)
deadline_set (given none) t old h = ground (arith, h)
deadline_set (given (some malformed)) t old h = absurd (ground arith)
deadline_set (given (some naive)) t old h = absurd (ground arith)
deadline_set (given (some beyond)) t old h = absurd (ground arith)
deadline_set (given (some (aware new))) t old h = ground (arith, h)

description_set :
    (v : Field Json) (d : Field (Option Text)) (old : Option Text)
    → description_must_be_str_or_none v ≡ ok d
    → TaskService.or_unset d old ≡ or_description v old
unfolding description_must_be_str_or_none
description_set unset d old h = ground (arith, h)
description_set (given null) d old h = ground (arith, h)
description_set (given (text t)) d old h = ground (arith, h)
description_set (given composite) d old h = absurd (ground arith)
description_set (given (integer i)) d old h = absurd (ground arith)

duration_set :
    (v : Field Json) (d : Field (Option ℤ)) (old : Option ℤ)
    → update_duration_must_be_positive_or_none v ≡ ok d
    → TaskService.or_unset d old ≡ or_duration v old
unfolding update_duration_must_be_positive_or_none
duration_set unset d old h = ground (arith, h)
duration_set (given null) d old h = ground (arith, h)
duration_set (given (text t)) d old h = absurd (ground arith)
duration_set (given composite) d old h = absurd (ground arith)
duration_set (given (integer i)) d old h = ground (arith, h)

module _ (now : Moment) (request : TaskUpdateRequest) (deadline : Option Moment)
    (description : Field (Option Text)) (duration : Field (Option ℤ)) where
  abbrev pub patch : TaskPatch
  patch = record {
    task_name = argument request.task_name;
    description = description;
    deadline = deadline;
    priority = column_of (argument request.priority);
    status = column_of (argument request.status);
    duration_minutes = duration;
  }

  touch-Patched :
      (t : Task)
      → deadline_must_be_aware request.deadline ≡ ok deadline
      → description_must_be_str_or_none request.description ≡ ok description
      → update_duration_must_be_positive_or_none request.duration_minutes ≡ ok duration
      → Patched request t (touch now (assign patch) t)
  unfolding assign
  touch-Patched t hd hs hm =
      let same = touch-Touches now (assign patch) t in
      record {
        id = task_id-touch now (assign patch) t refl;
        task_name = same.task_name ∙ name_set request.task_name t.task_name;
        description =
            same.description ∙ description_set request.description description t.description hs;
        deadline = same.deadline ∙ deadline_set request.deadline deadline t.deadline hd;
        priority = same.priority ∙ column_set request.priority t.priority;
        status = same.status ∙ column_set request.status t.status;
        duration_minutes =
            same.duration_minutes
            ∙ duration_set request.duration_minutes duration t.duration_minutes hm;
        created_at = same.created_at;
      }

  update_task_calm :
      (k : Uuid) (db : Db) (t : Task)
      → deadline_must_be_aware request.deadline ≡ ok deadline
      → description_must_be_str_or_none request.description ≡ ok description
      → update_duration_must_be_positive_or_none request.duration_minutes ≡ ok duration
      → is_past now deadline ≡ false
      → row task_id k db.tasks ≡ some t
      → (new : Task) → new ≡ touch now (assign patch) t
      → row task_id new.id (put task_id new db.tasks) ≡ some new
      → update_task now k request (open_session db []) ≡ (
        record { status_code = 200; data_given = some new },
        open_session (record db { tasks = put task_id new db.tasks }) [],
      )
  unfolding update_task patch_of from_domain statement
  update_task_calm k db t hd hs hm fine here new is back =
      let runs = rw (sym is) at (
        update_calm now k patch db t here fine
          (duration_accepted request.duration_minutes duration hm)) in
      rw (hd, hs, hm) (rw runs (rw back refl))

  -- An undisturbed PATCH of a stored task, whose given deadline is an aware datetime that is not
  -- past, whose given description is a text or null and whose given duration is positive or null,
  -- answers 200 with the row that it commits: each given field is set, where null clears a
  -- description or a duration and leaves any other field, and each omitted field is as it was.
  pub update_task-Patched :
      (k : Uuid) (db : Db) (t : Task)
      → deadline_must_be_aware request.deadline ≡ ok deadline
      → description_must_be_str_or_none request.description ≡ ok description
      → update_duration_must_be_positive_or_none request.duration_minutes ≡ ok duration
      → is_past now deadline ≡ false
      → row task_id k db.tasks ≡ some t
      → (new : Task) × ((update_task now k request (open_session db [])).0
          ≡ record { status_code = 200; data_given = some new })
        × (row task_id k (update_task now k request (open_session db [])).1.committed.tasks
            ≡ some new)
        × Patched request t new
  update_task-Patched k db t hd hs hm fine here =
      let new = touch now (assign patch) t in
      let kept = task_id-touch now (assign patch) t (unfold assign in refl) in
      let same : new.id ≡ k = kept ∙ id-row task_id k db.tasks t here in
      let found : row task_id new.id db.tasks ≡ some t = rw same here in
      let back : row task_id new.id (put task_id new db.tasks) ≡ some new =
        row-put_self task_id new db.tasks t found in
      let stored : row task_id k (put task_id new db.tasks) ≡ some new =
        subst (λ j. row task_id j (put task_id new db.tasks) ≡ some new) same back in
      let runs = update_task_calm k db t hd hs hm fine here new refl back in
      (new, ap (λ r. r.0) runs, rw runs stored, touch-Patched t hd hs hm)
