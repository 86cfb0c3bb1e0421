-- ===== src/Parameters.antt =====
-- The parameters of an action, a dictionary of JSON values, and the datetimes in them
-- (utils/datetime_utils.py). `fromisoformat` is the standard library's parser.
pub mod Values
use personal_deadline_manage.Common.{
  ℕ, Bool, true, false, ◌&&◌, Option, none, some, List, [], ◌∷◌, ◌++◌, ◌==◌, if◌then◌else◌,
}
use personal_deadline_manage.Common.Int.{ℤ}
use personal_deadline_manage.Model.{Text, Moment, Column, known, unknown}
use personal_deadline_manage.Store.{
  Result, ok, err, naive_datetime, value_error, overflow_error, type_error, attribute_error,
}
use personal_deadline_manage.DateRange.{DateRangeExpression}

-- A JSON value; booleans and numbers with a fraction are left out.
pub data Json : Type 0 where
  null composite : Json
  text : Text → Json
  integer : ℤ → Json

-- The keys that the code reads.
pub data Name : Type 0 where
  task_name description deadline priority status duration_minutes remind_at : Name
  date_range_expression explicit_start explicit_end : Name

abbrev pub name_code : Name → ℕ
name_code task_name = 0
name_code description = 1
name_code deadline = 2
name_code priority = 3
name_code status = 4
name_code duration_minutes = 5
name_code remind_at = 6
name_code date_range_expression = 7
name_code explicit_start = 8
name_code explicit_end = 9

abbrev pub Parameters : Type 0
Parameters = List (Column Name × Json)

abbrev pub is_key : Name → Column Name → Bool
is_key n (known k) = name_code k == name_code n
is_key n (unknown t) = false

-- `params[name]`, if the key is there.
abbrev pub get : Name → Parameters → Option Json
get n [] = none
get n ((k, v) ∷ ps) = if is_key n k then some v else get n ps

-- `params.get(name)`
abbrev pub get_or_null : Name → Parameters → Json
get_or_null n ps = elim (get n ps) [ none ↦ null | some v ↦ v ]

abbrev pub has_key : Name → Parameters → Bool
has_key n ps = elim (get n ps) [ none ↦ false | some v ↦ true ]

abbrev pub text_eq : Text → Text → Bool
text_eq [] [] = true
text_eq [] (y ∷ ys) = false
text_eq (x ∷ xs) [] = false
text_eq (x ∷ xs) (y ∷ ys) = let rest = text_eq xs ys in (x == y) && rest

-- `DateRangeExpression(value)`; `none` is ValueError.
unfoldable pub expression_named : Text → Option DateRangeExpression
expression_named t =
    if text_eq t (84 ∷ 79 ∷ 68 ∷ 65 ∷ 89 ∷ [])
    then some DateRangeExpression.today
    else if text_eq t (84 ∷ 79 ∷ 77 ∷ 79 ∷ 82 ∷ 82 ∷ 79 ∷ 87 ∷ [])
    then some DateRangeExpression.tomorrow
    else if text_eq t (84 ∷ 72 ∷ 73 ∷ 83 ∷ 95 ∷ 87 ∷ 69 ∷ 69 ∷ 75 ∷ [])
    then some DateRangeExpression.this_week
    else if text_eq t (78 ∷ 69 ∷ 88 ∷ 84 ∷ 95 ∷ 87 ∷ 69 ∷ 69 ∷ 75 ∷ [])
    then some DateRangeExpression.next_week
    else if text_eq t (84 ∷ 72 ∷ 73 ∷ 83 ∷ 95 ∷ 77 ∷ 79 ∷ 78 ∷ 84 ∷ 72 ∷ [])
    then some DateRangeExpression.this_month
    else if text_eq t (78 ∷ 69 ∷ 88 ∷ 84 ∷ 95 ∷ 77 ∷ 79 ∷ 78 ∷ 84 ∷ 72 ∷ [])
    then some DateRangeExpression.next_month
    else if text_eq t (69 ∷ 88 ∷ 80 ∷ 76 ∷ 73 ∷ 67 ∷ 73 ∷ 84 ∷ 95 ∷ 82 ∷ 65 ∷ 78 ∷ 71 ∷ 69 ∷ [])
    then some DateRangeExpression.explicit_range
    else none

unfoldable pub expression_of : Json → Option DateRangeExpression
unfolding expression_named
expression_of (text t) = expression_named t
expression_of _ = none

-- What the parser gives: an error, a datetime without a zone, a moment, or a moment that is no
-- datetime in UTC.
pub data Parsed : Type 0 where
  malformed naive beyond : Parsed
  aware : Moment → Parsed

abbrev pub require_aware_utc : Parsed → Result Moment
require_aware_utc malformed = err value_error
require_aware_utc naive = err naive_datetime
require_aware_utc beyond = err overflow_error
require_aware_utc (aware t) = ok t

-- `value[:-1] + "+00:00" if value.endswith("Z") else value`
unfoldable pub normalize_zone : Text → Text
normalize_zone [] = []
normalize_zone (c ∷ []) = if c == 90 then 43 ∷ 48 ∷ 48 ∷ 58 ∷ 48 ∷ 48 ∷ [] else c ∷ []
normalize_zone (c ∷ d ∷ cs) = c ∷ normalize_zone (d ∷ cs)

module _ (fromisoformat : Text → Parsed) where
  unfoldable pub parse_text : Text → Result Moment
  unfolding normalize_zone
  parse_text t = require_aware_utc (fromisoformat (normalize_zone t))

  -- A value that is no text has no `endswith`.
  unfoldable pub parse_iso_datetime : Json → Result Moment
  unfolding parse_text
  parse_iso_datetime (text t) = parse_text t
  parse_iso_datetime _ = err attribute_error

  -- `_to_datetime`; no JSON value is a datetime.
  unfoldable pub to_datetime : Json → Result Moment
  unfolding parse_text
  to_datetime (text t) = parse_text t
  to_datetime _ = err type_error

  abbrev pub some_result : Result Moment → Result (Option Moment)
  some_result (ok t) = ok (some t)
  some_result (err e) = err e

  unfoldable pub opt_datetime : Json → Result (Option Moment)
  unfolding to_datetime
  opt_datetime null = ok none
  opt_datetime v = some_result (to_datetime v)
