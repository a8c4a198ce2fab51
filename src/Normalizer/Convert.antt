-- ===== src/Normalizer/Convert.antt =====
-- app/integrations/normalizer.py: the static conversion helpers of `DataNormalizer`.
use nexus_inventory_platform.Base.{
  ℕ, String, List, [], ◌∷◌, ◌++◌, Option, none, some, Bool, true, false, ◌&&◌, leb, ◌==◌, str_eq,
  if◌then◌else◌, ℤ, pos,
}
use Prim.Native.Char.{code}
use nexus_inventory_platform.Text.{strip, remove_commas}
use nexus_inventory_platform.Dates.{
  Date, DateTime, Directive, literal, strptime, midnight_utc, with_utc,
}
use nexus_inventory_platform.Models.{transaction_type_value}
use nexus_inventory_platform.Values.{
  Runtime, Result, ok, raised, Raised, Value, Row, Mapping, ◌>>=◌, or_raise, lookup, insert, str,
}

-- A format that fails with ValueError is skipped: the first that succeeds.
abbrev pub first_some {ℓ} : {A : Type ℓ} → List (Option A) → Option A
first_some [] = none
first_some (none ∷ os) = first_some os
first_some (some a ∷ os) = some a

abbrev date_separated : ℕ → Directive → Directive → Directive → List Directive
date_separated c a b d = a ∷ literal c ∷ b ∷ literal c ∷ d ∷ []

-- "%Y-%m-%d", "%d-%m-%Y", "%m/%d/%Y", "%Y/%m/%d"
abbrev pub iso_date : List Directive
iso_date = date_separated b'-' Directive.year Directive.month Directive.day

abbrev pub day_first : List Directive
day_first = date_separated b'-' Directive.day Directive.month Directive.year

abbrev pub month_first : List Directive
month_first = date_separated b'/' Directive.month Directive.day Directive.year

abbrev pub slashed : List Directive
slashed = date_separated b'/' Directive.year Directive.month Directive.day

abbrev clock : List Directive
clock = Directive.hour ∷ literal b':' ∷ Directive.minute ∷ literal b':' ∷ Directive.second ∷ []

-- "%Y-%m-%dT%H:%M:%S", "%Y-%m-%d %H:%M:%S", "%Y-%m-%dT%H:%M:%S%z"
abbrev pub iso_t : List Directive
iso_t = iso_date ++ Directive.tee ∷ clock

abbrev pub iso_blank : List Directive
iso_blank = iso_date ++ Directive.blank ∷ clock

abbrev pub iso_zone : List Directive
iso_zone = iso_t ++ Directive.zone ∷ []

-- re.match for the patterns of `_parse_date`: a list of digits and literal characters, to the end.
pub data Glyph : Type 0 where
  any_digit : Glyph
  exactly : ℕ → Glyph

is_glyph : Glyph → ℕ → Bool
is_glyph any_digit c = leb b'0' c && leb c b'9'
is_glyph (exactly k) c = c == k

has_shape : List Glyph → String → Bool
unfolding is_glyph
has_shape [] String.[] = true
has_shape [] (String.◌∷◌ c s) = false
has_shape (g ∷ gs) String.[] = false
has_shape (g ∷ gs) (String.◌∷◌ c s) = is_glyph g (code c) && has_shape gs s

abbrev two : List Glyph
two = any_digit ∷ any_digit ∷ []

abbrev year_shape : ℕ → List Glyph
year_shape c = two ++ two ++ exactly c ∷ two ++ exactly c ∷ two

abbrev day_shape : ℕ → List Glyph
day_shape c = two ++ exactly c ∷ two ++ exactly c ∷ two ++ two

-- The date of a datetime that `strptime` reads, or ValueError.
abbrev pub date_by : List Directive → String → Result Date
date_by fmt s = elim (strptime fmt s) [ none ↦ raised Raised.value_error | some t ↦ ok t.date ]

-- `_parse_date` on a text.
unfoldable pub parse_date_text : String → Result Date
unfolding has_shape strptime
parse_date_text s =
    if has_shape (year_shape b'-') s
    then date_by iso_date s
    else if has_shape (day_shape b'-') s
    then date_by day_first s
    else if has_shape (day_shape b'/') s
    then date_by month_first s
    else if has_shape (year_shape b'/') s
    then date_by slashed s
    else raised Raised.value_error

-- A datetime is a date too, and `_parse_date` returns it as it is.
pub data Dated : Type 0 where
  day : Date → Dated
  moment : DateTime → Dated

-- `_parse_datetime` on a text: three formats, then a date at midnight.
unfoldable pub parse_datetime_text : String → Result DateTime
unfolding parse_date_text strptime
parse_datetime_text s =
    elim (first_some (strptime iso_t s ∷ strptime iso_blank s ∷ strptime iso_zone s ∷ [])) [
      | some t ↦ ok (with_utc t)
      | none ↦ elim (parse_date_text s) [
        | ok d ↦ ok (midnight_utc d)
        | raised e ↦ raised Raised.value_error
      ]
    ]

module _ (py : Runtime) where
  unfoldable pub parse_date : Value → Result (Option Dated)
  unfolding parse_date_text str strip
  parse_date Value.null = ok none
  parse_date (Value.date d) = ok (some (day d))
  parse_date (Value.datetime t) = ok (some (moment t))
  parse_date v = do d ← parse_date_text (strip (str py v)); ok (some (day d))

  unfoldable pub parse_datetime : Value → Result DateTime
  unfolding parse_datetime_text str strip
  parse_datetime Value.null = raised Raised.value_error
  parse_datetime (Value.datetime t) = ok t
  parse_datetime v = parse_datetime_text (strip (str py v))

  -- The branch of `_to_paise` for texts: rupees, with commas.
  unfoldable pub paise_of_text : String → Result ℤ
  unfolding strip remove_commas
  paise_of_text s =
      let cleaned = strip (remove_commas s) in
      if str_eq cleaned "" then ok (pos 0) else do
        x ← or_raise Raised.value_error (py.parse_float cleaned)
        py.round_int (py.times_hundred x)

  -- An int is taken to be paise already.
  unfoldable pub to_paise : Value → Result ℤ
  unfolding paise_of_text transaction_type_value
  to_paise Value.null = ok (pos 0)
  to_paise (Value.int i) = ok i
  to_paise (Value.float x) = py.round_int (py.times_hundred x)
  to_paise (Value.text s) = paise_of_text s
  to_paise (Value.member t) = paise_of_text (transaction_type_value t)
  to_paise v = ok (pos 0)

  unfoldable pub int_of_text : String → Result ℤ
  unfolding strip remove_commas
  int_of_text s =
      let cleaned = strip (remove_commas s) in
      if str_eq cleaned ""
      then ok (pos 0)
      else do x ← or_raise Raised.value_error (py.parse_float cleaned); py.truncate x

  unfoldable pub to_int : Value → Result ℤ
  unfolding int_of_text transaction_type_value
  to_int Value.null = ok (pos 0)
  to_int (Value.int i) = ok i
  to_int (Value.float x) = py.truncate x
  to_int (Value.text s) = int_of_text s
  to_int (Value.member t) = int_of_text (transaction_type_value t)
  to_int v = ok (pos 0)

-- The columns that a mapping names, under the names of their fields.
map_columns : Row → Mapping → Row → Row
unfolding lookup insert
map_columns row [] mapped = mapped
map_columns row ((target_field, source_column) ∷ m) mapped =
    map_columns row m
      (elim (lookup source_column row) [ none ↦ mapped | some v ↦ insert target_field v mapped ])

-- With no mapping the row has the names already.
unfoldable pub apply_mapping : Row → Mapping → Row
unfolding map_columns
apply_mapping row [] = row
apply_mapping row (c ∷ m) = map_columns row (c ∷ m) []
