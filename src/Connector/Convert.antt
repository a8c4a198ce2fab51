-- ===== src/Connector/Convert.antt =====
-- app/integrations/csv_connector.py: the module's conversion helpers. Unlike those of
-- `DataNormalizer` they fall back to a default where a value cannot be read.
use nexus_inventory_platform.Base.{
  String, List, [], ◌∷◌, Option, none, some, str_eq, if◌then◌else◌, ℤ, pos,
}
use nexus_inventory_platform.Text.{strip, lower, remove_commas}
use nexus_inventory_platform.Dates.{Date, DateTime, Directive, strptime, midnight_utc, with_utc}
use nexus_inventory_platform.Models.{TransactionType, transaction_type}
use nexus_inventory_platform.Values.{
  Runtime, Result, ok, Raised, Value, Row, Mapping, ◌>>=◌, or_raise, or_default, lookup, insert,
  str,
}
use nexus_inventory_platform.Normalizer.Convert.{
  first_some, iso_date, day_first, month_first, slashed, iso_t, iso_blank,
}

-- "%Y%m%d"
abbrev compact : List Directive
compact = Directive.year ∷ Directive.month ∷ Directive.day ∷ []

-- The date of a successful `strptime`.
abbrev date_of : Option DateTime → Option Date
date_of none = none
date_of (some t) = some t.date

unfoldable pub date_of_text : String → Option Date
unfolding strptime
date_of_text s =
    if str_eq s ""
    then none
    else date_of (
        first_some (
          strptime iso_date s
          ∷ strptime day_first s
          ∷ strptime month_first s
          ∷ strptime slashed s
          ∷ strptime compact s
          ∷ []))

module _ (py : Runtime) where
  paise_of_text : String → Result ℤ
  unfolding strip remove_commas
  paise_of_text t =
      let s = strip (remove_commas t) in
      if str_eq s ""
      then ok (pos 0)
      else or_default (pos 0) (
          or_raise Raised.value_error (py.parse_float s) >>= λ x. py.round_int (py.times_hundred x))

  -- An int is in rupees here, and goes through a double.
  unfoldable pub to_paise : Value → Result ℤ
  unfolding paise_of_text str
  to_paise Value.null = ok (pos 0)
  to_paise (Value.int i) = do x ← py.float_of_int i; py.round_int (py.times_hundred x)
  to_paise (Value.float x) = if py.is_nan x then ok (pos 0) else py.round_int (py.times_hundred x)
  to_paise v = paise_of_text (str py v)

  int_of_text : String → Result ℤ
  unfolding strip remove_commas
  int_of_text t =
      let s = strip (remove_commas t) in
      if str_eq s ""
      then ok (pos 0)
      else or_default (pos 0)
          (or_raise Raised.value_error (py.parse_float s) >>= λ x. py.truncate x)

  unfoldable pub to_int : Value → Result ℤ
  unfolding int_of_text str
  to_int Value.null = ok (pos 0)
  to_int (Value.int i) = do x ← py.float_of_int i; py.truncate x
  to_int (Value.float x) = if py.is_nan x then ok (pos 0) else py.truncate x
  to_int v = int_of_text (str py v)

  unfoldable pub to_transaction_type : Value → TransactionType
  unfolding transaction_type str strip lower
  to_transaction_type v = elim (transaction_type (lower (strip (str py v)))) [
    | none ↦ TransactionType.in_
    | some t ↦ t
  ]

  unfoldable pub to_date : Value → Option Date
  unfolding date_of_text str strip
  to_date Value.null = none
  to_date (Value.datetime t) = some t.date
  to_date (Value.date d) = some d
  to_date v = date_of_text (strip (str py v))

  -- value if value.tzinfo else value.replace(tzinfo=UTC)
  assume_utc : DateTime → DateTime
  assume_utc t = elim t.offset [ none ↦ with_utc t | some o ↦ t ]

  -- A time of day, or the present instant.
  datetime_of_text : DateTime → String → DateTime
  unfolding strptime
  datetime_of_text now s = elim (first_some (strptime iso_t s ∷ strptime iso_blank s ∷ [])) [
    | none ↦ now
    | some t ↦ with_utc t
  ]

  datetime_of_value : DateTime → Value → DateTime
  unfolding to_date datetime_of_text str strip
  datetime_of_value now v = elim (to_date v) [
    | some d ↦ midnight_utc d
    | none ↦ datetime_of_text now (strip (str py v))
  ]

  unfoldable pub to_datetime : DateTime → Value → DateTime
  unfolding datetime_of_value assume_utc
  to_datetime now Value.null = now
  to_datetime now (Value.datetime t) = assume_utc t
  to_datetime now v = datetime_of_value now v

  -- A column that holds a NaN is left out.
  keep_cell : String → Value → Row → Row
  unfolding insert
  keep_cell k (Value.float x) mapped =
      if py.is_nan x then mapped else insert k (Value.float x) mapped
  keep_cell k v mapped = insert k v mapped

  map_columns : Row → Mapping → Row → Row
  unfolding keep_cell lookup
  map_columns row [] mapped = mapped
  map_columns row ((target_field, source_column) ∷ m) mapped =
      map_columns row m (elim (lookup source_column row) [
        | none ↦ mapped
        | some v ↦ keep_cell target_field v mapped
      ])

  unfoldable pub apply_mapping : Row → Mapping → Row
  unfolding map_columns
  apply_mapping row mapping = map_columns row mapping []
