-- ===== src/Sync/Log.antt =====
-- app/models/sync_log.py, and `_calculate_quality` and `_append_row_error` of app/services/sync.py.
-- The score is a number of tenths: the code rounds a double to one decimal. The division is exact here;
-- where the exact score lies midway between two tenths, the code's double may fall on either side.
pub mod Quality
use nexus_inventory_platform.Base.{
  ℕ, String, List, [], ◌∷◌, ◌++◌, Option, none, some, Bool, true, false, ◌+◌, ◌-◌, ◌*◌, ◌/◌, ◌%◌,
  ◌&&◌, ◌||◌, ltb, leb, ◌==◌, if◌then◌else◌, length,
}
use nexus_inventory_platform.Dates.{DateTime}
use nexus_inventory_platform.Models.{SyncStatus, SyncConnectorType}
use nexus_inventory_platform.Values.{Reason}

-- An entry of the `errors` column.
pub data Entry : Type 0 where
  row_error : String → String → Reason → Entry
  fatal : Entry

pub record SyncLog : Type 0 where
  pub id : ℕ
  pub tenant_id : ℕ
  pub connector_type : SyncConnectorType
  pub original_filename : Option String
  pub stored_path : Option String
  pub status : SyncStatus
  pub total_records : ℕ
  pub records_processed : ℕ
  pub records_failed : ℕ
  pub errors : Option (List Entry)
  pub data_quality_score : Option ℕ
  pub started_at : Option DateTime
  pub completed_at : Option DateTime
  -- What SQLAlchemy knows of `errors`, a plain JSONB: the value in the row, and whether another list has
  -- been assigned since. It compares a list with itself where it was changed in place, and sees no change.
  pub errors_row : Option (List Entry)
  pub errors_new : Bool

-- sync_log.errors or []
abbrev pub entries : Option (List Entry) → List Entry
entries none = []
entries (some es) = es

-- UPDATE of the log's row; the object keeps its list, which the row may lag behind.
unfoldable pub flush : SyncLog → SyncLog
flush log = record log {
  errors_row = if log.errors_new then log.errors else log.errors_row;
  errors_new = false;
}

-- The log as its row holds it after a flush, and as it is loaded again.
unfoldable pub row : SyncLog → SyncLog
unfolding flush
row log = record (flush log) { errors = (flush log).errors_row }

abbrev pub is_empty {ℓ} : {A : Type ℓ} → List A → Bool
is_empty [] = true
is_empty (x ∷ xs) = false

-- errors = sync_log.errors or []; errors.append(entry); sync_log.errors = errors. An empty list gives way
-- to a new one; another is changed in place, and assigned to itself.
unfoldable pub append_entry : Entry → SyncLog → SyncLog
append_entry entry log = record log {
  errors = some (entries log.errors ++ entry ∷ []);
  errors_new = is_empty (entries log.errors) || log.errors_new;
}

abbrev pub total : SyncLog → ℕ
total log = log.records_processed + log.records_failed

-- a / b to the nearest whole number, midway to the even one
abbrev pub round_div : ℕ → ℕ → ℕ
round_div a b =
    if ltb b (2 * (a % b)) || (2 * (a % b) == b && (a / b) % 2 == 1) then a / b + 1 else a / b

-- `_calculate_quality`, in tenths: half of the failure rate, in percent, is taken off a hundred.
unfoldable pub calculate_quality : SyncLog → ℕ
calculate_quality log =
    if total log == 0
    then 0
    else round_div (1000 * total log - 500 * log.records_failed) (total log)

unfoldable pub append_row_error : String → String → Reason → SyncLog → SyncLog
unfolding append_entry
append_row_error entity sku_code reason log =
    append_entry (row_error entity sku_code reason)
      (record log { records_failed = log.records_failed + 1 })
