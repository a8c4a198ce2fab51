-- ===== src/Sync/Loop/Errors.antt =====
-- What the row of a sync log gets of the errors that a loop of app/services/sync.py appends.
use nexus_inventory_platform.Base.{
  String, List, [], ◌∷◌, ◌++◌, Option, Bool, true, false, if◌then◌else◌, ◌≡◌, refl, arith,
}
use nexus_inventory_platform.Values.{Raised, Result, ok, raised, normalization_error}
use nexus_inventory_platform.Exec.{Exec}
use nexus_inventory_platform.Normalizer.Database.{Database}
use nexus_inventory_platform.Normalizer.Store.{Normalizer}
use nexus_inventory_platform.Connector.{Stream, done, failing, yields}
use nexus_inventory_platform.Sync.Log.{
  SyncLog, Entry, entries, is_empty, flush, row, append_entry, append_row_error,
}
use nexus_inventory_platform.Sync.Loop.{
  Job, account, counted, log_after, process_record, process_stream,
}

-- The log has errors, no other list of them waits to be written, and its row holds `R`.
record IsFrozen (R : Option (List Entry)) (log : SyncLog) : Type 0 where
  clean : log.errors_new ≡ false
  given : is_empty (entries log.errors) ≡ false
  held : log.errors_row ≡ R

append-is_empty : (es : List Entry) (e : Entry) → is_empty (es ++ e ∷ []) ≡ false
append-is_empty [] e = refl
append-is_empty (x ∷ es) e = refl

if-IsFrozen :
    (b : Bool) {R : Option (List Entry)} {log : SyncLog}
    → IsFrozen R log
    → IsFrozen R (if b then counted log else flush (counted log))
unfolding counted flush
if-IsFrozen true h = ground arith
if-IsFrozen false h = ground arith

account-IsFrozen :
    {B : Type 0} (entity sku : String) (r : Result B) {R : Option (List Entry)} (log : SyncLog)
    → IsFrozen R log
    → IsFrozen R (account entity sku r log)
unfolding account append_row_error append_entry
account-IsFrozen entity sku (ok b) log h = ground arith
account-IsFrozen entity sku (raised (normalization_error m)) log h =
    ground (arith, append-is_empty (entries log.errors) (Entry.row_error entity sku m))
account-IsFrozen entity sku (raised Raised.value_error) log h = ground arith
account-IsFrozen entity sku (raised Raised.overflow_error) log h = ground arith
account-IsFrozen entity sku (raised Raised.database_error) log h = ground arith
account-IsFrozen entity sku (raised Raised.connector_error) log h = ground arith
account-IsFrozen entity sku (raised Raised.multiple_results) log h = ground arith
account-IsFrozen entity sku (raised Raised.os_error) log h = ground arith

module _ {S A B : Type 0} (db : Database S) (entity : String) (sku_of : A → String)
    (handle : A → Exec (Normalizer S) B) where
  process_stream-IsFrozen :
      (st : Stream A) (j : Job S) {R : Option (List Entry)}
      → IsFrozen R j.log
      → IsFrozen R (process_stream db entity sku_of handle st j).1.log
  unfolding process_stream log_after
  process_stream-IsFrozen done j h = h
  process_stream-IsFrozen (failing e) j h = h
  process_stream-IsFrozen (yields a rest) j h =
      process_stream-IsFrozen rest (process_record db entity sku_of handle a j)
        (account-IsFrozen entity (sku_of a) (handle a j.normalizer).0 _ (if-IsFrozen _ h))

  -- A loop that starts with a log that has errors already, with no other list of them to be written, records
  -- none of its own: whatever its stream and however many records fail, the row of the log that it leaves
  -- holds the errors that the row held before.
  pub process_stream-errors_row :
      (st : Stream A) (j : Job S)
      → j.log.errors_new ≡ false
      → is_empty (entries j.log.errors) ≡ false
      → (row (process_stream db entity sku_of handle st j).1.log).errors ≡ j.log.errors_row
  unfolding row flush
  process_stream-errors_row st j clean given =
      let h =
        process_stream-IsFrozen st j {R = j.log.errors_row}
          (record { clean = clean; given = given; held = refl }) in
      ground (arith, h.clean, h.held)
