-- ===== src/Examples/Witnesses.antt =====
-- The theorems at concrete inputs: a session in memory, one product, one transaction and one batch.
use nexus_inventory_platform.Base.{List, [], ◌∷◌, some, ◌≡◌, refl, arith, ◌≤◌, ◌+◌, ◌*◌, All}
use nexus_inventory_platform.Text.{strip}
use nexus_inventory_platform.Models.{NormalizedProduct}
use nexus_inventory_platform.Values.{Raised, ok, raised}
use nexus_inventory_platform.Normalizer.Rows.{
  normalize_product, normalize_transaction, normalize_batch,
}
use nexus_inventory_platform.Normalizer.Store.{upsert_product, create_transaction, upsert_batch}
use nexus_inventory_platform.Normalizer.Store.Invariant.{IsSound}
use nexus_inventory_platform.Normalizer.Store.Methods.{
  writes_IsSound, IsRecorded, create_transaction-Stands,
}
use nexus_inventory_platform.Connector.{done, yields}
use nexus_inventory_platform.Sync.Log.{SyncLog, Entry, row, calculate_quality, total}
use nexus_inventory_platform.Sync.Log.Quality.{calculate_quality_range}
use nexus_inventory_platform.Sync.Rows.{product_row, transaction_row, batch_row}
use nexus_inventory_platform.Sync.Rows.Screened.{
  screened_product, screened_transaction, screened_batch, normalize-product_row,
  normalize-transaction_row, normalize-batch_row,
}
use nexus_inventory_platform.Sync.Loop.{
  process_stream, handle_product, process_products, process_transactions, process_batches,
}
use nexus_inventory_platform.Sync.Loop.Accounting.{Accounts, process_stream-Accounts}
use nexus_inventory_platform.Sync.Loop.Errors.{process_stream-errors_row}
use nexus_inventory_platform.Sync.Loop.Aborted.{Halted, loops-Halted}
use nexus_inventory_platform.Sync.Process.{process_sync, finish}
use nexus_inventory_platform.Sync.Process.Outcome.{Ends, process_sync_file}
use nexus_inventory_platform.Sync.Process.Logs.{finish_aborted}
use nexus_inventory_platform.Examples.Memory.{
  memory_database, memory_postgres, memory_sessions, memory_transactional, memory_aborted,
  memory_transactional-aborted,
}
use nexus_inventory_platform.Examples.Memory.Commits.{memory_commits, memory_commits-fresh}
use nexus_inventory_platform.Sync.Process.Atomic.{IsAtomic, looped, process_sync-IsAtomic}
use nexus_inventory_platform.Auth.{
  decode_token, logout, Outcome, get_user_by_id, refresh_claims, create_refresh_token, issue_tokens,
  refresh_tokens, get_current_user_from_token,
}
use nexus_inventory_platform.Auth.Rotation.Revoked.{
  Request, rotation, sign_in, sign_out, serve_all, refresh_tokens_revoked,
}
use nexus_inventory_platform.Auth.Rotation.{
  refresh_tokens-issue_tokens, get_current_user_from_token-refresh,
}
use nexus_inventory_platform.Marg.{
  product_headers, batch_headers, transaction_headers, transform_product_rows, transform_batch_rows,
  transform_transaction_rows,
}
use nexus_inventory_platform.Marg.Headers.{Fits, transaction_needs, transform_rows-Fits}
use nexus_inventory_platform.Examples.Data.{
  raw_row, now, py, product, movement, lot, log, memory, aborted_memory, config, world, read,
  job_in, stocked_tables, stocked, stocked-IsSound, sold, two_products, half, owner, auth_settings,
  owner_claims, library, redis, redis-IsRedis, auth_store,
}

process_sync_file_example :
    Ends py memory_sessions
      (some "u/products.csv")
      world.files
      (process_sync py memory_sessions 5 1 config now read world)
unfolding memory_sessions
process_sync_file_example = process_sync_file py memory_sessions 5 1 config now read log world refl

writes_IsSound_example :
    IsSound memory_database memory_postgres 1 stocked_tables
      (upsert_product memory_database 1 product stocked).1
    × IsSound memory_database memory_postgres 1 stocked_tables
        (create_transaction memory_database 1 movement stocked).1
    × IsSound memory_database memory_postgres 1 stocked_tables
        (upsert_batch memory_database 1 lot stocked).1
writes_IsSound_example =
    writes_IsSound memory_database memory_postgres 1 stocked_tables product movement lot stocked
      stocked-IsSound

create_transaction-Stands_example :
    IsRecorded memory_database memory_postgres 1 stocked_tables movement stocked sold
      (create_transaction memory_database 1 movement stocked).1
unfolding create_transaction memory_database
create_transaction-Stands_example =
    create_transaction-Stands memory_database memory_postgres 1 stocked_tables movement stocked sold
      stocked-IsSound refl

process_stream-Accounts_example :
    Accounts 2 log
      (process_stream memory_database "product"
        (λ (np : NormalizedProduct). np.sku_code)
        (handle_product py memory_database 1)
        two_products
        (job_in memory)).1.log
process_stream-Accounts_example =
    process_stream-Accounts memory_database "product" (λ (np : NormalizedProduct). np.sku_code)
      (handle_product py memory_database 1) two_products (job_in memory)

-- A log with an error of an earlier run, as it is loaded.
abbrev retried : SyncLog
retried = record log { errors = some (Entry.fatal ∷ []); errors_row = some (Entry.fatal ∷ []) }

process_stream-errors_row_example :
    (row
      (process_stream memory_database "product"
        (λ (np : NormalizedProduct). np.sku_code)
        (handle_product py memory_database 1)
        two_products
        (record (job_in memory) { log = retried })).1.log).errors
    ≡ some (Entry.fatal ∷ [])
process_stream-errors_row_example =
    process_stream-errors_row memory_database "product" (λ (np : NormalizedProduct). np.sku_code)
      (handle_product py memory_database 1) two_products (record (job_in memory) { log = retried })
      refl refl

normalize-product_row_example :
    normalize_product py (product_row product) [] ≡ screened_product product
unfolding strip
normalize-product_row_example = normalize-product_row py product refl refl tt refl

normalize-transaction_row_example :
    normalize_transaction py (transaction_row movement) [] ≡ screened_transaction movement
unfolding strip
normalize-transaction_row_example = normalize-transaction_row py movement refl refl refl

normalize-batch_row_example : normalize_batch py (batch_row lot) [] ≡ screened_batch lot
unfolding strip
normalize-batch_row_example = normalize-batch_row py lot refl refl refl

loops-Halted_example :
    Halted py memory_database memory_postgres 1
      (job_in aborted_memory)
      (process_products py memory_database 1 two_products (job_in aborted_memory))
    × Halted py memory_database memory_postgres 1
        (job_in aborted_memory)
        (process_transactions py memory_database 1 (yields movement done) (job_in aborted_memory))
    × Halted py memory_database memory_postgres 1
        (job_in aborted_memory)
        (process_batches py memory_database 1 (yields lot done) (job_in aborted_memory))
loops-Halted_example =
    loops-Halted py memory_database memory_postgres 1 two_products (yields movement done)
      (yields lot done) (job_in aborted_memory) (memory_aborted aborted_memory)

process_sync-IsAtomic_example :
    IsAtomic py memory_sessions memory_commits 1
      (memory_commits.committed memory)
      (memory_commits.postgres.tables (looped py memory_sessions 1 config now read log world))
      (process_sync py memory_sessions 5 1 config now read world)
unfolding memory_sessions
process_sync-IsAtomic_example =
    process_sync-IsAtomic py memory_sessions memory_commits 5 1 config now read log world refl
      (memory_commits-fresh memory refl)

finish_aborted_example :
    (e : Raised) × ((finish py memory_sessions now (ok tt) (job_in aborted_memory) world).0
      ≡ raised e)
finish_aborted_example =
    finish_aborted py memory_sessions memory_transactional now (ok tt) (job_in aborted_memory) world
      (memory_transactional-aborted aborted_memory)

calculate_quality_range_example :
    (500 ≤ calculate_quality half)
    × (calculate_quality half ≤ 1000)
    × (2 * (total half * calculate_quality half) + 1000 * 1 ≤ 2000 * total half + total half)
    × (2000 * total half ≤ 2 * (total half * calculate_quality half) + 1000 * 1 + total half)
calculate_quality_range_example = calculate_quality_range half (omega arith)

-- A login, a second try with the token, and a logout with it.
abbrev requests : List Request
requests = sign_in 12 "j2" "o" "p" ∷ rotation 14 "j3" "r0" ∷ sign_out "r0" ∷ []

refresh_tokens_revoked_example :
    ((refresh_tokens library auth_settings redis 20 "j4" "r0" (
        serve_all library auth_settings redis redis-IsRedis requests
          (refresh_tokens library auth_settings redis 10 "j1" "r0" auth_store).1)).0
      ≡ Outcome.http 401 "Refresh token revoked or expired")
    × ((refresh_tokens library auth_settings redis 20 "j4" "r0" (
          serve_all library auth_settings redis redis-IsRedis requests
            (logout library auth_settings redis "r0" auth_store).1)).0
        ≡ Outcome.http 401 "Refresh token revoked or expired")
unfolding decode_token
refresh_tokens_revoked_example =
    refresh_tokens_revoked library auth_settings redis redis-IsRedis 10 20 "j1" "j4" "j0" "r0"
      owner_claims requests auth_store refl refl refl (refl, (refl, (tt, tt)))

refresh_tokens-issue_tokens_example :
    (refresh_tokens library auth_settings redis 10 "j1"
      (issue_tokens library auth_settings redis 0 "j0" owner (auth_store.redis)).0.refresh_token
      (record auth_store {
        redis = (issue_tokens library auth_settings redis 0 "j0" owner (auth_store.redis)).1;
      })).0
    ≡ Outcome.ok (issue_tokens library auth_settings redis 10 "j1" owner (auth_store.redis)).0
unfolding issue_tokens create_refresh_token refresh_claims get_user_by_id
refresh_tokens-issue_tokens_example =
    refresh_tokens-issue_tokens library auth_settings redis redis-IsRedis 0 10 "j0" "j1" owner
      auth_store refl refl refl refl

get_current_user_from_token-refresh_example :
    get_current_user_from_token library auth_settings
      (owner ∷ [])
      (create_refresh_token library auth_settings 0 "j0" "7" "7" "owner").0
    ≡ Outcome.http 401 "Could not validate credentials"
unfolding create_refresh_token refresh_claims
get_current_user_from_token-refresh_example =
    get_current_user_from_token-refresh library auth_settings 0 "j0" "7" "7" "owner" (owner ∷ [])
      λ payload e. ground (arith, e)

transform_rows-Fits_example :
    All
      (Fits product_headers ("SKU Code" ∷ "Product Name" ∷ []))
      (transform_product_rows (raw_row ∷ []))
    × All
        (Fits batch_headers ("SKU Code" ∷ "Batch No" ∷ []))
        (transform_batch_rows "Main" (raw_row ∷ []))
    × All
        (Fits transaction_headers transaction_needs)
        (transform_transaction_rows "Main" (raw_row ∷ []))
transform_rows-Fits_example = transform_rows-Fits "Main" (raw_row ∷ []) refl
