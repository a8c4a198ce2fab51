-- ===== src/Migrations/Inventory.antt =====
-- alembic/versions/ca2c9afa5eb7_create_inventory_and_sync_tables.py: the tables of the inventory and of the
-- sync logs, with their indexes and their row-level security.
use nexus_inventory_platform.Base.{String, List, [], ◌∷◌, ◌++◌, some}
use Prim.Native.String.{◌++◌ as append}
use nexus_inventory_platform.Migrations.Schema.{ColumnType, OnDelete, Constraint, Command, Policy}
use nexus_inventory_platform.Migrations.Operations.{Sql, Op}
use nexus_inventory_platform.Migrations.Revisions.{
  required, optional, stamped, index, tenant_fk, key,
}

-- CREATE POLICY tenant_isolation_t ON t FOR ALL TO nexus_runtime, on `tenant_id`
abbrev pub isolation : String → Policy
isolation t = record {
  name = append "tenant_isolation_" t;
  command = Command.all;
  using = some "tenant_id";
  check = some "tenant_id";
}

abbrev pub create_locations : Op
create_locations =
    Op.create_table "locations"
      (required "id" ColumnType.uuid
        ∷ required "name" (ColumnType.varchar 255)
        ∷ required "type" (ColumnType.varchar 50)
        ∷ optional "city" (ColumnType.varchar 100)
        ∷ optional "state" (ColumnType.varchar 100)
        ∷ required "is_active" ColumnType.boolean
        ∷ stamped "created_at"
        ∷ stamped "updated_at"
        ∷ required "tenant_id" ColumnType.uuid
        ∷ [])
      (tenant_fk ∷ key ∷ [])

abbrev pub create_products : Op
create_products =
    Op.create_table "products"
      (required "id" ColumnType.uuid
        ∷ required "sku_code" (ColumnType.varchar 100)
        ∷ required "name" (ColumnType.varchar 255)
        ∷ optional "category" (ColumnType.varchar 100)
        ∷ required "unit_of_measure" (ColumnType.varchar 50)
        ∷ required "unit_cost_paise" ColumnType.big_integer
        ∷ required "selling_price_paise" ColumnType.big_integer
        ∷ optional "industry_attributes" ColumnType.jsonb
        ∷ stamped "created_at"
        ∷ stamped "updated_at"
        ∷ required "tenant_id" ColumnType.uuid
        ∷ [])
      (tenant_fk ∷ key ∷ ("uq_tenant_sku", Constraint.unique ("tenant_id" ∷ "sku_code" ∷ [])) ∷ [])

abbrev pub create_sync_logs : Op
create_sync_logs =
    Op.create_table "sync_logs"
      (required "id" ColumnType.uuid
        ∷ required "connector_type" (ColumnType.varchar 50)
        ∷ optional "original_filename" (ColumnType.varchar 255)
        ∷ optional "stored_path" (ColumnType.varchar 500)
        ∷ required "status" (ColumnType.varchar 20)
        ∷ required "total_records" ColumnType.integer
        ∷ required "records_processed" ColumnType.integer
        ∷ required "records_failed" ColumnType.integer
        ∷ optional "errors" ColumnType.jsonb
        ∷ optional "data_quality_score" ColumnType.float
        ∷ optional "started_at" ColumnType.timestamptz
        ∷ optional "completed_at" ColumnType.timestamptz
        ∷ stamped "created_at"
        ∷ required "tenant_id" ColumnType.uuid
        ∷ [])
      (tenant_fk ∷ key ∷ [])

abbrev pub create_batches : Op
create_batches =
    Op.create_table "batches"
      (required "id" ColumnType.uuid
        ∷ required "product_id" ColumnType.uuid
        ∷ required "batch_no" (ColumnType.varchar 100)
        ∷ optional "manufactured_date" ColumnType.date
        ∷ optional "expiry_date" ColumnType.date
        ∷ required "quantity" ColumnType.big_integer
        ∷ optional "location_id" ColumnType.uuid
        ∷ stamped "created_at"
        ∷ stamped "updated_at"
        ∷ required "tenant_id" ColumnType.uuid
        ∷ [])
      (("", Constraint.foreign_key "location_id" "locations" "id" OnDelete.set_null)
        ∷ ("", Constraint.foreign_key "product_id" "products" "id" OnDelete.restrict)
        ∷ tenant_fk
        ∷ key
        ∷ (
          "uq_tenant_batch_product",
          Constraint.unique ("tenant_id" ∷ "batch_no" ∷ "product_id" ∷ []),
        )
        ∷ [])

abbrev pub create_transactions : Op
create_transactions =
    Op.create_table "transactions"
      (required "id" ColumnType.uuid
        ∷ required "product_id" ColumnType.uuid
        ∷ required "location_id" ColumnType.uuid
        ∷ required "transaction_type" (ColumnType.varchar 50)
        ∷ required "quantity" ColumnType.big_integer
        ∷ required "unit_cost_paise" ColumnType.big_integer
        ∷ optional "reference_no" (ColumnType.varchar 100)
        ∷ required "transaction_date" ColumnType.timestamptz
        ∷ stamped "created_at"
        ∷ required "tenant_id" ColumnType.uuid
        ∷ [])
      (("", Constraint.foreign_key "location_id" "locations" "id" OnDelete.restrict)
        ∷ ("", Constraint.foreign_key "product_id" "products" "id" OnDelete.restrict)
        ∷ tenant_fk
        ∷ key
        ∷ [])

-- The tables and their indexes.
abbrev pub created : List Op
created =
    create_locations
    ∷ Op.create_index (index "ix_locations_tenant_id" ("tenant_id" ∷ [])) "locations"
    ∷ create_products
    ∷ Op.create_index (index "ix_products_tenant_id" ("tenant_id" ∷ [])) "products"
    ∷ create_sync_logs
    ∷ Op.create_index (index "ix_sync_logs_tenant_id" ("tenant_id" ∷ [])) "sync_logs"
    ∷ Op.create_index (index "ix_sync_logs_tenant_status" ("tenant_id" ∷ "status" ∷ [])) "sync_logs"
    ∷ create_batches
    ∷ Op.create_index (index "ix_batches_tenant_id" ("tenant_id" ∷ [])) "batches"
    ∷ create_transactions
    ∷ Op.create_index
        (index "ix_transactions_tenant_date" ("tenant_id" ∷ "transaction_date DESC" ∷ []))
        "transactions"
    ∷ Op.create_index (index "ix_transactions_tenant_id" ("tenant_id" ∷ [])) "transactions"
    ∷ Op.create_index (index "ix_transactions_tenant_location" ("tenant_id" ∷ "location_id" ∷ []))
        "transactions"
    ∷ Op.create_index (index "ix_transactions_tenant_product" ("tenant_id" ∷ "product_id" ∷ []))
        "transactions"
    ∷ Op.create_index (index "ix_transactions_tenant_type" ("tenant_id" ∷ "transaction_type" ∷ []))
        "transactions"
    ∷ []

-- The statements of the hook of app/rls.py.
abbrev pub secured : List Op
secured =
    Op.execute (Sql.enable_row_security "locations")
    ∷ Op.execute (Sql.force_row_security "locations")
    ∷ Op.execute (Sql.create_policy "locations" (isolation "locations"))
    ∷ Op.execute (Sql.enable_row_security "products")
    ∷ Op.execute (Sql.force_row_security "products")
    ∷ Op.execute (Sql.create_policy "products" (isolation "products"))
    ∷ Op.execute (Sql.enable_row_security "sync_logs")
    ∷ Op.execute (Sql.force_row_security "sync_logs")
    ∷ Op.execute (Sql.create_policy "sync_logs" (isolation "sync_logs"))
    ∷ Op.execute (Sql.enable_row_security "batches")
    ∷ Op.execute (Sql.force_row_security "batches")
    ∷ Op.execute (Sql.create_policy "batches" (isolation "batches"))
    ∷ Op.execute (Sql.enable_row_security "transactions")
    ∷ Op.execute (Sql.force_row_security "transactions")
    ∷ Op.execute (Sql.create_policy "transactions" (isolation "transactions"))
    ∷ []

abbrev pub upgrade_inventory : List Op
upgrade_inventory = created ++ secured

abbrev pub unsecured : List Op
unsecured =
    Op.execute (Sql.drop_policy "tenant_isolation_transactions" "transactions")
    ∷ Op.execute (Sql.no_force_row_security "transactions")
    ∷ Op.execute (Sql.disable_row_security "transactions")
    ∷ Op.execute (Sql.drop_policy "tenant_isolation_batches" "batches")
    ∷ Op.execute (Sql.no_force_row_security "batches")
    ∷ Op.execute (Sql.disable_row_security "batches")
    ∷ Op.execute (Sql.drop_policy "tenant_isolation_sync_logs" "sync_logs")
    ∷ Op.execute (Sql.no_force_row_security "sync_logs")
    ∷ Op.execute (Sql.disable_row_security "sync_logs")
    ∷ Op.execute (Sql.drop_policy "tenant_isolation_products" "products")
    ∷ Op.execute (Sql.no_force_row_security "products")
    ∷ Op.execute (Sql.disable_row_security "products")
    ∷ Op.execute (Sql.drop_policy "tenant_isolation_locations" "locations")
    ∷ Op.execute (Sql.no_force_row_security "locations")
    ∷ Op.execute (Sql.disable_row_security "locations")
    ∷ []

abbrev pub removed : List Op
removed =
    Op.drop_index "ix_transactions_tenant_type" "transactions"
    ∷ Op.drop_index "ix_transactions_tenant_product" "transactions"
    ∷ Op.drop_index "ix_transactions_tenant_location" "transactions"
    ∷ Op.drop_index "ix_transactions_tenant_id" "transactions"
    ∷ Op.drop_index "ix_transactions_tenant_date" "transactions"
    ∷ Op.drop_table "transactions"
    ∷ Op.drop_index "ix_batches_tenant_id" "batches"
    ∷ Op.drop_table "batches"
    ∷ Op.drop_index "ix_sync_logs_tenant_status" "sync_logs"
    ∷ Op.drop_index "ix_sync_logs_tenant_id" "sync_logs"
    ∷ Op.drop_table "sync_logs"
    ∷ Op.drop_index "ix_products_tenant_id" "products"
    ∷ Op.drop_table "products"
    ∷ Op.drop_index "ix_locations_tenant_id" "locations"
    ∷ Op.drop_table "locations"
    ∷ []

abbrev pub downgrade_inventory : List Op
downgrade_inventory = unsecured ++ removed
