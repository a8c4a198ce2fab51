-- ===== src/Migrations/Metadata.antt =====
-- app/models: the tables that the classes declare to SQLAlchemy. `index=True` makes an index named after
-- the table and the column, unique with `unique=True`; a `Mapped` type with `None` is a nullable column.
pub mod Matches
pub mod Hook
use Prim.Native.String.{◌++◌ as append}
use nexus_inventory_platform.Base.{
  String, List, [], ◌∷◌, ◌++◌, map, Option, none, some, Bool, true, false, ◌&&◌, str_eq,
}
use nexus_inventory_platform.Migrations.Schema.{ColumnType, Column, OnDelete, Constraint, Index}
use nexus_inventory_platform.Migrations.Revisions.{required, optional, stamped, index}

pub data Class : Type 0 where
  user tenant product location transaction batch sync_log : Class

-- `rls` is the columns with info={"rls": True}.
pub record Declared : Type 0 where
  pub table : String
  pub columns : List Column
  pub constraints : List Constraint
  pub indexes : List Index
  pub rls : List String

-- TenantMixin
abbrev pub tenant_mixin : Declared → Declared
tenant_mixin d = record d {
  columns = d.columns ++ required "tenant_id" ColumnType.uuid ∷ [];
  constraints =
      d.constraints ++ Constraint.foreign_key "tenant_id" "tenants" "id" OnDelete.restrict ∷ [];
  indexes = d.indexes ++ index (append "ix_" (append d.table "_tenant_id")) ("tenant_id" ∷ []) ∷ [];
  rls = "tenant_id" ∷ d.rls;
}

abbrev pub declared_user : Declared
declared_user = tenant_mixin (record {
  table = "users";
  columns =
      required "id" ColumnType.uuid
      ∷ required "email" ColumnType.text
      ∷ required "role"
          (ColumnType.enum "user_role_enum" ("owner" ∷ "admin" ∷ "ops" ∷ "viewer" ∷ []))
      ∷ required "hashed_password" ColumnType.text
      ∷ required "is_active" ColumnType.boolean
      ∷ optional "last_login" ColumnType.timestamptz
      ∷ stamped "created_at"
      ∷ stamped "updated_at"
      ∷ [];
  constraints = Constraint.primary_key "id" ∷ [];
  indexes = record { name = "ix_users_email"; columns = "email" ∷ []; unique = true } ∷ [];
  rls = [];
})

abbrev pub declared_tenant : Declared
declared_tenant = record {
  table = "tenants";
  columns =
      required "id" ColumnType.uuid
      ∷ required "name" (ColumnType.varchar 255)
      ∷ optional "industry_type" (ColumnType.varchar 100)
      ∷ optional "erp_type" (ColumnType.varchar 100)
      ∷ required "subscription_plan" (ColumnType.varchar 20)
      ∷ required "subscription_status" (ColumnType.varchar 20)
      ∷ optional "trial_start_date" ColumnType.date
      ∷ optional "trial_end_date" ColumnType.date
      ∷ optional "subscription_start_date" ColumnType.date
      ∷ optional "next_billing_date" ColumnType.date
      ∷ optional "config" ColumnType.jsonb
      ∷ required "is_active" ColumnType.boolean
      ∷ stamped "created_at"
      ∷ stamped "updated_at"
      ∷ [];
  constraints = Constraint.primary_key "id" ∷ Constraint.unique ("name" ∷ []) ∷ [];
  indexes = [];
  rls = [];
}

abbrev pub declared_product : Declared
declared_product = tenant_mixin (record {
  table = "products";
  columns =
      required "id" ColumnType.uuid
      ∷ required "sku_code" (ColumnType.varchar 100)
      ∷ required "name" (ColumnType.varchar 255)
      ∷ optional "category" (ColumnType.varchar 100)
      ∷ required "unit_of_measure" (ColumnType.varchar 50)
      ∷ required "unit_cost_paise" ColumnType.big_integer
      ∷ required "selling_price_paise" ColumnType.big_integer
      ∷ optional "industry_attributes" ColumnType.jsonb
      ∷ stamped "created_at"
      ∷ stamped "updated_at"
      ∷ [];
  constraints =
      Constraint.primary_key "id" ∷ Constraint.unique ("tenant_id" ∷ "sku_code" ∷ []) ∷ [];
  indexes = [];
  rls = [];
})

abbrev pub declared_location : Declared
declared_location = tenant_mixin (record {
  table = "locations";
  columns =
      required "id" ColumnType.uuid
      ∷ required "name" (ColumnType.varchar 255)
      ∷ required "type" (ColumnType.varchar 50)
      ∷ optional "city" (ColumnType.varchar 100)
      ∷ optional "state" (ColumnType.varchar 100)
      ∷ required "is_active" ColumnType.boolean
      ∷ stamped "created_at"
      ∷ stamped "updated_at"
      ∷ [];
  constraints = Constraint.primary_key "id" ∷ [];
  indexes = [];
  rls = [];
})

abbrev pub declared_transaction : Declared
declared_transaction = tenant_mixin (record {
  table = "transactions";
  columns =
      required "id" ColumnType.uuid
      ∷ required "product_id" ColumnType.uuid
      ∷ required "location_id" ColumnType.uuid
      ∷ required "transaction_type" (ColumnType.varchar 50)
      ∷ required "quantity" ColumnType.big_integer
      ∷ required "unit_cost_paise" ColumnType.big_integer
      ∷ optional "reference_no" (ColumnType.varchar 100)
      ∷ required "transaction_date" ColumnType.timestamptz
      ∷ stamped "created_at"
      ∷ [];
  constraints =
      Constraint.primary_key "id"
      ∷ Constraint.foreign_key "product_id" "products" "id" OnDelete.restrict
      ∷ Constraint.foreign_key "location_id" "locations" "id" OnDelete.restrict
      ∷ [];
  indexes =
      index "ix_transactions_tenant_date" ("tenant_id" ∷ "transaction_date DESC" ∷ [])
      ∷ index "ix_transactions_tenant_product" ("tenant_id" ∷ "product_id" ∷ [])
      ∷ index "ix_transactions_tenant_type" ("tenant_id" ∷ "transaction_type" ∷ [])
      ∷ index "ix_transactions_tenant_location" ("tenant_id" ∷ "location_id" ∷ [])
      ∷ [];
  rls = [];
})

abbrev pub declared_batch : Declared
declared_batch = tenant_mixin (record {
  table = "batches";
  columns =
      required "id" ColumnType.uuid
      ∷ required "product_id" ColumnType.uuid
      ∷ required "batch_no" (ColumnType.varchar 100)
      ∷ optional "manufactured_date" ColumnType.date
      ∷ optional "expiry_date" ColumnType.date
      ∷ required "quantity" ColumnType.big_integer
      ∷ optional "location_id" ColumnType.uuid
      ∷ stamped "created_at"
      ∷ stamped "updated_at"
      ∷ [];
  constraints =
      Constraint.primary_key "id"
      ∷ Constraint.foreign_key "product_id" "products" "id" OnDelete.restrict
      ∷ Constraint.foreign_key "location_id" "locations" "id" OnDelete.set_null
      ∷ Constraint.unique ("tenant_id" ∷ "batch_no" ∷ "product_id" ∷ [])
      ∷ [];
  indexes = [];
  rls = [];
})

abbrev pub declared_sync_log : Declared
declared_sync_log = tenant_mixin (record {
  table = "sync_logs";
  columns =
      required "id" ColumnType.uuid
      ∷ required "connector_type" (ColumnType.varchar 50)
      ∷ optional "original_filename" (ColumnType.varchar 255)
      ∷ optional "stored_path" (ColumnType.varchar 500)
      ∷ required "status" (ColumnType.varchar 20)
      ∷ required "total_records" ColumnType.integer
      ∷ required "records_processed" ColumnType.integer
      ∷ required "records_failed" ColumnType.integer
      ∷ optional "errors" ColumnType.jsonb
      ∷ optional "data_quality_score" ColumnType.float
      ∷ optional "started_at" ColumnType.timestamptz
      ∷ optional "completed_at" ColumnType.timestamptz
      ∷ stamped "created_at"
      ∷ [];
  constraints = Constraint.primary_key "id" ∷ [];
  indexes = index "ix_sync_logs_tenant_status" ("tenant_id" ∷ "status" ∷ []) ∷ [];
  rls = [];
})

abbrev pub declared : Class → Declared
declared user = declared_user
declared tenant = declared_tenant
declared product = declared_product
declared location = declared_location
declared transaction = declared_transaction
declared batch = declared_batch
declared sync_log = declared_sync_log

-- Base.metadata
abbrev pub classes : List Class
classes = user ∷ tenant ∷ product ∷ location ∷ transaction ∷ batch ∷ sync_log ∷ []
