-- ===== src/Routes/Uploads.antt =====
-- app/routes/integrations.py: the upload of a file with its checks, and the mapping of its columns. The
-- content of a file is the list of its bytes; the queue of Celery is the list of the tasks that were sent.
-- The text of an error leaves out the limit, and gives the two extensions in one order.
pub mod Accepted
pub mod Status
pub mod Polled
pub mod Columns
pub mod Job
use nexus_inventory_platform.Base.{
  ℕ, String, List, [], ◌∷◌, ◌++◌, Option, none, some, Bool, true, false, not, ◌||◌, ◌-◌, ◌*◌, ltb,
  ◌==◌, str_eq, if◌then◌else◌, length, drop,
}
use nexus_inventory_platform.Text.{lower}
use nexus_inventory_platform.Dates.{DateTime}
use nexus_inventory_platform.Models.{UserRole, TenantConfig, SyncStatus, sync_status_value}
use nexus_inventory_platform.Values.{Raised, Result, ok, raised, Mapping, insert}
use nexus_inventory_platform.Auth.{
  User, Tenant, Outcome, http, key_error, get_tenant_by_id, require_role, get_current_active_user,
}
use nexus_inventory_platform.Sync.Log.{SyncLog, Entry, entries}
use nexus_inventory_platform.Sync.Process.{Sessions, World}
use nexus_inventory_platform.Sync.Start.{start_sync}

-- Literal["products", "transactions", "batches"]
pub data EntityType : Type 0 where
  products transactions batches : EntityType

unfoldable pub entity_value : EntityType → String
entity_value products = "products"
entity_value transactions = "transactions"
entity_value batches = "batches"

-- The column names of the form.
pub record Form : Type 0 where
  pub product_sku_code_column : String
  pub product_name_column : String
  pub product_category_column : String
  pub product_unit_of_measure_column : String
  pub product_unit_cost_column : String
  pub product_selling_price_column : String
  pub transaction_sku_code_column : String
  pub transaction_location_column : String
  pub transaction_type_column : String
  pub transaction_quantity_column : String
  pub transaction_unit_cost_column : String
  pub transaction_reference_column : String
  pub transaction_date_column : String
  pub batch_sku_code_column : String
  pub batch_no_column : String
  pub batch_manufactured_date_column : String
  pub batch_expiry_date_column : String
  pub batch_quantity_column : String
  pub batch_location_column : String

abbrev pub default_form : Form
default_form = record {
  product_sku_code_column = "SKU Code";
  product_name_column = "Product Name";
  product_category_column = "Category";
  product_unit_of_measure_column = "UOM";
  product_unit_cost_column = "Unit Cost";
  product_selling_price_column = "Selling Price";
  transaction_sku_code_column = "SKU Code";
  transaction_location_column = "Location";
  transaction_type_column = "Transaction Type";
  transaction_quantity_column = "Quantity";
  transaction_unit_cost_column = "Unit Cost";
  transaction_reference_column = "Reference No";
  transaction_date_column = "Transaction Date";
  batch_sku_code_column = "SKU Code";
  batch_no_column = "Batch No";
  batch_manufactured_date_column = "MFD";
  batch_expiry_date_column = "EXP";
  batch_quantity_column = "Quantity";
  batch_location_column = "Location";
}

unfoldable pub csv_mapping_from_form : String → Form → Mapping
csv_mapping_from_form entity_type f =
    if str_eq entity_type "transactions"
    then ("sku_code", f.transaction_sku_code_column)
      ∷ ("location_name", f.transaction_location_column)
      ∷ ("transaction_type", f.transaction_type_column)
      ∷ ("quantity", f.transaction_quantity_column)
      ∷ ("unit_cost_paise", f.transaction_unit_cost_column)
      ∷ ("reference_no", f.transaction_reference_column)
      ∷ ("transaction_date", f.transaction_date_column)
      ∷ []
    else if str_eq entity_type "batches"
    then ("sku_code", f.batch_sku_code_column)
      ∷ ("batch_no", f.batch_no_column)
      ∷ ("manufactured_date", f.batch_manufactured_date_column)
      ∷ ("expiry_date", f.batch_expiry_date_column)
      ∷ ("quantity", f.batch_quantity_column)
      ∷ ("location_name", f.batch_location_column)
      ∷ []
    else ("sku_code", f.product_sku_code_column)
      ∷ ("name", f.product_name_column)
      ∷ ("category", f.product_category_column)
      ∷ ("unit_of_measure", f.product_unit_of_measure_column)
      ∷ ("unit_cost_paise", f.product_unit_cost_column)
      ∷ ("selling_price_paise", f.product_selling_price_column)
      ∷ []

-- s[s.rfind("."):] if "." in s else ""
unfoldable pub extension : String → String
extension String.[] = ""
extension (String.◌∷◌ c s) =
    let later = extension s in
    if str_eq later ""
    then (if str_eq (String.◌∷◌ c String.[]) "." then String.◌∷◌ c s else "")
    else later

-- ext in ALLOWED_EXTENSIONS
unfoldable pub is_allowed : String → Bool
unfolding extension lower
is_allowed filename =
    let ext = extension (lower filename) in str_eq ext ".csv" || str_eq ext ".xlsx"

-- file.filename or "upload"
unfoldable pub name_or_upload : Option String → String
name_or_upload none = "upload"
name_or_upload (some s) = if str_eq s "" then "upload" else s

-- tenant.config if tenant and tenant.config else {}
unfoldable pub config_of : Option Tenant → TenantConfig
config_of none = record { csv_mappings = none; entity_type = none }
config_of (some t) = elim t.config [
  | none ↦ record { csv_mappings = none; entity_type = none }
  | some c ↦ c
]

abbrev pub mappings_of : TenantConfig → List (String × Mapping)
mappings_of c = elim c.csv_mappings [ none ↦ [] | some m ↦ m ]

-- The configuration of one upload: the tenant's, with the entity and its mapping from the form.
unfoldable pub upload_config : TenantConfig → EntityType → Form → TenantConfig
unfolding csv_mapping_from_form entity_value insert
upload_config c e form = record {
  csv_mappings =
      some (insert (entity_value e) (csv_mapping_from_form (entity_value e) form) (mappings_of c));
  entity_type = some (entity_value e);
}

-- The arguments of `sync_erp_data.delay`.
pub record Task : Type 0 where
  pub sync_log_id : ℕ
  pub tenant_id : ℕ
  pub tenant_config : TenantConfig

-- The session and the stored files, and the tasks that were sent.
pub record Site (S : Type 0) : Type 0 where
  pub world : World S
  pub queue : List Task

pub record UploadResponse : Type 0 where
  pub job_id : ℕ
  pub status : String

-- What a handler answers: a result, an HTTPException, or an exception that it lets through.
pub data Reply {ℓ} (A : Type ℓ) : Type ℓ where
  reply : A → Reply A
  rejected : ℕ → String → Reply A
  crashed : Raised → Reply A

abbrev pub uploaders : List UserRole
uploaders = UserRole.owner ∷ UserRole.admin ∷ UserRole.ops ∷ []

-- `id` and `hex` are the new log's key and the file's; `join` is `str(base_dir / name)`.
module _ {S : Type 0} (sessions : Sessions S) (join : String → String) (id : ℕ) (hex : String) where
  -- sync_erp_data.delay, and the response
  unfoldable pub send :
      TenantConfig → User → List Task → Result SyncLog × World S → Reply UploadResponse × Site S
  unfolding sync_status_value
  send c user queue (raised e, w) = (crashed e, record { world = w; queue = queue })
  send c user queue (ok log, w) = (
    reply (record { job_id = log.id; status = sync_status_value log.status }),
    record {
      world = w;
      queue =
          queue
          ++ record { sync_log_id = log.id; tenant_id = user.tenant_id; tenant_config = c } ∷ [];
    },
  )

  -- After the checks.
  unfoldable pub accept :
      List Tenant → User → String → EntityType → Form → Site S → Reply UploadResponse × Site S
  unfolding send start_sync upload_config config_of get_tenant_by_id
  accept tenants user filename e form site =
      send (upload_config (config_of (get_tenant_by_id tenants user.tenant_id)) e form) user
        site.queue (start_sync sessions join id hex user.tenant_id filename "csv" site.world)

  unfoldable pub upload_file :
      ℕ
      → List Tenant
      → User
      → Option String
      → List ℕ
      → EntityType
      → Form
      → Site S
      → Reply UploadResponse × Site S
  unfolding accept is_allowed name_or_upload
  upload_file max_upload_size_mb tenants user file_name content e form site =
      let filename = name_or_upload file_name in
      if not (is_allowed filename)
      then (rejected 400 "Unsupported file type. Allowed: .csv, .xlsx", site)
      else if length content == 0
      then (rejected 400 "Empty file", site)
      else if ltb (max_upload_size_mb * 1024 * 1024) (length content)
      then (rejected 413 "File exceeds limit", site)
      else accept tenants user filename e form site

  -- A dependency that raises answers in the handler's place.
  unfoldable pub depends :
      {A : Type 0} → Outcome User → Reply A × Site S → Site S → Reply A × Site S
  depends (Outcome.ok u) next site = next
  depends (http code detail) next site = (rejected code detail, site)
  depends key_error next site = (crashed Raised.value_error, site)

  -- The handler behind `CurrentUser` and `RequireRole(OWNER, ADMIN, OPS)`.
  unfoldable pub upload_endpoint :
      ℕ
      → List Tenant
      → User
      → Option String
      → List ℕ
      → EntityType
      → Form
      → Site S
      → Reply UploadResponse × Site S
  unfolding upload_file depends get_current_active_user require_role
  upload_endpoint max_upload_size_mb tenants user file_name content e form site =
      depends (get_current_active_user user)
        (depends (require_role uploaders user)
          (upload_file max_upload_size_mb tenants user file_name content e form site) site)
        site
