-- ===== src/Models.antt =====
-- app/models/enums.py and app/schemas/integration.py: the enumerations and the four record types that
-- every connector produces. A JSON object of industry attributes is a list of named texts.
use nexus_inventory_platform.Base.{
  String, List, Option, none, some, Bool, true, false, str_eq, if◌then◌else◌, ℤ, ◌≡◌, refl,
}
use nexus_inventory_platform.Dates.{Date, DateTime}

pub data UserRole : Type 0 where
  owner admin ops viewer : UserRole

pub data LocationType : Type 0 where
  warehouse branch store : LocationType

pub data TransactionType : Type 0 where
  in_ out transfer return_ adjustment : TransactionType

pub data SyncStatus : Type 0 where
  pending running completed failed : SyncStatus

pub data SyncConnectorType : Type 0 where
  csv : SyncConnectorType

-- The value of each member: a `StrEnum` member is this text.
unfoldable pub role_value : UserRole → String
role_value UserRole.owner = "owner"
role_value UserRole.admin = "admin"
role_value UserRole.ops = "ops"
role_value UserRole.viewer = "viewer"

unfoldable pub transaction_type_value : TransactionType → String
transaction_type_value TransactionType.in_ = "in"
transaction_type_value TransactionType.out = "out"
transaction_type_value TransactionType.transfer = "transfer"
transaction_type_value TransactionType.return_ = "return"
transaction_type_value TransactionType.adjustment = "adjustment"

unfoldable pub sync_status_value : SyncStatus → String
sync_status_value SyncStatus.pending = "pending"
sync_status_value SyncStatus.running = "running"
sync_status_value SyncStatus.completed = "completed"
sync_status_value SyncStatus.failed = "failed"

unfoldable pub connector_type_value : SyncConnectorType → String
connector_type_value SyncConnectorType.csv = "csv"

-- TransactionType(s); `none` is ValueError.
unfoldable pub transaction_type : String → Option TransactionType
transaction_type s =
    if str_eq s "in"
    then some TransactionType.in_
    else if str_eq s "out"
    then some TransactionType.out
    else if str_eq s "transfer"
    then some TransactionType.transfer
    else if str_eq s "return"
    then some TransactionType.return_
    else if str_eq s "adjustment"
    then some TransactionType.adjustment
    else none

-- SyncConnectorType(s)
unfoldable pub connector_type : String → Option SyncConnectorType
connector_type s = if str_eq s "csv" then some SyncConnectorType.csv else none

abbrev pub transaction_type_eq : TransactionType → TransactionType → Bool
transaction_type_eq TransactionType.in_ TransactionType.in_ = true
transaction_type_eq TransactionType.out TransactionType.out = true
transaction_type_eq TransactionType.transfer TransactionType.transfer = true
transaction_type_eq TransactionType.return_ TransactionType.return_ = true
transaction_type_eq TransactionType.adjustment TransactionType.adjustment = true
transaction_type_eq _ _ = false

abbrev pub Attributes : Type 0
Attributes = List (String × String)

pub record NormalizedProduct : Type 0 where
  pub sku_code : String
  pub name : String
  pub category : Option String
  pub unit_of_measure : String
  pub unit_cost_paise : ℤ
  pub selling_price_paise : ℤ
  pub industry_attributes : Attributes

pub record NormalizedInventoryRecord : Type 0 where
  pub sku_code : String
  pub quantity : ℤ
  pub location_name : String
  pub batch_no : Option String
  pub unit_cost_paise : ℤ

pub record NormalizedTransaction : Type 0 where
  pub sku_code : String
  pub location_name : String
  pub transaction_type : TransactionType
  pub quantity : ℤ
  pub unit_cost_paise : ℤ
  pub reference_no : Option String
  pub transaction_date : DateTime

pub record NormalizedBatch : Type 0 where
  pub sku_code : String
  pub batch_no : String
  pub manufactured_date : Option Date
  pub expiry_date : Option Date
  pub quantity : ℤ
  pub location_name : Option String

-- Tenant.config as the job reads it: the column mappings by entity, and the entity.
pub record TenantConfig : Type 0 where
  pub csv_mappings : Option (List (String × List (String × String)))
  pub entity_type : Option String

pub transaction_type-value :
    (t : TransactionType) → transaction_type (transaction_type_value t) ≡ some t
unfolding transaction_type transaction_type_value
transaction_type-value TransactionType.in_ = refl
transaction_type-value TransactionType.out = refl
transaction_type-value TransactionType.transfer = refl
transaction_type-value TransactionType.return_ = refl
transaction_type-value TransactionType.adjustment = refl
