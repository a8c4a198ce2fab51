-- ===== src/Examples/Data.antt =====
-- The concrete inputs of the examples: one product, one transaction and one batch, a user, and a session in
-- memory.
use nexus_inventory_platform.Base.{
  String, List, [], ◌∷◌, Option, none, some, true, false, pos, refl, ap, str_eq, if◌then◌else◌,
  ◌==◌,
}
use nexus_inventory_platform.Dates.{Date, DateTime, midnight_utc}
use nexus_inventory_platform.Models.{
  TenantConfig, SyncStatus, SyncConnectorType, TransactionType, UserRole, NormalizedProduct,
  NormalizedTransaction, NormalizedBatch,
}
use nexus_inventory_platform.Values.{Runtime, Result, ok, Row, Value, lookup}
use nexus_inventory_platform.Normalizer.Database.{Product, Transaction, Batch, Tables}
use nexus_inventory_platform.Normalizer.Database.Laws.{outside}
use nexus_inventory_platform.Normalizer.Store.{Normalizer}
use nexus_inventory_platform.Normalizer.Store.Invariant.{IsSound}
use nexus_inventory_platform.Connector.{Stream, done, yields}
use nexus_inventory_platform.Sync.Log.{SyncLog}
use nexus_inventory_platform.Sync.Loop.{Job}
use nexus_inventory_platform.Sync.Process.{World, Disk, whole}
use nexus_inventory_platform.Examples.Memory.{
  Memory, memory_database, memory_postgres, memory_tables,
}
use nexus_inventory_platform.Auth.{User, Claims, Library, Redis, Settings, Store}
use nexus_inventory_platform.Auth.Rotation.{IsRedis}
use nexus_inventory_platform.Marg.{RawRow}

abbrev pub raw_row : RawRow
raw_row =
    ("code", some "A1")
    ∷ ("name", some "Bolt")
    ∷ ("batchno", some "B7")
    ∷ ("qty", some "3")
    ∷ ("date", some "2026-03-01")
    ∷ []

abbrev pub day : Date
day = record { year = 2026; month = 3; day = 1 }

abbrev pub now : DateTime
now = midnight_utc day

-- A runtime without numbers in texts: the examples hold integers only.
abbrev pub py : Runtime
py = record {
  parse_float = λ s. none;
  float_of_int = λ i. ok 0;
  is_nan = λ x. false;
  is_zero = λ x. x == 0;
  times_hundred = λ x. x;
  round_int = λ x. ok (pos x);
  truncate = λ x. ok (pos x);
  show_int = λ i. "1";
  show_float = λ x. "1.0";
  show_date = λ d. "2026-03-01";
  show_datetime = λ t. "2026-03-01 00:00:00";
  show_dict = λ d. "{}";
  exact_date = λ t. some t.date;
}

abbrev pub product : NormalizedProduct
product = record {
  sku_code = "A1";
  name = "Bolt";
  category = none;
  unit_of_measure = "pcs";
  unit_cost_paise = pos 500;
  selling_price_paise = pos 900;
  industry_attributes = [];
}

abbrev pub movement : NormalizedTransaction
movement = record {
  sku_code = "A1";
  location_name = "Main";
  transaction_type = TransactionType.out;
  quantity = pos 3;
  unit_cost_paise = pos 500;
  reference_no = some "";
  transaction_date = now;
}

abbrev pub lot : NormalizedBatch
lot = record {
  sku_code = "A1";
  batch_no = "B7";
  manufactured_date = none;
  expiry_date = some day;
  quantity = pos 40;
  location_name = some "";
}

abbrev pub log : SyncLog
log = record {
  id = 5;
  tenant_id = 1;
  connector_type = SyncConnectorType.csv;
  original_filename = some "products.csv";
  stored_path = some "u/products.csv";
  status = SyncStatus.pending;
  total_records = 0;
  records_processed = 0;
  records_failed = 0;
  errors = none;
  data_quality_score = none;
  started_at = none;
  completed_at = none;
  errors_row = none;
  errors_new = false;
}

abbrev pub empty_tables : Tables
empty_tables = record { products = []; locations = []; transactions = []; batches = [] }

abbrev pub memory : Memory
memory = record {
  tables = empty_tables;
  committed = empty_tables;
  logs = λ id. if id == 5 then some log else none;
  aborted = false;
  next_id = 1;
  statements = 0;
}

abbrev pub aborted_memory : Memory
aborted_memory = record memory { aborted = true }

abbrev pub config : TenantConfig
config = record { csv_mappings = none; entity_type = some "products" }

abbrev pub disk : Disk
disk = record { unlinks = λ path. true; writes = λ path. whole }

abbrev pub world : World Memory
world = record { session = memory; files = "u/other.csv" ∷ "u/products.csv" ∷ []; disk = disk }

abbrev pub rows : List Row
rows = (("sku_code", Value.text "A1") ∷ ("name", Value.text "Bolt") ∷ []) ∷ []

abbrev pub read : String → Result (List Row)
read path = ok rows

abbrev pub job_in : Memory → Job Memory
job_in s = record {
  normalizer = record { db = s; product_cache = []; location_cache = [] };
  log = log;
}

abbrev pub bolt : Product
bolt = record {
  id = 1;
  tenant_id = 1;
  sku_code = "A1";
  name = "Bolt";
  category = none;
  unit_of_measure = "pcs";
  unit_cost_paise = pos 500;
  selling_price_paise = pos 900;
  industry_attributes = [];
}

-- A memory that holds the product, and a normalizer on it.
abbrev pub stocked_tables : Tables
stocked_tables = record empty_tables { products = bolt ∷ [] }

abbrev pub stocked : Normalizer Memory
stocked = record {
  db = record memory { tables = stocked_tables; next_id = 2 };
  product_cache = [];
  location_cache = [];
}

pub stocked-IsSound : IsSound memory_database memory_postgres 1 stocked_tables stocked
unfolding lookup
stocked-IsSound = record {
  products = λ k p e. cc e;
  locations = λ k l e. cc e;
  isolated = ap (outside 1) (memory_tables stocked.db);
}

abbrev pub sold : Transaction
sold = record {
  id = 3;
  values = record {
    tenant_id = 1;
    product_id = 1;
    location_id = 2;
    transaction_type = TransactionType.out;
    quantity = pos 3;
    unit_cost_paise = pos 500;
    reference_no = some "";
    transaction_date = now;
  };
}

abbrev pub boxed : Batch
boxed = record {
  id = 2;
  values = record {
    tenant_id = 1;
    product_id = 1;
    batch_no = "B7";
    manufactured_date = none;
    expiry_date = some day;
    quantity = pos 40;
    location_id = none;
  };
}

abbrev pub two_products : Stream NormalizedProduct
two_products = yields product (yields (record product { sku_code = "too long" }) done)

abbrev pub half : SyncLog
half = record log { total_records = 3; records_processed = 2; records_failed = 1 }

abbrev pub owner : User
owner = record {
  id = 7;
  tenant_id = 1;
  email = "o";
  role = UserRole.owner;
  hashed_password = "h";
  is_active = true;
  last_login = none;
}

abbrev pub auth_settings : Settings
auth_settings = record { access_expire_minutes = 30; refresh_expire_days = 7 }

-- The claims of the owner's refresh token with the id "j0", issued at the time 0.
abbrev pub owner_claims : Claims
owner_claims = record {
  sub = some "7";
  exp = 604800;
  type = some "refresh";
  jti = some "j0";
  tenant_id = "7";
  role = "owner";
}

-- A library with the one token "r0".
abbrev pub library : Library
library = record {
  encode = λ c. "r0";
  decode = λ t required. if str_eq t "r0" then some owner_claims else none;
  hash = λ p. "h";
  verify = λ p h. true;
  show_id = λ i. "7";
  parse_id = λ s. some 7;
  refresh_key = λ j. j;
}

abbrev pub Keys : Type 0
Keys = String → Option String

abbrev pub redis : Redis Keys
redis = record {
  set = λ k v ttl s j. if str_eq k j then some v else s j;
  getdel = λ k s. (s k, λ j. if str_eq k j then none else s j);
  delete = λ k s j. if str_eq k j then none else s j;
}

abbrev pub redis-IsRedis : IsRedis redis
redis-IsRedis = record {
  get = λ k s. s k;
  on_getdel = λ k s. refl;
  after_getdel = λ k j s. refl;
  after_set = λ k v ttl j s. refl;
  after_delete = λ k j s. refl;
}

abbrev pub auth_store : Store Keys
auth_store = record { users = owner ∷ []; redis = λ k. if str_eq k "j0" then some "7" else none }
