-- ===== src/Settings.antt =====
-- app/config.py and app/celery_app.py: the settings, their validators, and what Celery takes from them. How
-- pydantic finds and converts a text of the environment is a parameter.
use Prim.Native.String.{count}
use nexus_inventory_platform.Base.{
  ℤ, pos, String, Option, none, some, Bool, true, false, ltb, str_eq, if◌then◌else◌, ◌≤◌, ◌≡◌,
  arith,
}

record Settings : Type 0 where
  app_name : String
  app_version : String
  app_debug : Bool
  database_url : String
  runtime_database_url : String
  redis_url : String
  jwt_secret_key : String
  jwt_algorithm : String
  jwt_access_token_expire_minutes : ℤ
  jwt_refresh_token_expire_days : ℤ
  cookie_secure : Bool
  upload_dir : String
  max_upload_size_mb : ℤ
  sync_batch_size : ℤ
  celery_broker_url : String
  celery_result_backend : String

-- What the environment gives for a name, by the type of the field: no value, one that does not convert
-- (`some none`), or one that does.
record Environment : Type 0 where
  text : String → Option String
  number : String → Option (Option ℤ)
  flag : String → Option (Option Bool)

-- v or ""
default_celery : Option String → String
default_celery none = ""
default_celery (some v) = v

-- `validate_jwt_secret_key`, with `none` for the ValueError.
validate_jwt_secret_key : String → Option String
validate_jwt_secret_key v = if ltb (count v) 32 then none else some v

-- A field with a default: its value, or none if what the environment has does not convert.
with_default {ℓ} : {A : Type ℓ} → A → Option (Option A) → Option A
with_default default none = some default
with_default default (some converted) = converted

or_text : String → Option String → String
or_text default none = default
or_text default (some v) = v

infixl 5 ◌>>=◌
abbrev ◌>>=◌ {ℓ κ} : {A : Type ℓ} {B : Type κ} → Option A → (A → Option B) → Option B
m >>= f = elim m [ none ↦ none | some a ↦ f a ]

-- `get_settings`, with `none` for a ValidationError.
get_settings : Environment → Option Settings
unfolding default_celery validate_jwt_secret_key with_default or_text
get_settings env = do
  debug ← with_default false (env.flag "APP_DEBUG")
  database ← env.text "DATABASE_URL"
  runtime ← env.text "RUNTIME_DATABASE_URL"
  redis ← env.text "REDIS_URL"
  given ← env.text "JWT_SECRET_KEY"
  secret ← validate_jwt_secret_key given
  minutes ← with_default (pos 30) (env.number "JWT_ACCESS_TOKEN_EXPIRE_MINUTES")
  days ← with_default (pos 7) (env.number "JWT_REFRESH_TOKEN_EXPIRE_DAYS")
  secure ← with_default true (env.flag "COOKIE_SECURE")
  size ← with_default (pos 50) (env.number "MAX_UPLOAD_SIZE_MB")
  batch ← with_default (pos 100) (env.number "SYNC_BATCH_SIZE")
  some (record {
    app_name = or_text "Nexus Inventory Platform" (env.text "APP_NAME");
    app_version = or_text "0.1.0" (env.text "APP_VERSION");
    app_debug = debug;
    database_url = database;
    runtime_database_url = runtime;
    redis_url = redis;
    jwt_secret_key = secret;
    jwt_algorithm = or_text "HS256" (env.text "JWT_ALGORITHM");
    jwt_access_token_expire_minutes = minutes;
    jwt_refresh_token_expire_days = days;
    cookie_secure = secure;
    upload_dir = or_text "./uploads" (env.text "UPLOAD_DIR");
    max_upload_size_mb = size;
    sync_batch_size = batch;
    celery_broker_url = default_celery (env.text "CELERY_BROKER_URL");
    celery_result_backend = default_celery (env.text "CELERY_RESULT_BACKEND");
  })

-- settings.CELERY_… or settings.REDIS_URL
broker_url : Settings → String
broker_url s = if str_eq s.celery_broker_url "" then s.redis_url else s.celery_broker_url

result_backend : Settings → String
result_backend s =
    if str_eq s.celery_result_backend "" then s.redis_url else s.celery_result_backend

-- A key that the validator lets through is the given one, and has at least 32 characters.
validate_jwt_secret_key_lem :
    (v s : String) → validate_jwt_secret_key v ≡ some s → (s ≡ v) × (32 ≤ count s)
unfolding validate_jwt_secret_key
validate_jwt_secret_key_lem v s h = (ground arith, ground arith)
