-- ===== src/Routes/Health.antt =====
-- app/routes/health.py: what the check answers, from how the database and Redis answer it.
use nexus_inventory_platform.Base.{ℕ, String, ◌&&◌, str_eq, if◌then◌else◌, ◌≡◌, refl}
use nexus_inventory_platform.Values.{Raised, Result, ok, raised}

pub record Health : Type 0 where
  pub status_code : ℕ
  pub status : String
  pub db : String
  pub redis : String
  pub version : String

-- An exception is logged.
unfoldable pub connection_status : Result (Unit {0}) → String
connection_status (ok u) = "connected"
connection_status (raised e) = "disconnected"

unfoldable pub health_check : String → Result (Unit {0}) → Result (Unit {0}) → Health
unfolding connection_status
health_check version select ping =
    let db_status = connection_status select in
    let redis_status = connection_status ping in
    let is_healthy = str_eq db_status "connected" && str_eq redis_status "connected" in
    record {
      status_code = if is_healthy then 200 else 503;
      status = if is_healthy then "ok" else "degraded";
      db = db_status;
      redis = redis_status;
      version = version;
    }

test_degraded : (health_check "0.1.0" (ok tt) (raised Raised.database_error)).status_code ≡ 503
unfolding health_check
test_degraded = refl
