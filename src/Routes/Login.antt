-- ===== src/Routes/Login.antt =====
-- app/routes/auth.py: the handlers around the services of `Auth`, with the cookie that holds the refresh
-- token. The browser's side is the cookie alone: what it sends back, or `none`.
pub mod Session
pub mod Created
use nexus_inventory_platform.Base.{
  ℕ, String, List, [], ◌∷◌, Option, none, some, Bool, true, str_eq, if◌then◌else◌, ◌*◌,
}
use nexus_inventory_platform.Models.{UserRole}
use nexus_inventory_platform.Auth.{
  User, Tenant, Outcome, http, key_error, Library, Redis, Settings, Store, Tokens, authenticate,
  refresh_tokens, create_viewer, require_role, get_current_active_user,
}
use nexus_inventory_platform.Auth as Service

-- response.set_cookie, or response.delete_cookie where there is no value. The name, `httponly`, and
-- `samesite` are constants.
pub record Cookie : Type 0 where
  pub value : Option String
  pub secure : Bool
  pub max_age : ℕ
  pub path : String

unfoldable pub refresh_cookie : Settings → Bool → String → Cookie
refresh_cookie settings secure token = record {
  value = some token;
  secure = secure;
  max_age = settings.refresh_expire_days * 86400;
  path = "/api/v1/auth";
}

unfoldable pub cleared_cookie : Bool → Cookie
cleared_cookie secure = record { value = none; secure = secure; max_age = 0; path = "/api/v1/auth" }

pub record TokenResponse : Type 0 where
  pub access_token : String
  pub token_type : String
  pub expires_in : ℕ

-- The answer and the cookie that it sets, if it sets one.
pub record Answer (A : Type 0) : Type 0 where
  pub body : Outcome A
  pub cookie : Option Cookie

abbrev pub failing : {A : Type 0} → ℕ → String → Answer A
failing code detail = record { body = http code detail; cookie = none }

-- tokens.pop("refresh_token") goes to the cookie, the rest to the body.
unfoldable pub answer_tokens : Settings → Bool → Outcome Tokens → Answer TokenResponse
unfolding refresh_cookie
answer_tokens settings secure (Outcome.ok tokens) = record {
  body = Outcome.ok (record {
    access_token = tokens.access_token;
    token_type = tokens.token_type;
    expires_in = tokens.expires_in;
  });
  cookie = some (refresh_cookie settings secure tokens.refresh_token);
}
answer_tokens settings secure (http code detail) = failing code detail
answer_tokens settings secure key_error = record { body = key_error; cookie = none }

-- if not refresh_token
unfoldable pub given : Option String → Option String
given none = none
given (some s) = if str_eq s "" then none else some s

module _ {R : Type 0} (lib : Library) (settings : Settings) (secure : Bool) (redis : Redis R) where
  unfoldable pub answered : Outcome Tokens × Store R → Answer TokenResponse × Store R
  unfolding answer_tokens
  answered (o, w) = (answer_tokens settings secure o, w)

  unfoldable pub login : ℕ → String → String → String → Store R → Answer TokenResponse × Store R
  unfolding answered authenticate
  login now jti username password w =
      answered (authenticate lib settings redis now jti username password w)

  unfoldable pub refresh_given :
      ℕ → String → Option String → Store R → Answer TokenResponse × Store R
  unfolding answered refresh_tokens
  refresh_given now jti none w = (failing 401 "Refresh token missing", w)
  refresh_given now jti (some token) w =
      answered (refresh_tokens lib settings redis now jti token w)

  unfoldable pub refresh : ℕ → String → Option String → Store R → Answer TokenResponse × Store R
  unfolding refresh_given given
  refresh now jti cookie w = refresh_given now jti (given cookie) w

  unfoldable pub cleared : Outcome (Unit {0}) × Store R → Answer (Unit {0}) × Store R
  unfolding cleared_cookie
  cleared (Outcome.ok u, w) =
      (record { body = Outcome.ok tt; cookie = some (cleared_cookie secure) }, w)
  cleared (http code detail, w) = (failing code detail, w)
  cleared (key_error, w) = (record { body = key_error; cookie = none }, w)

  unfoldable pub logout_given : Option String → Store R → Answer (Unit {0}) × Store R
  unfolding cleared Service.logout
  logout_given none w = (failing 401 "Refresh token missing", w)
  logout_given (some token) w = cleared (Service.logout lib settings redis token w)

  unfoldable pub logout : Option String → Store R → Answer (Unit {0}) × Store R
  unfolding logout_given given
  logout cookie w = logout_given (given cookie) w

  -- `create_tenant_user`, behind RequireRole(OWNER, ADMIN); `id` is the new user's.
  unfoldable pub create_guarded :
      Outcome User → Outcome User × Store R → Store R → Outcome User × Store R
  create_guarded (Outcome.ok u) next w = next
  create_guarded (http code detail) next w = (http code detail, w)
  create_guarded key_error next w = (key_error, w)

  unfoldable pub create_tenant_user :
      ℕ → List Tenant → String → String → User → Store R → Outcome User × Store R
  unfolding create_guarded get_current_active_user require_role create_viewer
  create_tenant_user id tenants email password user w =
      create_guarded (get_current_active_user user)
        (create_guarded (require_role (UserRole.owner ∷ UserRole.admin ∷ []) user)
          (create_viewer lib settings redis id tenants email password user.tenant_id w) w)
        w
