-- ===== src/Auth.antt =====
-- app/services/auth.py with app/security.py, app/dependencies/auth.py and app/repositories: tokens,
-- their rotation, and the roles. The tables are lists of rows whose ids and emails the schema keeps
-- unique. Redis, PyJWT, the password hash and uuid are parameters; a refresh token's fresh id and the
-- time are arguments.
pub mod Rotation
use nexus_inventory_platform.Base.{
  ℕ, String, List, [], ◌∷◌, ◌++◌, Option, none, some, Bool, true, false, not, ◌||◌, ◌+◌, ◌*◌,
  str_eq, ◌==◌, if◌then◌else◌, any,
}
use nexus_inventory_platform.Text.{lower}
use nexus_inventory_platform.Models.{TenantConfig, UserRole, role_value}

pub record Tenant : Type 0 where
  pub id : ℕ
  pub config : Option TenantConfig
  pub is_active : Bool

pub record User : Type 0 where
  pub id : ℕ
  pub tenant_id : ℕ
  pub email : String
  pub role : UserRole
  pub hashed_password : String
  pub is_active : Bool
  pub last_login : Option ℕ

-- The claims of a token. The expiry is in seconds.
pub record Claims : Type 0 where
  pub sub : Option String
  pub exp : ℕ
  pub type : Option String
  pub jti : Option String
  pub tenant_id : String
  pub role : String

-- A result, an HTTPException with its status code and detail, or the KeyError of `payload["jti"]`.
pub data Outcome {ℓ} (A : Type ℓ) : Type ℓ where
  ok : A → Outcome A
  http : ℕ → String → Outcome A
  key_error : Outcome A

-- What the libraries give, for the settings' key and algorithm. `decode token require` is jwt.decode,
-- with `none` for InvalidTokenError; `parse_id` is uuid.UUID on a text, with `none` for ValueError.
pub record Library : Type 0 where
  pub encode : Claims → String
  pub decode : String → List String → Option Claims
  pub hash : String → String
  pub verify : String → String → Bool
  pub show_id : ℕ → String
  pub parse_id : String → Option ℕ
  -- f"{REFRESH_TOKEN_PREFIX}{jti}"
  pub refresh_key : String → String

-- The commands of Redis that are used, on a store of type `R`; `set` takes the time to live.
pub record Redis (R : Type 0) : Type 0 where
  pub set : String → String → ℕ → R → R
  pub getdel : String → R → Option String × R
  pub delete : String → R → R

pub record Tokens : Type 0 where
  pub access_token : String
  pub refresh_token : String
  pub token_type : String
  pub expires_in : ℕ

pub record Settings : Type 0 where
  pub access_expire_minutes : ℕ
  pub refresh_expire_days : ℕ

-- What the operations change: the users and the store of refresh tokens.
pub record Store (R : Type 0) : Type 0 where
  pub users : List User
  pub redis : R

unfoldable pub get_user_by_email : List User → String → Option User
get_user_by_email [] email = none
get_user_by_email (u ∷ us) email =
    if str_eq u.email email then some u else get_user_by_email us email

unfoldable pub get_user_by_id : List User → ℕ → Option User
get_user_by_id [] id = none
get_user_by_id (u ∷ us) id = if u.id == id then some u else get_user_by_id us id

unfoldable pub get_tenant_by_id : List Tenant → ℕ → Option Tenant
get_tenant_by_id [] id = none
get_tenant_by_id (t ∷ ts) id = if t.id == id then some t else get_tenant_by_id ts id

-- create_user with its default columns; `id` is the new row's.
unfoldable pub create_user : ℕ → String → String → ℕ → UserRole → User
create_user id email hashed tenant_id role = record {
  id = id;
  tenant_id = tenant_id;
  email = email;
  role = role;
  hashed_password = hashed;
  is_active = true;
  last_login = none;
}

unfoldable pub set_last_login : ℕ → ℕ → List User → List User
set_last_login now id [] = []
set_last_login now id (u ∷ us) =
    (if u.id == id then record u { last_login = some now } else u) ∷ set_last_login now id us

abbrev pub role_eq : UserRole → UserRole → Bool
role_eq UserRole.owner UserRole.owner = true
role_eq UserRole.admin UserRole.admin = true
role_eq UserRole.ops UserRole.ops = true
role_eq UserRole.viewer UserRole.viewer = true
role_eq _ _ = false

-- RequireRole(*allowed_roles)(current_user)
unfoldable pub require_role : List UserRole → User → Outcome User
require_role allowed user =
    if any (role_eq user.role) allowed then ok user else http 403 "Insufficient permissions"

unfoldable pub get_current_active_user : User → Outcome User
get_current_active_user user = if user.is_active then ok user else http 400 "Inactive user"

module _ (lib : Library) (settings : Settings) where
  unfoldable pub create_access_token : ℕ → String → String → String → String
  create_access_token now subject tenant_id role = lib.encode (record {
    sub = some subject;
    exp = now + settings.access_expire_minutes * 60;
    type = some "access";
    jti = none;
    tenant_id = tenant_id;
    role = role;
  })

  unfoldable pub refresh_claims : ℕ → String → String → String → String → Claims
  refresh_claims now jti subject tenant_id role = record {
    sub = some subject;
    exp = now + settings.refresh_expire_days * 86400;
    type = some "refresh";
    jti = some jti;
    tenant_id = tenant_id;
    role = role;
  }

  unfoldable pub create_refresh_token : ℕ → String → String → String → String → String × String
  unfolding refresh_claims
  create_refresh_token now jti subject tenant_id role =
      (lib.encode (refresh_claims now jti subject tenant_id role), jti)

  abbrev required : String → List String
  required expected =
      "exp" ∷ "sub" ∷ "type" ∷ (if str_eq expected "refresh" then "jti" ∷ [] else [])

  abbrev has_type : String → Option String → Bool
  has_type expected none = false
  has_type expected (some t) = str_eq t expected

  checked : String → Option Claims → Option Claims
  checked expected none = none
  checked expected (some payload) = if has_type expected payload.type then some payload else none

  -- `none` is InvalidTokenError.
  unfoldable pub decode_token : String → String → Option Claims
  unfolding checked
  decode_token token expected = checked expected (lib.decode token (required expected))

  module _ {R : Type 0} (redis : Redis R) where
    unfoldable pub issue_tokens : ℕ → String → User → R → Tokens × R
    unfolding create_access_token create_refresh_token role_value
    issue_tokens now jti user s =
        let user_id = lib.show_id user.id in
        let tenant_id = lib.show_id user.tenant_id in
        let role = role_value user.role in
        let (refresh_token, id) = create_refresh_token now jti user_id tenant_id role in
        (
          record {
            access_token = create_access_token now user_id tenant_id role;
            refresh_token = refresh_token;
            token_type = "bearer";
            expires_in = settings.access_expire_minutes * 60;
          },
          redis.set (lib.refresh_key id) user_id (settings.refresh_expire_days * 86400) s,
        )

    unfoldable pub tenant_ok : Option Tenant → Bool
    tenant_ok none = false
    tenant_ok (some t) = t.is_active

    -- `id` is the new row's id.
    unfoldable pub create_viewer :
        ℕ → List Tenant → String → String → ℕ → Store R → Outcome User × Store R
    unfolding get_tenant_by_id get_user_by_email create_user lower tenant_ok
    create_viewer id tenants email password tenant_id w =
        let user = create_user id (lower email) (lib.hash password) tenant_id UserRole.viewer in
        if not (tenant_ok (get_tenant_by_id tenants tenant_id))
        then (http 404 "Tenant not found", w)
        else elim (get_user_by_email w.users (lower email)) [
          | none ↦ (ok user, record w { users = w.users ++ user ∷ [] })
          | some existing ↦ (http 409 "Email already registered", w)
        ]

    -- The answer for a user that is let in, with the change of the store.
    issued : ℕ → String → User → Store R → Outcome Tokens × Store R
    unfolding issue_tokens
    issued now jti user w =
        let (tokens, s) = issue_tokens now jti user w.redis in (ok tokens, record w { redis = s })

    unfoldable pub authenticate : ℕ → String → String → String → Store R → Outcome Tokens × Store R
    unfolding get_user_by_email set_last_login issued lower
    authenticate now jti username password w = elim (get_user_by_email w.users (lower username)) [
      | none ↦ (http 401 "Incorrect username or password", w)
      | some user ↦
          if not (lib.verify password user.hashed_password)
          then (http 401 "Incorrect username or password", w)
          else if not user.is_active
          then (http 401 "Incorrect username or password", w)
          else issued now jti user (record w { users = set_last_login now user.id w.users })
    ]

    let_in : ℕ → String → Option User → Store R → Outcome Tokens × Store R
    unfolding issued
    let_in now jti none w = (http 401 "User not found or inactive", w)
    let_in now jti (some user) w =
        if user.is_active then issued now jti user w else (http 401 "User not found or inactive", w)

    by_id : ℕ → String → Option ℕ → Store R → Outcome Tokens × Store R
    unfolding let_in get_user_by_id
    by_id now jti none w = (http 401 "Invalid refresh token", w)
    by_id now jti (some id) w = let_in now jti (get_user_by_id w.users id) w

    -- get_user_by_id(db, uuid.UUID(user_id)), and the checks of `refresh_tokens` on it
    reissue : ℕ → String → Option String → Store R → Outcome Tokens × Store R
    unfolding by_id
    reissue now jti none w = (key_error, w)
    reissue now jti (some user_id) w = by_id now jti (lib.parse_id user_id) w

    redeem : ℕ → String → Claims → (Option String × R) → Store R → Outcome Tokens × Store R
    unfolding reissue
    redeem now jti payload (none, s) w =
        (http 401 "Refresh token revoked or expired", record w { redis = s })
    redeem now jti payload (some stored, s) w = reissue now jti payload.sub (record w { redis = s })

    -- With `payload["jti"]`, the token's own id; `jti` is the id of the next token.
    exchange : ℕ → String → Claims → Option String → Store R → Outcome Tokens × Store R
    unfolding redeem
    exchange now jti payload none w = (key_error, w)
    exchange now jti payload (some old) w =
        redeem now jti payload (redis.getdel (lib.refresh_key old) w.redis) w

    rotate : ℕ → String → Option Claims → Store R → Outcome Tokens × Store R
    unfolding exchange
    rotate now jti none w = (http 401 "Invalid refresh token", w)
    rotate now jti (some payload) w = exchange now jti payload payload.jti w

    unfoldable pub refresh_tokens : ℕ → String → String → Store R → Outcome Tokens × Store R
    unfolding rotate decode_token
    refresh_tokens now jti token w = rotate now jti (decode_token token "refresh") w

    revoke_id : Option String → Store R → Outcome (Unit {0}) × Store R
    revoke_id none w = (key_error, w)
    revoke_id (some jti) w =
        (ok tt, record w { redis = redis.delete (lib.refresh_key jti) w.redis })

    revoke : Option Claims → Store R → Outcome (Unit {0}) × Store R
    unfolding revoke_id
    revoke none w = (http 401 "Invalid refresh token", w)
    revoke (some payload) w = revoke_id payload.jti w

    unfoldable pub logout : String → Store R → Outcome (Unit {0}) × Store R
    unfolding revoke decode_token
    logout token w = revoke (decode_token token "refresh") w

  subject_user : List User → Option String → Outcome User
  unfolding get_user_by_id
  subject_user users none = http 401 "Could not validate credentials"
  subject_user users (some user_id) = elim (lib.parse_id user_id) [
    | none ↦ http 401 "Could not validate credentials"
    | some id ↦ elim (get_user_by_id users id) [
      | none ↦ http 401 "Could not validate credentials"
      | some user ↦ ok user
    ]
  ]

  current_user : List User → Option Claims → Outcome User
  unfolding subject_user
  current_user users none = http 401 "Could not validate credentials"
  current_user users (some payload) = subject_user users payload.sub

  unfoldable pub get_current_user_from_token : List User → String → Outcome User
  unfolding current_user decode_token
  get_current_user_from_token users token = current_user users (decode_token token "access")
