-- ===== src/Routes/Users.antt =====
-- app/schemas/user.py and the handler `get_me` of app/routes/auth.py. When a row was made and last changed
-- is no part of the modelled users.
use nexus_inventory_platform.Base.{ℕ, String, Option, Bool, List, true, ◌≡◌, refl, arith}
use nexus_inventory_platform.Models.{UserRole}
use nexus_inventory_platform.Auth.{
  User, Outcome, http, key_error, Library, Settings, get_current_user_from_token,
  get_current_active_user,
}

record UserResponse : Type 0 where
  id : ℕ
  tenant_id : ℕ
  email : String
  role : UserRole
  is_active : Bool
  last_login : Option ℕ

-- UserResponse.model_validate, from the attributes of a user.
model_validate : User → UserResponse
model_validate u = record {
  id = u.id;
  tenant_id = u.tenant_id;
  email = u.email;
  role = u.role;
  is_active = u.is_active;
  last_login = u.last_login;
}

active : Outcome User → Outcome User
unfolding get_current_active_user
active (Outcome.ok user) = get_current_active_user user
active (http status detail) = http status detail
active key_error = key_error

shown : Outcome User → Outcome UserResponse
unfolding model_validate
shown (Outcome.ok user) = Outcome.ok (model_validate user)
shown (http status detail) = http status detail
shown key_error = key_error

module _ (lib : Library) (settings : Settings) where
  -- `get_me`, with its dependencies `get_current_user` and `get_current_active_user`.
  get_me : List User → String → Outcome UserResponse
  unfolding active shown get_current_user_from_token
  get_me users token = shown (active (get_current_user_from_token lib settings users token))

-- An answer is about a user who is active, and shows that one.
shown-active :
    (o : Outcome User) (r : UserResponse)
    → shown (active o) ≡ Outcome.ok r
    → (u : User) × (o ≡ Outcome.ok u) × (u.is_active ≡ true) × (model_validate u ≡ r)
unfolding shown active get_current_active_user
shown-active (Outcome.ok u) r h = (u, refl, ground arith, ground arith)
shown-active (http status detail) r h = cc
shown-active key_error r h = cc
