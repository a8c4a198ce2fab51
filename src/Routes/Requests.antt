-- ===== src/Routes/Requests.antt =====
-- app/schemas/auth.py: `CreateUserRequest`, which app/routes/auth.py takes for a new user. Pydantic is not part of
-- the repository: a body that it refuses does not reach the handler. The digits are the ASCII ones.
use Prim.Native.Char.{code}
use nexus_inventory_platform.Base.{
  ℕ, suc, String, List, [], ◌∷◌, Option, none, some, Bool, true, false, not, ◌&&◌, ◌||◌, ◌++◌, leb,
  if◌then◌else◌, ◌≡◌, refl,
}
use nexus_inventory_platform.Auth.{User, Tenant, Outcome, Library, Redis, Settings, Store}
use nexus_inventory_platform.Routes.Login.{create_tenant_user}

-- re.search of one class of characters
unfoldable pub search : (ℕ → Bool) → String → Bool
search p String.[] = false
search p (String.◌∷◌ c s) = p (code c) || search p s

abbrev pub is_upper : ℕ → Bool
is_upper c = leb b'A' c && leb c b'Z'

abbrev pub is_lower : ℕ → Bool
is_lower c = leb b'a' c && leb c b'z'

abbrev pub is_digit : ℕ → Bool
is_digit c = leb b'0' c && leb c b'9'

abbrev pub is_special : ℕ → Bool
is_special c = not (is_upper c || is_lower c || is_digit c)

unfoldable pub text_length : String → ℕ
text_length String.[] = 0
text_length (String.◌∷◌ c s) = suc (text_length s)

unfoldable pub lacking : (ℕ → Bool) → String → String → List String
unfolding search
lacking p message v = if search p v then [] else message ∷ []

-- The list `errors` of the validator, which raises if it is not empty.
unfoldable pub password_strength : String → List String
unfolding lacking
password_strength v =
    lacking is_upper "at least one uppercase letter" v
    ++ lacking is_lower "at least one lowercase letter" v
    ++ lacking is_digit "at least one digit" v
    ++ lacking is_special "at least one special character" v

-- Field(min_length=8, max_length=128), then the validator.
unfoldable pub accepts_password : String → Bool
unfolding password_strength text_length
accepts_password v =
    leb 8 (text_length v)
    && leb (text_length v) 128
    && elim (password_strength v) [ [] ↦ true | e ∷ es ↦ false ]

-- POST /users with a body; `none` where the body is refused.
module _ {R : Type 0} (lib : Library) (settings : Settings) (secure : Bool) (redis : Redis R) where
  unfoldable pub post_user :
      ℕ → List Tenant → String → String → User → Store R → Option (Outcome User × Store R)
  unfolding accepts_password create_tenant_user
  post_user id tenants email password user w =
      if accepts_password password
      then some (create_tenant_user lib settings secure redis id tenants email password user w)
      else none

test_weak :
    password_strength "password"
    ≡ "at least one uppercase letter" ∷ "at least one digit" ∷ "at least one special character" ∷ []
unfolding password_strength
test_weak = refl

test_strong : accepts_password "StrongPass123!" ≡ true
unfolding accepts_password
test_strong = refl

test_short : accepts_password "Aa1!" ≡ false
unfolding accepts_password
test_short = refl
