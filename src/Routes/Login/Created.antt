-- ===== src/Routes/Login/Created.antt =====
-- What `create_tenant_user` of app/routes/auth.py leaves.
use nexus_inventory_platform.Base.{
  ℕ, String, List, [], ◌∷◌, ◌++◌, none, true, false, any, ◌≡◌, refl, sym, subst, ◌⊎◌, inl, inr,
  Bool-cases, Option-cases,
}
use nexus_inventory_platform.Text.{lower}
use nexus_inventory_platform.Models.{UserRole}
use nexus_inventory_platform.Auth.{
  User, Tenant, Outcome, http, Library, Redis, Settings, Store, create_viewer, create_user,
  require_role, get_current_active_user, get_user_by_email, get_tenant_by_id, tenant_ok, role_eq,
}
use nexus_inventory_platform.Routes.Login.{create_tenant_user, create_guarded}

module _ (lib : Library) (settings : Settings) {R : Type 0} (redis : Redis R) (id : ℕ)
    (tenants : List Tenant) (email password : String) where
  -- A user was added: a viewer of the tenant of the owner or admin who asked, with an email that no user
  -- had; or nothing was.
  pub record Adds (by : User) (w : Store R) (x : Outcome User × Store R) : Type 0 where
    pub user : User
    pub answer : x.0 ≡ Outcome.ok user
    pub active : by.is_active ≡ true
    pub may : any (role_eq by.role) (UserRole.owner ∷ UserRole.admin ∷ []) ≡ true
    pub role : user.role ≡ UserRole.viewer
    pub tenant : user.tenant_id ≡ by.tenant_id
    pub email_lower : user.email ≡ lower email
    pub new_email : get_user_by_email w.users (lower email) ≡ none
    pub password_hash : user.hashed_password ≡ lib.hash password
    pub store : x.1 ≡ record w { users = w.users ++ user ∷ [] }

  abbrev pub Refuses : Store R → Outcome User × Store R → Type 0
  Refuses w x = (code : ℕ) × (detail : String) × (x.0 ≡ http code detail) × (x.1 ≡ w)

  create_viewer-cases :
      (by : User) (w : Store R)
      → by.is_active ≡ true
      → any (role_eq by.role) (UserRole.owner ∷ UserRole.admin ∷ []) ≡ true
      → Adds by w (create_viewer lib settings redis id tenants email password by.tenant_id w)
        ⊎ Refuses w (create_viewer lib settings redis id tenants email password by.tenant_id w)
  unfolding create_viewer create_user
  create_viewer-cases by w a m =
      elim (Bool-cases (tenant_ok lib settings redis (get_tenant_by_id tenants by.tenant_id))) [
        | inr missing ↦ inr (404, "Tenant not found", rw missing refl, rw missing refl)
        | inl there ↦ elim (Option-cases (get_user_by_email w.users (lower email))) [
          | inr (u, taken) ↦
              inr (409, "Email already registered", rw (there, taken) refl, rw (there, taken) refl)
          | inl free ↦ inl (record {
            user = create_user id (lower email) (lib.hash password) by.tenant_id UserRole.viewer;
            answer = rw (there, free) refl;
            active = a;
            may = m;
            role = refl;
            tenant = refl;
            email_lower = refl;
            new_email = free;
            password_hash = refl;
            store = rw (there, free) refl;
          })
        ]
      ]

  -- A request for a new user either adds one viewer with a new email to the tenant of the active owner or
  -- admin who sent it, and changes nothing else, or is refused and changes nothing.
  pub create_tenant_user-Adds :
      (by : User) (w : Store R)
      → Adds by w (create_tenant_user lib settings false redis id tenants email password by w)
        ⊎ Refuses w (create_tenant_user lib settings false redis id tenants email password by w)
  unfolding create_tenant_user create_guarded get_current_active_user require_role
  create_tenant_user-Adds by w = elim (Bool-cases by.is_active) [
    | inr idle ↦ inr (400, "Inactive user", simp idle, simp idle)
    | inl active ↦
        elim (Bool-cases (any (role_eq by.role) (UserRole.owner ∷ UserRole.admin ∷ []))) [
          | inr other ↦
              inr (403, "Insufficient permissions", simp (active, other), simp (active, other))
          | inl may ↦
              let viewer =
                create_viewer lib settings redis id tenants email password by.tenant_id w in
              let same : create_tenant_user lib settings false redis id tenants email password by w
                  ≡ viewer =
                simp (active, may) in
              subst (λ x. Adds by w x ⊎ Refuses w x) (sym same)
                (create_viewer-cases by w active may)
        ]
  ]
