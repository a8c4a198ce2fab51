-- ===== src/Routes/Uploads/Accepted.antt =====
-- What an upload of app/routes/integrations.py leaves: nothing where it is rejected, and one pending job
-- where it is accepted.
use nexus_inventory_platform.Base.{
  ℕ, String, List, [], ◌∷◌, ◌++◌, Option, some, Bool, true, false, not, ◌≤◌, ◌<◌, ◌*◌, ltb, ◌==◌,
  if◌then◌else◌, length, any, ◌≡◌, refl, ap, sym, ◌∙◌, arith, Bool-cases, inl, inr, subst,
}
use nexus_inventory_platform.Models.{
  TenantConfig, SyncConnectorType, connector_type, sync_status_value,
}
use nexus_inventory_platform.Values.{Result, ok, raised}
use nexus_inventory_platform.Auth.{
  User, Tenant, Outcome, http, key_error, get_tenant_by_id, require_role, get_current_active_user,
  role_eq,
}
use nexus_inventory_platform.Sync.Log.{SyncLog}
use nexus_inventory_platform.Sync.Process.{Sessions, World}
use nexus_inventory_platform.Sync.Process.Outcome.{IsTransactional}
use nexus_inventory_platform.Sync.Start.{start_sync, pending_log, with_file, stored_name}
use nexus_inventory_platform.Sync.Start.Created.{start_sync-Created}
use nexus_inventory_platform.Routes.Uploads.{
  EntityType, Form, is_allowed, name_or_upload, config_of, upload_config, Task, Site,
  UploadResponse, Reply, reply, rejected, send, accept, upload_file, depends, upload_endpoint,
  uploaders,
}

csv_member : connector_type "csv" ≡ some SyncConnectorType.csv
unfolding connector_type
csv_member = refl

module _ {S : Type 0} (sessions : Sessions S) (join : String → String) (id : ℕ) (hex : String) where
  -- A rejection leaves the site as it was.
  abbrev Untouched : {A : Type 0} → Site S → Reply A × Site S → Type 0
  Untouched site x = (code : ℕ) (detail : String) → x.0 ≡ rejected code detail → x.1 ≡ site

  depends-Untouched :
      {A : Type 0} (o : Outcome User) (next : Reply A × Site S) (site : Site S)
      → Untouched site next
      → Untouched site (depends sessions join id hex o next site)
  unfolding depends
  depends-Untouched (Outcome.ok u) next site h code detail e = h code detail e
  depends-Untouched (http c d) next site h code detail e = refl
  depends-Untouched key_error next site h code detail e = refl

  send-Untouched :
      (c : TenantConfig) (user : User) (queue : List Task) (x : Result SyncLog × World S)
      (site : Site S)
      → Untouched site (send sessions join id hex c user queue x)
  unfolding send
  send-Untouched c user queue (ok log, w) site code detail e = cc
  send-Untouched c user queue (raised x, w) site code detail e = cc

  module _ (max_mb : ℕ) (tenants : List Tenant) (user : User) (file_name : Option String)
      (content : List ℕ) (e : EntityType) (form : Form) (site : Site S) where
    upload_file-Untouched :
        Untouched site
          (upload_file sessions join id hex max_mb tenants user file_name content e form site)
    unfolding upload_file accept
    upload_file-Untouched =
        if-Untouched (not (is_allowed (name_or_upload file_name))) (λ code detail h. refl)
          (if-Untouched (length content == 0) (λ code detail h. refl)
            (if-Untouched (ltb (max_mb * 1024 * 1024) (length content)) (λ code detail h. refl)
              (send-Untouched _ user site.queue _ site)))
      where
        if-Untouched :
            (b : Bool) {x y : Reply UploadResponse × Site S}
            → Untouched site x
            → Untouched site y
            → Untouched site (if b then x else y)
        if-Untouched true hx hy = hx
        if-Untouched false hx hy = hy

    -- An upload that is rejected, for the user, the role, the file's type or its size, has stored no
    -- file, written no log and sent no task.
    pub upload_endpoint-Untouched :
        (code : ℕ) (detail : String)
        → (upload_endpoint sessions join id hex max_mb tenants user file_name content e form site).0
          ≡ rejected code detail
        → (upload_endpoint sessions join id hex max_mb tenants user file_name content e form site).1
          ≡ site
    unfolding upload_endpoint
    upload_endpoint-Untouched =
        depends-Untouched _ _ site (depends-Untouched _ _ site upload_file-Untouched)

  module _ (tx : IsTransactional sessions) where
    module _ (max_mb : ℕ) (tenants : List Tenant) (user : User) (file_name : Option String)
        (content : List ℕ) (e : EntityType) (form : Form) (site : Site S) where
      abbrev pub file_path : String
      file_path = join (stored_name hex (name_or_upload file_name))

      abbrev pub new_log : SyncLog
      new_log =
          pending_log id user.tenant_id SyncConnectorType.csv (name_or_upload file_name) file_path

      -- An upload that was accepted: the checks that it passed, and what it left.
      pub record IsAccepted (r : UploadResponse) (after : Site S) : Type 0 where
        pub active : user.is_active ≡ true
        pub role : any (role_eq user.role) uploaders ≡ true
        pub file_type : is_allowed (name_or_upload file_name) ≡ true
        pub not_empty : 0 < length content
        pub in_limit : length content ≤ max_mb * 1024 * 1024
        pub job_id : r.job_id ≡ id
        pub status : r.status ≡ "pending"
        pub stored : tx.stored id after.world.session ≡ some new_log
        pub files : after.world.files ≡ with_file file_path site.world.files
        pub queue :
            after.queue
            ≡ site.queue
              ++ record {
                sync_log_id = id;
                tenant_id = user.tenant_id;
                tenant_config =
                    upload_config (config_of (get_tenant_by_id tenants user.tenant_id)) e form;
              }
                ∷ []

  depends-reply :
      {A : Type 0} (o : Outcome User) (next : Reply A × Site S) (site : Site S) (r : A)
      → (depends sessions join id hex o next site).0 ≡ reply r
      → (u : User) × (o ≡ Outcome.ok u) × (depends sessions join id hex o next site ≡ next)
  unfolding depends
  depends-reply (Outcome.ok u) next site r h = (u, refl, refl)
  depends-reply (http c d) next site r h = cc
  depends-reply key_error next site r h = cc

  send-reply :
      (c : TenantConfig) (user : User) (queue : List Task) (x : Result SyncLog × World S)
      (r : UploadResponse)
      → (send sessions join id hex c user queue x).0 ≡ reply r
      → (log : SyncLog) × (x.0 ≡ ok log)
        × (r ≡ record { job_id = log.id; status = sync_status_value log.status })
        × ((send sessions join id hex c user queue x).1 ≡ record {
          world = x.1;
          queue =
              queue
              ++ record { sync_log_id = log.id; tenant_id = user.tenant_id; tenant_config = c }
                ∷ [];
        })
  unfolding send
  send-reply c user queue (raised x, w) r h = cc
  send-reply c user queue (ok log, w) r h = (log, refl, ground arith, refl)

  module _ (max_mb : ℕ) (tenants : List Tenant) (user : User) (file_name : Option String)
      (content : List ℕ) (e : EntityType) (form : Form) (site : Site S) where
    -- A file that is let through has passed the three checks.
    upload_file-reply :
        (r : UploadResponse)
        → (upload_file sessions join id hex max_mb tenants user file_name content e form site).0
          ≡ reply r
        → (is_allowed (name_or_upload file_name) ≡ true)
          × (0 < length content)
          × (length content ≤ max_mb * 1024 * 1024)
          × (upload_file sessions join id hex max_mb tenants user file_name content e form site
              ≡ accept sessions join id hex tenants user (name_or_upload file_name) e form site)
    unfolding upload_file
    upload_file-reply r h = elim (Bool-cases (is_allowed (name_or_upload file_name))) [
      | inr no_type ↦ cc (no_type, h)
      | inl type ↦ elim (Bool-cases (length content == 0)) [
        | inl empty ↦ cc (type, empty, h)
        | inr some_bytes ↦ elim (Bool-cases (ltb (max_mb * 1024 * 1024) (length content))) [
          | inl large ↦ cc (type, some_bytes, large, h)
          | inr small ↦ (type, ground arith, ground arith, rw (type, some_bytes, small) refl)
        ]
      ]
    ]

    active_user : (u : User) → get_current_active_user user ≡ Outcome.ok u → user.is_active ≡ true
    unfolding get_current_active_user
    active_user u h = ground arith

    allowed_role :
        (u : User)
        → require_role uploaders user ≡ Outcome.ok u
        → any (role_eq user.role) uploaders ≡ true
    unfolding require_role
    allowed_role u h = elim (Bool-cases (any (role_eq user.role) uploaders)) [
      | inl e ↦ e
      | inr e ↦ cc (e, h)
    ]

    -- An upload that is answered with a job was sent by an active owner, admin or ops user, with a file of
    -- an allowed type that is not empty and within the limit; the job's log is committed as pending, with
    -- the user's tenant and the stored file's path, and one task for it is in the queue, with the tenant's
    -- configuration for the chosen entity and the form's columns.
    pub upload_endpoint-IsAccepted :
        (tx : IsTransactional sessions) (r : UploadResponse)
        → (upload_endpoint sessions join id hex max_mb tenants user file_name content e form site).0
          ≡ reply r
        → IsAccepted tx max_mb tenants user file_name content e form site r
            (upload_endpoint sessions join id hex max_mb tenants user file_name content e form
              site).1
    unfolding upload_endpoint accept pending_log sync_status_value
    upload_endpoint-IsAccepted tx r h =
        let (u, active, e1) = depends-reply (get_current_active_user user) _ site r h in
        let h1 = ap (λ (x : Reply UploadResponse × Site S). x.0) (sym e1) ∙ h in
        let (v, role, e2) = depends-reply (require_role uploaders user) _ site r h1 in
        let h2 = ap (λ (x : Reply UploadResponse × Site S). x.0) (sym e2) ∙ h1 in
        let (type, some_bytes, small, e3) = upload_file-reply r h2 in
        let h3 = ap (λ (x : Reply UploadResponse × Site S). x.0) (sym e3) ∙ h2 in
        let (log, made, answer, after) =
          send-reply _ user site.queue
            (start_sync sessions join id hex user.tenant_id (name_or_upload file_name) "csv"
              site.world)
            r h3 in
        let saved =
          start_sync-Created sessions join tx id hex user.tenant_id (name_or_upload file_name) "csv"
            SyncConnectorType.csv site.world csv_member in
        let (same, stored, files) = saved.on_return log made in
        subst (λ x. IsAccepted tx max_mb tenants user file_name content e form site r x)
          (sym (ap (λ (x : Reply UploadResponse × Site S). x.1) (e1 ∙ e2 ∙ e3) ∙ after))
          (record {
            active = active_user u active;
            role = allowed_role v role;
            file_type = type;
            not_empty = some_bytes;
            in_limit = small;
            job_id = ap (λ (x : UploadResponse). x.job_id) answer ∙ ap (λ (x : SyncLog). x.id) same;
            status =
                ap (λ (x : UploadResponse). x.status) answer
                ∙ ap (λ (x : SyncLog). sync_status_value x.status) same;
            stored = stored;
            files = files;
            queue =
                ap
                  (λ (x : SyncLog).
                    site.queue
                    ++ record {
                      sync_log_id = x.id;
                      tenant_id = user.tenant_id;
                      tenant_config =
                          upload_config (config_of (get_tenant_by_id tenants user.tenant_id)) e
                            form;
                    }
                      ∷ [])
                  same;
          })
