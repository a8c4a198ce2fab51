-- ===== src/Routes/Uploads/Job.antt =====
-- From the upload of app/routes/integrations.py to the job of app/services/sync.py: the queued task finds the
-- log and the file of its upload.
use nexus_inventory_platform.Base.{ℕ, String, List, Option, some, ◌≡◌, ap, sym, ◌∙◌}
use nexus_inventory_platform.Dates.{DateTime}
use nexus_inventory_platform.Values.{Runtime, Result, Row}
use nexus_inventory_platform.Auth.{User, Tenant, get_tenant_by_id}
use nexus_inventory_platform.Sync.Process.{Sessions, process_sync}
use nexus_inventory_platform.Sync.Process.Outcome.{IsTransactional, Ends, process_sync_file}
use nexus_inventory_platform.Sync.Start.{stored_name, with_file, pending_log}
use nexus_inventory_platform.Routes.Uploads.{
  EntityType, Form, name_or_upload, config_of, upload_config, Site, UploadResponse, reply,
  upload_endpoint,
}
use nexus_inventory_platform.Routes.Uploads.Accepted.{upload_endpoint-IsAccepted}

module _ {S : Type 0} (sessions : Sessions S) (tx : IsTransactional sessions)
    (join : String → String) (id : ℕ) (hex : String) (max_mb : ℕ) (tenants : List Tenant)
    (user : User) (file_name : Option String) (content : List ℕ) (e : EntityType) (form : Form)
    (site : Site S) where
  abbrev after : Site S
  after = (upload_endpoint sessions join id hex max_mb tenants user file_name content e form site).1

  abbrev path : String
  path = join (stored_name hex (name_or_upload file_name))

  -- The first run of the job that an accepted upload is answered with, at any time and whatever the file
  -- reads as, starts from the files with the upload among them, and raises with all of them kept, or returns
  -- with the upload deleted and no other.
  pub upload_endpoint-Ends :
      (py : Runtime) (now : DateTime) (read : String → Result (List Row)) (r : UploadResponse)
      → (upload_endpoint sessions join id hex max_mb tenants user file_name content e form site).0
        ≡ reply r
      → Ends py sessions (some path) (with_file path site.world.files) (
          process_sync py sessions r.job_id user.tenant_id
            (upload_config (config_of (get_tenant_by_id tenants user.tenant_id)) e form)
            now
            read
            after.world)
  unfolding pending_log
  upload_endpoint-Ends py now read r h =
      let a =
        upload_endpoint-IsAccepted sessions join id hex max_mb tenants user file_name content e form
          site tx r h in
      let found =
        ap (λ i. sessions.get_log i after.world.session) a.job_id
        ∙ tx.on_get id after.world.session
        ∙ a.stored in
      rw (sym a.files) (
        process_sync_file py sessions r.job_id user.tenant_id
          (upload_config (config_of (get_tenant_by_id tenants user.tenant_id)) e form) now read _
          after.world found)
