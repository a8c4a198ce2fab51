-- ===== src/Marg/Main.antt =====
-- integrations/marg_hook/nexus_marg_sync.py: `main`, from the parsed arguments to the exit code. The API
-- is a parameter: what a call gives, with `none` for an exception; the log file is left out.
use nexus_inventory_platform.Base.{
  ℕ, String, List, [], ◌∷◌, ◌++◌, Option, none, some, Bool, true, false, not, ◌||◌, str_eq,
  if◌then◌else◌, ◌≡◌, ◌≢◌, refl, ap, ◌⊎◌, inl, inr, subst, sym, if-cases,
}
use nexus_inventory_platform.Values.{lookup}
use nexus_inventory_platform.Marg.{
  StandardRow, Exports, Outputs, prepare_standard_csvs, selected_entities, Polled, finished,
  sync_failed, timed_out, call_failed, poll_status,
}

pub record Arguments : Type 0 where
  pub command : String
  pub base_url : String
  pub email : String
  pub password : String
  pub token : String
  pub work_dir : String
  pub default_location : String
  pub poll : Bool

-- A decoded answer: the members of a JSON object, each as `str` gives it.
abbrev pub Payload : Type 0
Payload = List (String × String)

-- login, upload_csv for an entity and its file, and the status of a job at each poll
pub record Api : Type 0 where
  pub login : String → String → Option String
  pub upload : String → String → List StandardRow → Option Payload
  pub status : String → String → ℕ → Option String

-- How `main` ends: its exit code, and the entities whose files the server has accepted, in order.
pub record Run : Type 0 where
  pub code : ℕ
  pub uploaded : List String

-- One more upload before the rest of a run.
abbrev uploading : String → Run → Run
uploading entity r = record r { uploaded = entity ∷ r.uploaded }

abbrev stopped : List String → Run
stopped entities = record { code = 1; uploaded = entities }

-- Any end of the polling but the first is an exception.
after_poll : String → Polled → Run → Run
after_poll entity finished later = uploading entity later
after_poll entity sync_failed later = stopped (entity ∷ [])
after_poll entity timed_out later = stopped (entity ∷ [])
after_poll entity call_failed later = stopped (entity ∷ [])

module _ (api : Api) (poll : Bool) (token : String) where
  -- poll_status(…, str(job["job_id"]))
  poll_job : Option String → Polled
  unfolding poll_status
  poll_job none = call_failed
  poll_job (some job_id) = poll_status (api.status token job_id)

  -- The body of the loop, with what the rest of it does.
  after_upload : String → Option Payload → Run → Run
  unfolding after_poll poll_job lookup
  after_upload entity none later = stopped []
  after_upload entity (some job) later =
      if poll
      then after_poll entity (poll_job (lookup "job_id" job)) later
      else uploading entity later

  unfoldable pub upload_all : Outputs → Run
  unfolding after_upload
  upload_all [] = record { code = 0; uploaded = [] }
  upload_all ((entity, rows) ∷ rest) =
      after_upload entity (api.upload token entity rows) (upload_all rest)

-- if not selected: raise
upload_selected : Api → Bool → String → Outputs → Run
unfolding upload_all
upload_selected api poll token [] = stopped []
upload_selected api poll token (o ∷ rest) = upload_all api poll token (o ∷ rest)

with_token : Arguments → Api → Exports → Option String → Run
unfolding upload_selected selected_entities prepare_standard_csvs
with_token args api exports none = stopped []
with_token args api exports (some token) =
    if str_eq args.command "status"
    then record { code = 0; uploaded = [] }
    else upload_selected api args.poll token
        (selected_entities args.command (prepare_standard_csvs args.default_location exports))

unfoldable pub main : Arguments → Api → Exports → Run
unfolding with_token
main args api exports =
    if not (str_eq args.token "")
    then with_token args api exports (some args.token)
    else if str_eq args.email "" || str_eq args.password ""
    then stopped []
    else with_token args api exports (api.login args.email args.password)

abbrev pub names {ℓ} : {A : Type ℓ} → List (String × A) → List String
names [] = []
names ((k, a) ∷ rest) = k ∷ names rest

-- A run of the loop: with exit code 0 it has uploaded all the files, and else, with exit code 1, the
-- first ones.
pub record Uploads (outputs : Outputs) (r : Run) : Type 0 where
  pub rest : List String
  pub order : names outputs ≡ r.uploaded ++ rest
  pub outcome : ((r.code ≡ 0) × (rest ≡ [])) ⊎ (r.code ≡ 1)

uploading-Uploads :
    (entity : String) (rows : List StandardRow) (rest : Outputs) (later : Run)
    → Uploads rest later
    → Uploads ((entity, rows) ∷ rest) (uploading entity later)
uploading-Uploads entity rows rest later h = record {
  rest = h.rest;
  order = ap (λ ns. entity ∷ ns) h.order;
  outcome = h.outcome;
}

after_poll-Uploads :
    (entity : String) (rows : List StandardRow) (rest : Outputs) (p : Polled) (later : Run)
    → Uploads rest later
    → Uploads ((entity, rows) ∷ rest) (after_poll entity p later)
unfolding after_poll
after_poll-Uploads entity rows rest finished later h = uploading-Uploads entity rows rest later h
after_poll-Uploads entity rows rest sync_failed later h = record {
  rest = names rest;
  order = refl;
  outcome = inr refl;
}
after_poll-Uploads entity rows rest timed_out later h = record {
  rest = names rest;
  order = refl;
  outcome = inr refl;
}
after_poll-Uploads entity rows rest call_failed later h = record {
  rest = names rest;
  order = refl;
  outcome = inr refl;
}

module _ (api : Api) (token : String) where
  after_upload-Uploads :
      (poll : Bool) (entity : String) (rows : List StandardRow) (rest : Outputs)
      (o : Option Payload) (later : Run)
      → Uploads rest later
      → Uploads ((entity, rows) ∷ rest) (after_upload api poll token entity o later)
  unfolding after_upload
  after_upload-Uploads poll entity rows rest none later h = record {
    rest = entity ∷ names rest;
    order = refl;
    outcome = inr refl;
  }
  after_upload-Uploads true entity rows rest (some job) later h =
      after_poll-Uploads entity rows rest _ later h
  after_upload-Uploads false entity rows rest (some job) later h =
      uploading-Uploads entity rows rest later h

  upload_all-Uploads :
      (poll : Bool) (outputs : Outputs) → Uploads outputs (upload_all api poll token outputs)
  unfolding upload_all
  upload_all-Uploads poll [] = record { rest = []; order = refl; outcome = inl (refl, refl) }
  upload_all-Uploads poll ((entity, rows) ∷ rest) =
      after_upload-Uploads poll entity rows rest _ _ (upload_all-Uploads poll rest)

-- A sync that got as far as an upload: the selected entities are not none, and `Uploads` says how it went.
abbrev pub Syncs : Outputs → Run → Type 0
Syncs selected r = ((r.code ≡ 1) × (r.uploaded ≡ [])) ⊎ (Uploads selected r × (names selected ≢ []))

upload_selected-Syncs :
    (api : Api) (poll : Bool) (token : String) (outputs : Outputs)
    → Syncs outputs (upload_selected api poll token outputs)
unfolding upload_selected
upload_selected-Syncs api poll token [] = inl (refl, refl)
upload_selected-Syncs api poll token ((k, rows) ∷ rest) =
    inr (upload_all-Uploads api token poll ((k, rows) ∷ rest), λ h. cc h)

with_token-Syncs :
    (args : Arguments) (api : Api) (exports : Exports) (o : Option String)
    → str_eq args.command "status" ≡ false
    → Syncs
        (selected_entities args.command (prepare_standard_csvs args.default_location exports))
        (with_token args api exports o)
unfolding with_token
with_token-Syncs args api exports none h = inl (refl, refl)
with_token-Syncs args api exports (some token) h =
    let selected =
      upload_selected api args.poll token
        (selected_entities args.command (prepare_standard_csvs args.default_location exports)) in
    let same : with_token args api exports (some token) ≡ selected = simp h in
    subst
      (Syncs (selected_entities args.command (prepare_standard_csvs args.default_location exports)))
      (sym same) (upload_selected-Syncs api args.poll token _)

-- A run of any command but `status` ends with exit code 0 only when the server has accepted the file of
-- every selected entity, at least one, in their order, and otherwise with exit code 1 after the first of
-- them, or none.
pub main-Syncs :
    (args : Arguments) (api : Api) (exports : Exports)
    → str_eq args.command "status" ≡ false
    → Syncs
        (selected_entities args.command (prepare_standard_csvs args.default_location exports))
        (main args api exports)
unfolding main
main-Syncs args api exports h =
    if-cases
      (Syncs (selected_entities args.command (prepare_standard_csvs args.default_location exports)))
      (not (str_eq args.token "")) (with_token-Syncs args api exports (some args.token) h)
      (if-cases
        (Syncs
          (selected_entities args.command (prepare_standard_csvs args.default_location exports)))
        (str_eq args.email "" || str_eq args.password "") (inl (refl, refl))
        (with_token-Syncs args api exports _ h))
