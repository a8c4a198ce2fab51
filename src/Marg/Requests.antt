-- ===== src/Marg/Requests.antt =====
-- integrations/marg_hook/nexus_marg_sync.py: the arguments of a run, and the requests by which the hook
-- calls the API.
use Prim.Native.Char.{code}
use Prim.Native.String.{[], ◌∷◌, ◌++◌ as append}
use nexus_inventory_platform.Base.{
  ℕ, String, List, [], ◌∷◌, Option, none, some, Bool, not, str_eq, ◌==◌, if◌then◌else◌, any, ◌≡◌,
  refl,
}
use nexus_inventory_platform.Values.{lookup}
use nexus_inventory_platform.Marg.{
  StandardRow, Exports, product_headers, batch_headers, transaction_headers, default_location,
}
use nexus_inventory_platform.Marg.Main.{Arguments, Payload, Api, Run, main}
use nexus_inventory_platform.Marg.Multipart.{Bytes, multipart}

abbrev default_base_url : String
default_base_url = "http://127.0.0.1:8000/api/v1"

abbrev default_work_dir : String
default_work_dir = "C:\\marg-sync"

-- What argparse finds of each option; `none` where it is not given.
record Options : Type 0 where
  command : String
  base_url : Option String
  email : Option String
  password : Option String
  token : Option String
  work_dir : Option String
  default_location : Option String
  no_poll : Bool

abbrev commands : List String
commands = "status" ∷ "sync-all" ∷ "sync-products" ∷ "sync-batches" ∷ "sync-transactions" ∷ []

-- An option that is not given is that of the environment, os.getenv(key, default).
or_else : Option String → Option String → String → String
or_else (some given) variable default = given
or_else none (some v) default = v
or_else none none default = default

-- `_parse_args`; a command that is none of the choices ends the program before `main` does anything.
parse_args : (String → Option String) → Options → Option Arguments
unfolding or_else
parse_args getenv o =
    if any (str_eq o.command) commands
    then some (record {
      command = o.command;
      base_url = or_else o.base_url (getenv "NEXUS_BASE_URL") default_base_url;
      email = or_else o.email (getenv "NEXUS_EMAIL") "";
      password = or_else o.password (getenv "NEXUS_PASSWORD") "";
      token = or_else o.token (getenv "NEXUS_TOKEN") "";
      work_dir = or_else o.work_dir (getenv "MARG_SYNC_DIR") default_work_dir;
      default_location =
          or_else o.default_location (getenv "MARG_DEFAULT_LOCATION") default_location;
      poll = not o.no_poll;
    })
    else none

record Request : Type 0 where
  url : String
  method : String
  headers : List (String × String)
  body : Option Bytes

data Reply : Type 0 where
  response : Bytes → Reply
  http_error : ℕ → Bytes → Reply
  unreachable : Reply

-- Python's libraries. `urlopen` answers a request by how often it has been sent before; `loads` gives
-- the members of a JSON object, and `none` for any other text; `written` is the file that csv.DictWriter
-- writes for a header and its rows.
record Http : Type 0 where
  urlopen : ℕ → Request → Reply
  loads : Bytes → Option Payload
  urlencode : List (String × String) → Bytes
  uuid4_hex : String → String
  guess_type : String → Option String
  written : List String → List StandardRow → Bytes

-- base_url.rstrip("/")
without_slash : String → String
without_slash [] = []
without_slash (c ∷ s) =
    let rest = without_slash s in
    elim rest [ [] ↦ if code c == b'/' then [] else c ∷ [] | d ∷ t ↦ c ∷ d ∷ t ]

-- The header of an entity in STANDARD_HEADERS.
standard_headers : String → List String
standard_headers entity =
    if str_eq entity "products"
    then product_headers
    else if str_eq entity "batches"
    then batch_headers
    else transaction_headers

member : String → Option Payload → Option String
unfolding lookup
member key none = none
member key (some payload) = lookup key payload

module _ (http : Http) where
  -- Every exception of `_json` ends the run in the same way.
  read_reply : Reply → Option Payload
  read_reply (Reply.response body) = http.loads body
  read_reply (Reply.http_error code body) = none
  read_reply Reply.unreachable = none

  -- `_json`
  json : ℕ → Request → Option Payload
  unfolding read_reply
  json sent request = read_reply (http.urlopen sent request)

  login : String → String → String → Option String
  unfolding json member without_slash
  login base_url email password = member "access_token" (
      json 0 (record {
        url = append (without_slash base_url) "/auth/login";
        method = "POST";
        headers = ("Content-Type", "application/x-www-form-urlencoded") ∷ [];
        body = some (
            http.urlencode
              (("username", email) ∷ ("password", password) ∷ ("grant_type", "password") ∷ []));
      }))

  boundary_of : String → String
  boundary_of entity = append "----nexus-marg-" (http.uuid4_hex entity)

  -- upload_csv, of the file that prepare_standard_csvs has written for the entity.
  upload_csv : String → String → String → List StandardRow → Option Payload
  unfolding json without_slash boundary_of multipart standard_headers
  upload_csv base_url token entity rows =
      let name = append entity ".csv" in
      json 0 (record {
        url = append (without_slash base_url) "/integrations/upload";
        method = "POST";
        headers =
            ("Authorization", append "Bearer " token)
            ∷ ("Content-Type", append "multipart/form-data; boundary=" (boundary_of entity))
            ∷ [];
        body = some (
            multipart (boundary_of entity) (("entity_type", entity) ∷ []) "file" name
              (http.guess_type name) (http.written (standard_headers entity) rows));
      })

  -- The status in one round of poll_status.
  status_in_round : String → String → String → ℕ → Option String
  unfolding json member without_slash
  status_in_round base_url token job_id round = member "status" (
      json round (record {
        url =
            append (without_slash base_url)
              (append "/integrations/upload/" (append job_id "/status"));
        method = "GET";
        headers = ("Authorization", append "Bearer " token) ∷ [];
        body = none;
      }))

  http_api : String → Api
  unfolding login upload_csv status_in_round
  http_api base_url = record {
    login = login base_url;
    upload = upload_csv base_url;
    status = status_in_round base_url;
  }

  -- A run from the options, with the exports that a working directory has.
  run : (String → Option String) → (String → Exports) → Options → Option Run
  unfolding parse_args http_api main
  run getenv exports o = elim (parse_args getenv o) [
    | none ↦ none
    | some args ↦ some (main args (http_api args.base_url) (exports args.work_dir))
  ]

test_without_slash : without_slash "http://nexus/api/v1//" ≡ "http://nexus/api/v1"
unfolding without_slash
test_without_slash = refl
