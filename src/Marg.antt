-- ===== src/Marg.antt =====
-- integrations/marg_hook/nexus_marg_sync.py: the conversion of Marg's raw exports into the platform's
-- standard CSV rows, the choice of the entities, and the polling of a job. The raw files are a
-- parameter, and so is what the server answers.
pub mod Headers
pub mod Polling
pub mod Main
pub mod Multipart
pub mod Requests
use nexus_inventory_platform.Base.{
  ℕ, zero, suc, String, List, [], ◌∷◌, ◌++◌, Option, none, some, Bool, true, false, not, ◌||◌, ◌&&◌,
  str_eq, if◌then◌else◌, any, ◌≡◌, refl,
}
use nexus_inventory_platform.Text.{strip}
use nexus_inventory_platform.Values.{lookup}

-- A row of csv.DictReader: a short row has no text (`none`) in its last columns.
abbrev pub RawRow : Type 0
RawRow = List (String × Option String)

abbrev pub StandardRow : Type 0
StandardRow = List (String × String)

abbrev pub default_location : String
default_location = "Main"

abbrev pub product_headers : List String
product_headers =
    "SKU Code" ∷ "Product Name" ∷ "Category" ∷ "UOM" ∷ "Unit Cost" ∷ "Selling Price" ∷ []

abbrev pub batch_headers : List String
batch_headers = "SKU Code" ∷ "Batch No" ∷ "MFD" ∷ "EXP" ∷ "Quantity" ∷ "Location" ∷ []

abbrev pub transaction_headers : List String
transaction_headers =
    "SKU Code" ∷ "Location" ∷ "Transaction Type" ∷ "Quantity" ∷ "Unit Cost" ∷ "Reference No"
    ∷ "Transaction Date" ∷ []

abbrev placeholders : List String
placeholders = "-  -" ∷ "- -" ∷ "nan" ∷ "NaN" ∷ "None" ∷ []

unfoldable pub clean : Option String → String
unfolding strip
clean none = ""
clean (some value) = let text = strip value in if any (str_eq text) placeholders then "" else text

-- `_clean_date`
abbrev pub clean_date : Option String → String
clean_date value = clean value

-- row.get(k)
cell : String → RawRow → Option String
unfolding lookup
cell k row = elim (lookup k row) [ none ↦ none | some v ↦ v ]

-- a or b, for cells: an empty text is false.
or_cell : Option String → Option String → Option String
or_cell none b = b
or_cell (some a) b = if str_eq a "" then b else some a

-- a or b, for texts
or_text : String → String → String
or_text a b = if str_eq a "" then b else a

is_blank : String → Bool
is_blank s = str_eq s ""

-- The loops `for row in rows: … continue … append`.
unfoldable pub transform : (RawRow → Option StandardRow) → List RawRow → List StandardRow
transform f [] = []
transform f (row ∷ rows) =
    let rest = transform f rows in elim (f row) [ none ↦ rest | some r ↦ r ∷ rest ]

unfoldable pub product_row : RawRow → Option StandardRow
unfolding clean cell or_cell or_text is_blank
product_row row =
    let sku = clean (cell "code" row) in
    let name = clean (or_cell (cell "name" row) (cell "billname" row)) in
    if is_blank sku || is_blank name
    then none
    else some (
        ("SKU Code", sku)
        ∷ ("Product Name", name)
        ∷ ("Category", clean (cell "product" row))
        ∷ ("UOM", or_text (clean (cell "unit" row)) "PCS")
        ∷ ("Unit Cost", clean (cell "prate" row))
        ∷ ("Selling Price", clean (cell "mrp" row))
        ∷ [])

unfoldable pub batch_row : String → RawRow → Option StandardRow
unfolding clean cell or_cell or_text is_blank
batch_row location row =
    let sku = clean (cell "code" row) in
    let batch_no = clean (or_cell (cell "batchno" row) (cell "mybatch" row)) in
    if is_blank sku || is_blank batch_no
    then none
    else some (
        ("SKU Code", sku)
        ∷ ("Batch No", batch_no)
        ∷ ("MFD", clean_date (cell "mfd" row))
        ∷ ("EXP", clean_date (cell "exp" row))
        ∷ ("Quantity", clean (cell "balance" row))
        ∷ ("Location", or_text (clean (cell "godwon" row)) location)
        ∷ [])

unfoldable pub transaction_row : String → RawRow → Option StandardRow
unfolding clean cell or_cell or_text is_blank
transaction_row location row =
    let sku = clean (cell "code" row) in
    let qty = clean (cell "qty" row) in
    let tx_date = clean_date (cell "date" row) in
    if is_blank sku || is_blank qty || is_blank tx_date
    then none
    else some (
        ("SKU Code", sku)
        ∷ ("Location", or_text (clean (cell "godwon" row)) location)
        ∷ ("Transaction Type", "out")
        ∷ ("Quantity", qty)
        ∷ ("Unit Cost", clean (cell "rate" row))
        ∷ ("Reference No", clean (or_cell (cell "vcn" row) (cell "voucher" row)))
        ∷ ("Transaction Date", tx_date)
        ∷ [])

unfoldable pub transform_product_rows : List RawRow → List StandardRow
unfolding transform product_row
transform_product_rows rows = transform product_row rows

unfoldable pub transform_batch_rows : String → List RawRow → List StandardRow
unfolding transform batch_row
transform_batch_rows location rows = transform (batch_row location) rows

unfoldable pub transform_transaction_rows : String → List RawRow → List StandardRow
unfolding transform transaction_row
transform_transaction_rows location rows = transform (transaction_row location) rows

-- The raw exports in the working directory; `none` where a file does not exist.
pub record Exports : Type 0 where
  pub pro_full : Option (List RawRow)
  pub probat_full : Option (List RawRow)
  pub dis_full : Option (List RawRow)
  pub dis_sample : Option (List RawRow)

-- `_first_existing`
unfoldable pub first_existing {ℓ} : {A : Type ℓ} → List (Option A) → Option A
first_existing [] = none
first_existing (none ∷ os) = first_existing os
first_existing (some a ∷ os) = some a

abbrev pub Outputs : Type 0
Outputs = List (String × List StandardRow)

output : String → Option (List StandardRow) → Outputs
output k none = []
output k (some rows) = (k, rows) ∷ []

map_option : (List RawRow → List StandardRow) → Option (List RawRow) → Option (List StandardRow)
map_option f none = none
map_option f (some rows) = some (f rows)

-- The standard files that are written, by entity.
unfoldable pub prepare_standard_csvs : String → Exports → Outputs
unfolding output map_option first_existing transform_product_rows transform_batch_rows
    transform_transaction_rows
prepare_standard_csvs location e =
    output "products" (map_option transform_product_rows e.pro_full)
    ++ output "batches" (map_option (transform_batch_rows location) e.probat_full)
    ++ output "transactions" (
        map_option (transform_transaction_rows location)
          (first_existing (e.dis_full ∷ e.dis_sample ∷ [])))

pick {ℓ} : {A : Type ℓ} → List (String × A) → List String → List (String × A)
unfolding lookup
pick outputs [] = []
pick outputs (entity ∷ order) =
    let rest = pick outputs order in
    elim (lookup entity outputs) [ none ↦ rest | some path ↦ (entity, path) ∷ rest ]

order_of : String → List String
order_of command =
    if str_eq command "sync-products"
    then "products" ∷ []
    else if str_eq command "sync-batches"
    then "batches" ∷ []
    else if str_eq command "sync-transactions"
    then "transactions" ∷ []
    else "products" ∷ "batches" ∷ "transactions" ∷ []

unfoldable pub selected_entities {ℓ} : {A : Type ℓ} → String → List (String × A) → List (String × A)
unfolding pick order_of
selected_entities command outputs = pick outputs (order_of command)

-- How a call of the API, or a loop of them, ends; `none` of a status is an exception of the call.
pub data Polled : Type 0 where
  finished : Polled
  sync_failed : Polled
  timed_out : Polled
  call_failed : Polled

-- One round for each status that the server would give; the source asks at most 90 times.
unfoldable pub poll_rounds : ℕ → (ℕ → Option String) → ℕ → Polled
poll_rounds zero reply k = timed_out
poll_rounds (suc rounds) reply k =
    let later = poll_rounds rounds reply (suc k) in
    elim (reply k) [
      | none ↦ call_failed
      | some status ↦
          if str_eq status "completed"
          then finished
          else if str_eq status "failed"
          then sync_failed
          else later
    ]

unfoldable pub poll_status : (ℕ → Option String) → Polled
unfolding poll_rounds
poll_status reply = poll_rounds 90 reply zero
