-- ===== src/Marg/Headers.antt =====
-- The rows that integrations/marg_hook/nexus_marg_sync.py writes, against the headers of its files.
use nexus_inventory_platform.Base.{
  String, List, [], ◌∷◌, Option, none, some, Bool, true, false, ◌≡◌, refl, All, str_eq, not, arith,
}
use nexus_inventory_platform.Values.{lookup}
use nexus_inventory_platform.Marg.{
  RawRow, StandardRow, product_headers, batch_headers, transaction_headers, transform, product_row,
  batch_row, transaction_row, transform_product_rows, transform_batch_rows,
  transform_transaction_rows,
}

-- The columns of a row, in order.
abbrev pub columns : StandardRow → List String
columns [] = []
columns ((k, v) ∷ row) = k ∷ columns row

abbrev pub is_given : String → StandardRow → Bool
is_given k row = elim (lookup k row) [ none ↦ false | some v ↦ not (str_eq v "") ]

-- The columns that the platform requires of a transaction.
abbrev pub transaction_needs : List String
transaction_needs = "SKU Code" ∷ "Location" ∷ "Quantity" ∷ "Transaction Date" ∷ []

-- Exactly the columns of a file, with a text in each of the required ones.
abbrev pub Fits : List String → List String → StandardRow → Type 0
Fits headers needed row = (columns row ≡ headers) × All (λ k. is_given k row ≡ true) needed

transform-All :
    (P : StandardRow → Type 0) (f : RawRow → Option StandardRow)
    → ((row : RawRow) (r : StandardRow) → f row ≡ some r → P r)
    → (rows : List RawRow) → All P (transform f rows)
unfolding transform
transform-All P f h [] = tt
transform-All P f h (row ∷ rows) = go (f row) (h row) (transform-All P f h rows)
  where
    go :
        (o : Option StandardRow)
        → ((r : StandardRow) → o ≡ some r → P r)
        → All P (transform f rows)
        → All P (elim o [ none ↦ transform f rows | some r ↦ r ∷ transform f rows ])
    go none k later = later
    go (some r) k later = (k r refl, later)

product_row-Fits :
    (row : RawRow) (r : StandardRow)
    → product_row row ≡ some r
    → Fits product_headers ("SKU Code" ∷ "Product Name" ∷ []) r
unfolding product_row lookup
product_row-Fits row r e = ground arith

batch_row-Fits :
    (location : String) (row : RawRow) (r : StandardRow)
    → batch_row location row ≡ some r
    → Fits batch_headers ("SKU Code" ∷ "Batch No" ∷ []) r
unfolding batch_row lookup
batch_row-Fits location row r e = ground arith

transaction_row-Fits :
    (location : String)
    → str_eq location "" ≡ false
    → (row : RawRow) (r : StandardRow) → transaction_row location row ≡ some r
    → Fits transaction_headers transaction_needs r
unfolding transaction_row lookup
transaction_row-Fits location named row r e = ground arith

-- With a default location that is not empty, every row of the three transformed files has exactly the
-- columns of its file, in order, and a text that is not empty in its SKU, in the name of a product, in
-- the number of a batch, and in the location, the quantity and the date of a transaction.
pub transform_rows-Fits :
    (location : String) (rows : List RawRow)
    → str_eq location "" ≡ false
    → All (Fits product_headers ("SKU Code" ∷ "Product Name" ∷ [])) (transform_product_rows rows)
      × All (Fits batch_headers ("SKU Code" ∷ "Batch No" ∷ [])) (transform_batch_rows location rows)
      × All (Fits transaction_headers transaction_needs) (transform_transaction_rows location rows)
unfolding transform_product_rows transform_batch_rows transform_transaction_rows
transform_rows-Fits location rows named = (
  transform-All _ product_row product_row-Fits rows,
  transform-All _ (batch_row location) (batch_row-Fits location) rows,
  transform-All _ (transaction_row location) (transaction_row-Fits location named) rows,
)
