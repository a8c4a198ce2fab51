-- ===== src/Routes/Products.antt =====
-- app/routes/products.py: one page of a tenant's products. What its two queries answer is an argument: the
-- number of the products that the session sees, which has the tenant's context, and the rows of a page by
-- its offset and its limit. The page is ordered by `created_at` alone, so the order among products of one
-- transaction is PostgreSQL's.
use nexus_inventory_platform.Base.{ℕ, List, Option, none, some, Bool, ◌&&◌, leb, if◌then◌else◌}
use nexus_inventory_platform.Values.{Result}
use nexus_inventory_platform.Exec.{pure, ◌>>=◌}
use nexus_inventory_platform.Normalizer.Database.{Product}

pub record ProductList : Type 0 where
  pub items : List Product
  pub total : ℕ

-- Query(ge=1, le=1000) of `limit`; `skip` is a natural number here, which is its Query(ge=0).
unfoldable pub is_limit : ℕ → Bool
is_limit limit = leb 1 limit && leb limit 1000

-- `none` where the parameters are refused before the handler.
unfoldable pub list_products :
    {S : Type 0}
    → (S → Result ℕ × S)
    → (ℕ → ℕ → S → Result (List Product) × S)
    → ℕ
    → ℕ
    → S
    → Option (Result ProductList × S)
unfolding is_limit
list_products count select_page skip limit s =
    if is_limit limit
    then some (
        (count >>= λ total.
        select_page skip limit >>= λ products. pure (record { items = products; total = total }))
          s)
    else none
