-- ===== src/Normalizer/Database/Laws.antt =====
-- What the statements leave alone: the rows of the other tenants; and what a selection holds.
use mathlib.Core.List.{append-nil}
use nexus_inventory_platform.Base.{
  ℕ, List, [], ◌∷◌, ◌++◌, Bool, true, false, not, ◌==◌, if◌then◌else◌, ◌≡◌, ap, ◌∙◌, arith,
  Bool-cases, inl, inr,
}
use nexus_inventory_platform.Normalizer.Database.{
  TransactionValues, BatchValues, Tables, Statement, tenant_of, Answer, Answers, select, put,
  has_sku, has_batch_key,
}

module _ {A : Type 0} where
  -- What is selected passes the test.
  pub select_head :
      (p : A → Bool) (xs : List A) {a : A} {rest : List A} → select p xs ≡ a ∷ rest → p a ≡ true
  select_head p [] h = cc
  select_head p (x ∷ xs) {a} {rest} h = elim (Bool-cases (p x)) [
    | inl e ↦ ground (arith, e)
    | inr e ↦ select_head p xs {a = a} {rest = rest} (ground (arith, e))
  ]

  pub select-append :
      (p : A → Bool) (xs : List A) (a : A)
      → select p (xs ++ a ∷ []) ≡ select p xs ++ (if p a then a ∷ [] else [])
  select-append p [] a = ground arith
  select-append p (x ∷ xs) a = ground (arith, select-append p xs a)

  -- A `put` of a row that is not selected, over one that is not, does not show.
  pub select-put :
      (p same : A → Bool) (a : A) (xs : List A)
      → p a ≡ false
      → ((x : A) → same x ≡ true → p x ≡ false)
      → select p (put same a xs) ≡ select p xs
  select-put p same a [] h k = rw h
  select-put p same a (x ∷ xs) h k = elim (Bool-cases (same x)) [
    | inl e ↦ rw (e, h, k x e)
    | inr e ↦ rw (e, select-put p same a xs h k)
  ]

-- The rows of the tenants other than `t`.
abbrev pub outside : ℕ → Tables → Tables
outside t T = record {
  products = select (λ p. not (p.tenant_id == t)) T.products;
  locations = select (λ l. not (l.tenant_id == t)) T.locations;
  transactions = select (λ x. not (x.tenant_id == t)) T.transactions;
  batches = select (λ b. not (b.tenant_id == t)) T.batches;
}

append-outside :
    {A : Type 0} (p : A → Bool) (xs : List A) (a : A)
    → p a ≡ false
    → select p (xs ++ a ∷ []) ≡ select p xs
append-outside p xs a h = rw (select-append p xs a, h) (append-nil (select p xs))

-- A statement of one tenant changes no row of another.
pub Answers-outside :
    (q : Statement) (T : Tables) (a : Answer q) (T' : Tables)
    → Answers q T a T'
    → outside (tenant_of q) T' ≡ outside (tenant_of q) T
Answers-outside (Statement.upsert_product t n) T a T' (row, holds, key, own, sku, after) =
    ap (outside t) after ∙ (λ i. record (outside t T) {
      products =
          select-put (λ p. not (p.tenant_id == t)) (has_sku t n.sku_code) row T.products
            (ground (arith, holds.tenant)) (λ x e. ground (arith, e)) i;
    })
Answers-outside (Statement.select_products t s) T a T' h = ap (outside t) h.1
Answers-outside (Statement.select_locations t n) T a T' h = ap (outside t) h.1
Answers-outside (Statement.insert_location t n) T a T' h = ap (outside t) h.2 ∙ (λ i.
    record (outside t T) {
      locations =
          append-outside (λ l. not (l.tenant_id == t)) T.locations a (ground (arith, h.0)) i;
    })
Answers-outside (Statement.select_transactions v) T a T' h = ap (outside v.tenant_id) h.1
Answers-outside (Statement.insert_transaction v) T a T' h = ap (outside v.tenant_id) h.1 ∙ (λ i.
    record (outside v.tenant_id T) {
      transactions =
          append-outside (λ x. not (x.tenant_id == v.tenant_id)) T.transactions a
            (ground (arith, ap (λ (w : TransactionValues). w.tenant_id) h.0)) i;
    })
Answers-outside (Statement.upsert_batch v) T a T' h = ap (outside v.tenant_id) h.1 ∙ (λ i.
    record (outside v.tenant_id T) {
      batches =
          select-put (λ b. not (b.tenant_id == v.tenant_id)) (has_batch_key v) a T.batches
            (ground (arith, ap (λ (w : BatchValues). w.tenant_id) h.0)) (λ x e. ground (arith, e))
            i;
    })
