-- ===== src/Normalizer/Rows.antt =====
-- app/integrations/normalizer.py: the normalize methods of `DataNormalizer`.
use nexus_inventory_platform.Base.{String, Option, none, some, if◌then◌else◌, pos, []}
use nexus_inventory_platform.Text.{strip, lower}
use nexus_inventory_platform.Dates.{Date}
use nexus_inventory_platform.Models.{
  Attributes, transaction_type, NormalizedProduct, NormalizedInventoryRecord, NormalizedTransaction,
  NormalizedBatch,
}
use nexus_inventory_platform.Values.{
  Runtime, Result, ok, raised, Raised, normalization_error, Reason, missing_field, Value, Row,
  Mapping, ◌>>=◌, catch_value, or_raise, get, get_or, str, truthy,
}
use nexus_inventory_platform.Normalizer.Convert.{
  Dated, day, moment, parse_date, parse_datetime, to_paise, to_int, apply_mapping,
}

module _ (py : Runtime) where
  -- if not value: raise NormalizationError("Missing required field: …")
  unfoldable pub required : String → Row → Result Value
  unfolding get truthy
  required k mapped =
      let v = get k mapped in
      if truthy py v then ok v else raised (normalization_error (missing_field k))

  -- str(v).strip() if (v := mapped.get(k)) else None
  unfoldable pub optional_text : String → Row → Option String
  unfolding get truthy str
  optional_text k mapped =
      let v = get k mapped in if truthy py v then some (strip (str py v)) else none

  -- value or default
  unfoldable pub or_else : Value → Value → Value
  unfolding truthy
  or_else v d = if truthy py v then v else d

  -- The check of a `dict` field by pydantic, whose ValidationError is a ValueError.
  as_dict : Value → Result Attributes
  as_dict (Value.dict a) = ok a
  as_dict v = raised Raised.value_error

  product_fields : Row → Value → Value → Result NormalizedProduct
  unfolding optional_text or_else as_dict to_paise get get_or str
  product_fields mapped sku_code name = do
    cost ← to_paise py (get_or "unit_cost_paise" mapped (Value.int (pos 0)))
    price ← to_paise py (get_or "selling_price_paise" mapped (Value.int (pos 0)))
    attributes ← as_dict (or_else (get "industry_attributes" mapped) (Value.dict []))
    ok (record {
      sku_code = strip (str py sku_code);
      name = strip (str py name);
      category = optional_text "category" mapped;
      unit_of_measure = strip (str py (or_else (get "unit_of_measure" mapped) (Value.text "pcs")));
      unit_cost_paise = cost;
      selling_price_paise = price;
      industry_attributes = attributes;
    })

  unfoldable pub normalize_product : Row → Mapping → Result NormalizedProduct
  unfolding required product_fields apply_mapping
  normalize_product row mapping = do
    let mapped = apply_mapping row mapping
    sku_code ← required "sku_code" mapped
    name ← required "name" mapped
    catch_value Reason.invalid_value (product_fields mapped sku_code name)

  unfoldable pub normalize_inventory : Row → Mapping → Result NormalizedInventoryRecord
  unfolding required optional_text apply_mapping to_int to_paise get_or str
  normalize_inventory row mapping = do
    let mapped = apply_mapping row mapping
    sku_code ← required "sku_code" mapped
    location_name ← required "location_name" mapped
    quantity ←
        catch_value Reason.invalid_quantity
          (to_int py (get_or "quantity" mapped (Value.int (pos 0))))
    cost ← to_paise py (get_or "unit_cost_paise" mapped (Value.int (pos 0)))
    ok (record {
      sku_code = strip (str py sku_code);
      quantity = quantity;
      location_name = strip (str py location_name);
      batch_no = optional_text "batch_no" mapped;
      unit_cost_paise = cost;
    })

  -- `is None`, where the other required fields test for falsehood
  required_date : Value → Result Value
  required_date Value.null = raised (normalization_error (missing_field "transaction_date"))
  required_date v = ok v

  unfoldable pub normalize_transaction : Row → Mapping → Result NormalizedTransaction
  unfolding required required_date optional_text apply_mapping parse_datetime transaction_type
      to_int to_paise get get_or str
  normalize_transaction row mapping = do
    let mapped = apply_mapping row mapping
    sku_code ← required "sku_code" mapped
    location_name ← required "location_name" mapped
    txn_date ← required_date (get "transaction_date" mapped)
    parsed_date ← catch_value Reason.invalid_transaction_date (parse_datetime py txn_date)
    tt ← or_raise (normalization_error Reason.invalid_transaction_type) (
        transaction_type
          (lower (strip (str py (get_or "transaction_type" mapped (Value.text "in"))))))
    quantity ←
        catch_value Reason.invalid_quantity
          (to_int py (get_or "quantity" mapped (Value.int (pos 0))))
    cost ← to_paise py (get_or "unit_cost_paise" mapped (Value.int (pos 0)))
    ok (record {
      sku_code = strip (str py sku_code);
      location_name = strip (str py location_name);
      transaction_type = tt;
      quantity = quantity;
      unit_cost_paise = cost;
      reference_no = optional_text "reference_no" mapped;
      transaction_date = parsed_date;
    })

  -- What the `date | None` field of a pydantic model makes of a result of `_parse_date`.
  date_field : Option Dated → Result (Option Date)
  date_field none = ok none
  date_field (some (day d)) = ok (some d)
  date_field (some (moment t)) = do d ← or_raise Raised.value_error (py.exact_date t); ok (some d)

  -- self._parse_date(v) if v else None
  optional_date : Value → Result (Option Dated)
  unfolding truthy parse_date
  optional_date v = if truthy py v then parse_date py v else ok none

  unfoldable pub normalize_batch : Row → Mapping → Result NormalizedBatch
  unfolding required optional_text optional_date date_field apply_mapping to_int get get_or str
  normalize_batch row mapping = do
    let mapped = apply_mapping row mapping
    sku_code ← required "sku_code" mapped
    batch_no ← required "batch_no" mapped
    quantity ←
        catch_value Reason.invalid_quantity
          (to_int py (get_or "quantity" mapped (Value.int (pos 0))))
    mfg ← optional_date (get "manufactured_date" mapped)
    exp ← optional_date (get "expiry_date" mapped)
    manufactured ← date_field mfg
    expiry ← date_field exp
    ok (record {
      sku_code = strip (str py sku_code);
      batch_no = strip (str py batch_no);
      manufactured_date = manufactured;
      expiry_date = expiry;
      quantity = quantity;
      location_name = optional_text "location_name" mapped;
    })
