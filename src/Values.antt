-- ===== src/Values.antt =====
-- Python values as rows hold them, exceptions as results, and what the model takes from the
-- interpreter without defining it: the arithmetic of doubles, given by their bit patterns, and the
-- texts that `str` prints for values that are not texts.
use nexus_inventory_platform.Base.{
  ℕ, String, List, [], ◌∷◌, Option, none, some, Bool, true, false, not, str_eq, ◌==◌, if◌then◌else◌,
  ℤ, pos, ◌≡◌, refl, arith, eq_iff, eq_refl, ◌∙◌,
}
use nexus_inventory_platform.Dates.{Date, DateTime}
use nexus_inventory_platform.Models.{TransactionType, Attributes, transaction_type_value}

-- The message of a NormalizationError, without the text of the exception that caused it.
pub data Reason : Type 0 where
  missing_field : String → Reason
  invalid_value : Reason
  invalid_quantity : Reason
  invalid_transaction_date : Reason
  invalid_transaction_type : Reason
  product_not_found : String → Reason

-- The exceptions that the modelled code raises or lets through.
pub data Raised : Type 0 where
  normalization_error : Reason → Raised
  value_error : Raised
  overflow_error : Raised
  database_error : Raised
  connector_error : Raised
  multiple_results : Raised
  os_error : Raised

pub data Result {ℓ} (A : Type ℓ) : Type ℓ where
  ok : A → Result A
  raised : Raised → Result A

infixl 5 ◌>>=◌
abbrev pub ◌>>=◌ {ℓ κ} : {A : Type ℓ} {B : Type κ} → Result A → (A → Result B) → Result B
ok a >>= f = f a
raised e >>= f = raised e

-- Inversion of a successful bind.
pub >>=-eq-ok {ℓ κ} :
    {A : Type ℓ} {B : Type κ} (r : Result A) (f : A → Result B) {b : B}
    → (r >>= f) ≡ ok b
    → (a : A) × (r ≡ ok a) × (f a ≡ ok b)
>>=-eq-ok (ok a) f h = (a, refl, h)
>>=-eq-ok (raised e) f h = cc

-- except (ValueError, TypeError): raise NormalizationError(reason). NormalizationError is a
-- ValueError, and is turned too.
abbrev pub catch_value {ℓ} : {A : Type ℓ} → Reason → Result A → Result A
catch_value r (ok a) = ok a
catch_value r (raised (normalization_error m)) = raised (normalization_error r)
catch_value r (raised Raised.value_error) = raised (normalization_error r)
catch_value r (raised Raised.overflow_error) = raised Raised.overflow_error
catch_value r (raised Raised.database_error) = raised Raised.database_error
catch_value r (raised Raised.connector_error) = raised Raised.connector_error
catch_value r (raised Raised.multiple_results) = raised Raised.multiple_results
catch_value r (raised Raised.os_error) = raised Raised.os_error

-- except ValueError, TypeError: return a
abbrev pub or_default {ℓ} : {A : Type ℓ} → A → Result A → Result A
or_default a (ok b) = ok b
or_default a (raised (normalization_error m)) = ok a
or_default a (raised Raised.value_error) = ok a
or_default a (raised Raised.overflow_error) = raised Raised.overflow_error
or_default a (raised Raised.database_error) = raised Raised.database_error
or_default a (raised Raised.connector_error) = raised Raised.connector_error
or_default a (raised Raised.multiple_results) = raised Raised.multiple_results
or_default a (raised Raised.os_error) = raised Raised.os_error

abbrev pub or_raise {ℓ} : {A : Type ℓ} → Raised → Option A → Result A
or_raise e none = raised e
or_raise e (some a) = ok a

-- A cell of a row. `float` holds the bits of a double; `member` is a TransactionType, which is a text
-- too.
pub data Value : Type 0 where
  null : Value
  int : ℤ → Value
  float : ℕ → Value
  text : String → Value
  member : TransactionType → Value
  date : Date → Value
  datetime : DateTime → Value
  dict : Attributes → Value

pub record Runtime : Type 0 where
  -- float(s); `none` is ValueError
  pub parse_float : String → Option ℕ
  -- float(i); OverflowError where the double would be infinite
  pub float_of_int : ℤ → Result ℕ
  pub is_nan : ℕ → Bool
  pub is_zero : ℕ → Bool
  -- x * 100
  pub times_hundred : ℕ → ℕ
  -- int(round(x)), int(x): ValueError at a NaN, OverflowError at an infinity
  pub round_int : ℕ → Result ℤ
  pub truncate : ℕ → Result ℤ
  pub show_int : ℤ → String
  pub show_float : ℕ → String
  pub show_date : Date → String
  pub show_datetime : DateTime → String
  pub show_dict : Attributes → String
  -- the date that pydantic reads a datetime as: one at midnight, or none
  pub exact_date : DateTime → Option Date

abbrev pub Row : Type 0
Row = List (String × Value)

abbrev pub Mapping : Type 0
Mapping = List (String × String)

module _ {ℓ} {V : Type ℓ} where
  -- d.get(key)
  unfoldable pub lookup : String → List (String × V) → Option V
  lookup key [] = none
  lookup key ((other, held) ∷ rest) = if str_eq other key then some held else lookup key rest

  -- d[key] = value: the entry of a present key keeps its place, a new key goes to the end.
  unfoldable pub insert : String → V → List (String × V) → List (String × V)
  insert key value [] = (key, value) ∷ []
  insert key value ((other, held) ∷ rest) =
      if str_eq other key then (other, value) ∷ rest else (other, held) ∷ insert key value rest

  pub lookup-insert :
      (key wanted : String) (value : V) (dict : List (String × V))
      → lookup wanted (insert key value dict)
        ≡ (if str_eq key wanted then some value else lookup wanted dict)
  unfolding lookup insert
  lookup-insert key wanted value [] = refl
  lookup-insert key wanted value ((other, held) ∷ rest) = ground (
    arith,
    lookup-insert key wanted value rest,
    eq_iff other wanted,
    eq_iff other key,
    eq_iff key wanted,
  )

  pub lookup-insert_self :
      (key : String) (value : V) (dict : List (String × V))
      → lookup key (insert key value dict) ≡ some value
  lookup-insert_self key value m = lookup-insert key key value m ∙ rw (eq_refl key) refl

-- d.get(k), d.get(k, default)
unfoldable pub get : String → Row → Value
unfolding lookup
get k row = elim (lookup k row) [ none ↦ null | some v ↦ v ]

unfoldable pub get_or : String → Row → Value → Value
unfolding lookup
get_or k row d = elim (lookup k row) [ none ↦ d | some v ↦ v ]

module _ (py : Runtime) where
  -- bool(v)
  unfoldable pub truthy : Value → Bool
  truthy null = false
  truthy (int (pos n)) = not (n == 0)
  truthy (int (ℤ.negsuc n)) = true
  truthy (float x) = not (py.is_zero x)
  truthy (text s) = not (str_eq s "")
  truthy (member t) = true
  truthy (date d) = true
  truthy (datetime t) = true
  truthy (dict []) = false
  truthy (dict (a ∷ as')) = true

  -- str(v)
  unfoldable pub str : Value → String
  unfolding transaction_type_value
  str null = "None"
  str (int i) = py.show_int i
  str (float x) = py.show_float x
  str (text s) = s
  str (member t) = transaction_type_value t
  str (date d) = py.show_date d
  str (datetime t) = py.show_datetime t
  str (dict a) = py.show_dict a
