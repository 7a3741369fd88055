-- ===== src/Errors.antt =====
-- src/swimzh/core/result.py and core/errors.py: results, and the closed union of provider errors, with the plain values that it and
-- the models carry. A float is its 64-bit pattern and a Decimal its sign, digits and number of
-- places; both are carried, and computed with only through parameters.
pub mod Report
pub mod Chain
use swimming_in_zurich.Base.{ℕ, Bool, true, false, Option, none, some, String}
use swimming_in_zurich.Dates.{Date, Time}

-- core/result.py
pub data Result (A E : Type 0) : Type 0 where
  ok : A → Result A E
  err : E → Result A E

-- An `int`.
pub record Integer : Type 0 where
  pub negative : Bool
  pub digits : ℕ

abbrev pub Float : Type 0
Float = ℕ

pub record Decimal : Type 0 where
  pub negative : Bool
  pub digits : ℕ
  pub places : ℕ

-- A `datetime`: its local date and time of day, and, if it is aware, its instant in microseconds since
-- 0001-01-01 UTC.
pub record Datetime : Type 0 where
  pub date : Date
  pub time : Time
  pub instant : Option ℕ

-- `JsonValue`
mutual
  pub data JsonValue : Type 0 where
    null : JsonValue
    bool : Bool → JsonValue
    int : (negative : Bool) (digits : ℕ) → JsonValue
    float : Float → JsonValue
    str : String → JsonValue
    arr : JsonItems → JsonValue
    obj : JsonFields → JsonValue

  pub data JsonItems : Type 0 where
    nil : JsonItems
    cons : JsonValue → JsonItems → JsonItems

  pub data JsonFields : Type 0 where
    end : JsonFields
    field : String → JsonValue → JsonFields → JsonFields

pub data ProviderError : Type 0 where
  timeout : (url : String) (after_s : Float) → ProviderError
  connection_failed : (url detail : String) → ProviderError
  http_status : (url : String) (status : ℕ) (body_snippet : String) → ProviderError
  rate_limited : (url : String) (retry_after_s : Option Float) → ProviderError
  decode_error : (source detail : String) → ProviderError
  parse_error : (source detail raw_snippet : String) → ProviderError
  schema_mismatch : (source detail : String) → ProviderError
  too_large : (url : String) (limit_bytes : ℕ) → ProviderError
  redirect : (url location : String) (count : Integer) → ProviderError
  provider_specific : (provider : String) (detail : JsonValue) → ProviderError

unfoldable pub retriable : ProviderError → Bool
retriable (timeout _ _) = true
retriable (connection_failed _ _) = true
retriable (rate_limited _ _) = true
retriable (redirect _ _ _) = true
retriable (http_status _ _ _) = false
retriable (decode_error _ _) = false
retriable (parse_error _ _ _) = false
retriable (schema_mismatch _ _) = false
retriable (too_large _ _) = false
retriable (provider_specific _ _) = false
