-- ===== src/Errors/Report.antt =====
-- src/swimzh/core/errors.py: `describe`. How the interpreter prints a float at a number of places,
-- and the `repr` of a JSON value, are parameters.
use swimming_in_zurich.Base.{ℕ, if◌then◌else◌, Option, none, some, [], ◌∷◌, String}
use swimming_in_zurich.Text.{decimal, join}
use swimming_in_zurich.Errors.{
  Integer, Float, JsonValue, ProviderError, timeout, connection_failed, http_status, rate_limited,
  decode_error, parse_error, schema_mismatch, too_large, redirect, provider_specific,
}

pub record Formats : Type 0 where
  pub fixed : Float → ℕ → String
  pub repr : JsonValue → String

retry_hint : Formats → Option Float → String
retry_hint f none = ""
retry_hint f (some after) = join "" (", retry after " ∷ f.fixed after 0 ∷ "s" ∷ [])

-- `str(n)` of an `int`.
unfoldable pub signed : Integer → String
unfolding decimal join
signed n = if n.negative then join "" ("-" ∷ decimal n.digits ∷ []) else decimal n.digits

unfoldable pub describe : Formats → ProviderError → String
unfolding retry_hint join decimal signed
describe f (timeout url after) = join "" ("timeout after " ∷ f.fixed after 1 ∷ "s: " ∷ url ∷ [])
describe f (connection_failed url detail) =
    join "" ("connection failed (" ∷ detail ∷ "): " ∷ url ∷ [])
describe f (http_status url status _) = join "" ("HTTP " ∷ decimal status ∷ ": " ∷ url ∷ [])
describe f (rate_limited url after) = join "" ("rate limited: " ∷ url ∷ retry_hint f after ∷ [])
describe f (decode_error source detail) =
    join "" ("decode error from " ∷ source ∷ ": " ∷ detail ∷ [])
describe f (parse_error source detail _) =
    join "" ("parse error from " ∷ source ∷ ": " ∷ detail ∷ [])
describe f (schema_mismatch source detail) =
    join "" ("schema mismatch from " ∷ source ∷ ": " ∷ detail ∷ [])
describe f (too_large url limit) =
    join "" ("response too large (> " ∷ decimal limit ∷ " bytes): " ∷ url ∷ [])
describe f (redirect url location count) =
    join "" ("redirect loop (" ∷ signed count ∷ ") at " ∷ url ∷ " -> " ∷ location ∷ [])
describe f (provider_specific provider detail) =
    join "" (provider ∷ " error: " ∷ f.repr detail ∷ [])
