-- ===== src/Cache.antt =====
-- src/swimzh/core/httpcache.py: the on-disk cache of responses and its transport. What the
-- interpreter and httpx do is a parameter (`Codecs`).
pub mod Tiers
pub mod Store
pub mod Transport
pub mod Bodies
pub mod Parity
use swimming_in_zurich.Base.{
  ℕ, zero, suc, Bool, true, false, not, ◌&&◌, ◌||◌, any, keep, if◌then◌else◌, Option, none, some,
  List, [], ◌∷◌, String, str_eq, str_append,
}
use swimming_in_zurich.Text.{is_empty, starts_with, strip}
use swimming_in_zurich.Errors.{JsonValue, str, int}
use swimming_in_zurich.Closure.{lookup}

abbrev pub Bytes : Type 0
Bytes = List ℕ

abbrev pub Headers : Type 0
Headers = List (String × String)

-- httpx.Request; a value of an extension is any object.
pub record Request : Type 0 where
  pub method : String
  pub url : String
  pub host : Option String
  pub headers : Headers
  pub extensions : List (String × JsonValue)

-- httpx.Response, read to the end.
pub record Response : Type 0 where
  pub status_code : ℕ
  pub headers : Headers
  pub content : Bytes
  pub extensions : List (String × JsonValue)

-- The strings and bytes of the interpreter, the hash of a request, and a look-up of httpx.Headers.
pub record Codecs : Type 0 where
  pub lower : String → String
  pub before_semicolon : String → String
  pub ends_with : String → String → Bool
  pub utf8_encode : String → Bytes
  pub utf8_decode : Bytes → Option String
  pub b64encode : Bytes → String
  pub b64decode : String → Option Bytes
  pub sha256_16 : String → String
  pub header : Headers → String → Option String
  -- `dict(headers)`: one item a key, as httpx lists them.
  pub dict_of : Headers → Headers
  -- The instant of `now + timedelta(seconds=s)`, which moves the clock of its zone on.
  pub later_by : ℕ → ℕ → ℕ

-- The tier, if a non-empty string is stamped.
abbrev tier_of : Option JsonValue → String
tier_of (some (str s)) = if is_empty s then "default" else s
tier_of _ = "default"

unfoldable pub request_tier : Request → String
unfolding lookup
request_tier request = tier_of (lookup "cache_tier" request.extensions)

abbrev ttl_of : Option JsonValue → ℕ
ttl_of (some (int false (suc n))) = suc n
ttl_of _ = 3600

unfoldable pub request_ttl_s : Request → ℕ
unfolding lookup
request_ttl_s request = ttl_of (lookup "cache_ttl_s" request.extensions)

unfoldable pub cache_key : Codecs → Request → String
cache_key c request = c.sha256_16 (str_append request.method (str_append " " request.url))

-- `_media_type`
unfoldable pub media_type : Codecs → String → String
unfolding strip
media_type c content_type = c.lower (strip (c.before_semicolon content_type))

abbrev pub text_media_types : List String
text_media_types =
    "application/json" ∷ "application/xml" ∷ "application/javascript" ∷ "application/x-javascript"
    ∷ "application/x-www-form-urlencoded" ∷ "application/yaml" ∷ "application/x-yaml"
    ∷ "application/graphql" ∷ []

-- `_is_text_media_type`
unfoldable pub is_text_media_type : Codecs → String → Bool
unfolding starts_with
is_text_media_type c media =
    is_empty media
    || starts_with "text/" media
    || c.ends_with media "+json"
    || c.ends_with media "+xml"
    || any (str_eq media) text_media_types

-- `(body, body_base64)`
abbrev pub as_text : Codecs → Bytes → Option String → Option String × Option String
as_text c body (some text) = (some text, none)
as_text c body none = (none, some (c.b64encode body))

-- `_encode_body`
unfoldable pub encode_body : Codecs → Bytes → String → Option String × Option String
unfolding is_text_media_type
encode_body c body media =
    as_text c body (if is_text_media_type c media then c.utf8_decode body else none)

-- `_decode_body`; `none` is an error that makes the entry a miss.
unfoldable pub decode_body : Codecs → Option String → Option String → Option Bytes
decode_body c body (some encoded) = c.b64decode encoded
decode_body c (some text) none = some (c.utf8_encode text)
decode_body c none none = none

abbrev pub stripped_headers : List String
stripped_headers = "content-encoding" ∷ "content-length" ∷ "transfer-encoding" ∷ []

abbrev pub is_storable : Codecs → String × String → Bool
is_storable c (k, _) = not (any (str_eq (c.lower k)) stripped_headers)

-- `_storable_headers` of a dict.
unfoldable pub storable_items : Codecs → Headers → Headers
storable_items c items = keep (is_storable c) items

-- `_storable_headers` of httpx.Headers.
unfoldable pub storable_headers : Codecs → Headers → Headers
unfolding storable_items
storable_headers c headers = storable_items c (c.dict_of headers)
