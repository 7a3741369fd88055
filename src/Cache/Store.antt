-- ===== src/Cache/Store.antt =====
-- src/swimzh/core/httpcache.py: `CacheStore`. The files are a map from a path to its text; a text that
-- is no entry, and a file that is missing, are misses. An instant is in microseconds.
use swimming_in_zurich.Base.{
  ℕ, Bool, ◌&&◌, leb, if◌then◌else◌, Option, none, some, List, [], ◌∷◌, String, str_eq,
}
use swimming_in_zurich.Base.Maybe.{◌>>=◌}
use swimming_in_zurich.Cache.{
  Headers, Request, Response, Codecs, request_tier, cache_key, media_type, encode_body, decode_body,
  storable_headers, storable_items,
}

-- `root / tier / host / key`, below the root.
abbrev pub Path3 : Type 0
Path3 = String × String × String

abbrev host_of : Option String → String
host_of none = "unknown-host"
host_of (some host) = host

unfoldable pub path_for : Codecs → Request → String → Path3
unfolding cache_key
path_for c request tier = (tier, host_of request.host, cache_key c request)

-- The JSON document of an entry.
pub record CacheDocument : Type 0 where
  pub key : String
  pub tier : String
  pub fetched_at : ℕ
  pub ttl_s : ℕ
  pub expires_at : ℕ
  pub method : String
  pub url : String
  pub request_headers : Headers
  pub status : ℕ
  pub content_type : String
  pub response_headers : Headers
  pub body : Option String
  pub body_base64 : Option String

-- `json.dumps` and `json.loads` of a document, with the reading of its fields and instants; `none`
-- is any of the errors of a damaged text.
pub record JsonText : Type 0 where
  pub json_dumps : CacheDocument → String
  pub json_loads : String → Option CacheDocument

-- The files below the root, and whether a write to a path succeeds.
pub record Disk : Type 0 where
  pub files : List (Path3 × String)
  pub is_writable : Path3 → Bool

unfoldable pub path_eq : Path3 → Path3 → Bool
path_eq (a, b, c) (d, e, f) = str_eq a d && (str_eq b e && str_eq c f)

-- `path.read_text()`
unfoldable pub read_text : Path3 → List (Path3 × String) → Option String
unfolding path_eq
read_text path [] = none
read_text path ((p, text) ∷ rest) = if path_eq path p then some text else read_text path rest

-- `_write_atomic`: the whole file is replaced, or nothing happens.
unfoldable pub write_atomic : Path3 → String → Disk → Disk
write_atomic path text disk = record {
  files = if disk.is_writable path then (path, text) ∷ disk.files else disk.files;
  is_writable = disk.is_writable;
}

-- `_rebuild`
unfoldable pub rebuild : Codecs → CacheDocument → Option Response
unfolding storable_items decode_body
rebuild c document = do
  content ← decode_body c document.body document.body_base64
  some (record {
    status_code = document.status;
    headers = storable_items c document.response_headers;
    content = content;
    extensions = [];
  })

-- `fresh`
unfoldable pub fresh : Codecs → JsonText → Request → ℕ → Disk → Option Response
unfolding path_for request_tier read_text rebuild
fresh c json request now disk = do
  text ← read_text (path_for c request (request_tier request)) disk.files
  document ← json.json_loads text
  if leb document.expires_at now then none else rebuild c document

abbrev pub or_blank : Option String → String
or_blank none = ""
or_blank (some s) = s

-- `_serialize`
unfoldable pub serialize : Codecs → Request → Response → String → ℕ → ℕ → CacheDocument
unfolding cache_key encode_body media_type storable_headers
serialize c request response tier ttl_s now =
    let content_type = or_blank (c.header response.headers "content-type") in
    let (body, body_base64) = encode_body c response.content (media_type c content_type) in
    record {
      key = cache_key c request;
      tier = tier;
      fetched_at = now;
      ttl_s = ttl_s;
      expires_at = c.later_by now ttl_s;
      method = request.method;
      url = request.url;
      request_headers = storable_headers c request.headers;
      status = response.status_code;
      content_type = content_type;
      response_headers = storable_headers c response.headers;
      body = body;
      body_base64 = body_base64;
    }

-- `put`
unfoldable pub put_response : Codecs → JsonText → Request → Response → String → ℕ → ℕ → Disk → Disk
unfolding serialize write_atomic path_for
put_response c json request response tier ttl_s now disk =
    write_atomic (path_for c request tier)
      (json.json_dumps (serialize c request response tier ttl_s now)) disk
