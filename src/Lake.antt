-- ===== src/Lake.antt =====
-- src/swimzh/storage/lake.py: the silver documents. A file is what its text decodes to, an instant is
-- in microseconds, and `none` is an exception.
pub mod Refresh
pub mod Reuse
pub mod Policy
use swimming_in_zurich.Base.{
  ℕ, Bool, true, false, ◌||◌, ◌==◌, not, any, is_none, if◌then◌else◌, Option, none, some, List, [],
  ◌∷◌, ◌++◌, String, str_eq,
}
use swimming_in_zurich.Base.Maybe.{◌>>=◌}
use swimming_in_zurich.Text.{join}
use swimming_in_zurich.Errors.{
  JsonValue, null, bool, int, float, str, arr, obj, JsonItems, nil, cons, JsonFields, end, field,
  Result, ok, err, ProviderError, schema_mismatch,
}
use swimming_in_zurich.Closure.{lookup}
use swimming_in_zurich.Registry.{put}

pub data SilverStatus : Type 0 where
  fresh stale : SilverStatus

pub record SilverHeader : Type 0 where
  pub source : String
  pub fetched_at : ℕ
  pub status : SilverStatus
  pub content_sha : String
  pub schema : ℕ

pub record SilverDoc : Type 0 where
  pub header : SilverHeader
  pub payload : JsonFields

abbrev pub silver_schema : ℕ
silver_schema = 2

abbrev pub silver_sources : List String
silver_sources = "roster" ∷ "prices" ∷ "schedules" ∷ "lane_plans" ∷ []

abbrev pub is_run_stamp : String → Bool
is_run_stamp key = any (str_eq key) ("fetched_at" ∷ "generated_at" ∷ "valid_as_of" ∷ [])

-- `_without_run_stamps`
unfoldable mutual
  pub without_run_stamps : JsonValue → JsonValue
  without_run_stamps (obj fields) = obj (fields_without fields)
  without_run_stamps (arr items) = arr (items_without items)
  without_run_stamps null = null
  without_run_stamps (bool b) = bool b
  without_run_stamps (int negative digits) = int negative digits
  without_run_stamps (float f) = float f
  without_run_stamps (str s) = str s

  pub items_without : JsonItems → JsonItems
  items_without nil = nil
  items_without (cons v items) = cons (without_run_stamps v) (items_without items)

  pub fields_without : JsonFields → JsonFields
  fields_without end = end
  fields_without (field k v fields) =
      let rest = fields_without fields in
      let kept = without_run_stamps v in if is_run_stamp k then rest else field k kept rest

-- A file: a text that is no silver document, a document of another schema, or a document.
pub data StoredFile : Type 0 where
  unreadable : StoredFile
  other_schema : (schema : ℕ) → StoredFile
  document : SilverDoc → StoredFile

-- The files by source.
abbrev pub LakeFiles : Type 0
LakeFiles = List (String × StoredFile)

abbrev pub read_file : String → Option StoredFile → Option (Option SilverDoc)
read_file source none = some none
read_file source (some unreadable) = none
read_file source (some (other_schema _)) = some none
read_file source (some (document doc)) =
    if str_eq doc.header.source source then some (some doc) else none

unfoldable pub read : String → LakeFiles → Option (Option SilverDoc)
unfolding lookup
read source lake = read_file source (lookup source lake)

-- `_store`
unfoldable pub store : SilverDoc → LakeFiles → LakeFiles
unfolding put
store doc lake = put doc.header.source (document doc) lake

-- The document of `write`; `sha` hashes the canonical text of a value.
unfoldable pub fresh_doc : (JsonValue → String) → String → JsonFields → ℕ → SilverDoc
unfolding without_run_stamps
fresh_doc sha source payload fetched_at = record {
  header = record {
    source = source;
    fetched_at = fetched_at;
    status = fresh;
    content_sha = sha (without_run_stamps (obj payload));
    schema = silver_schema;
  };
  payload = payload;
}

-- The document of `mark_stale`.
unfoldable pub stale_doc : SilverDoc → SilverDoc
stale_doc previous = record {
  header = record {
    source = previous.header.source;
    fetched_at = previous.header.fetched_at;
    status = stale;
    content_sha = previous.header.content_sha;
    schema = previous.header.schema;
  };
  payload = previous.payload;
}

abbrev pub marked : Option SilverDoc → LakeFiles → Option (SilverDoc × LakeFiles)
marked none lake = none
marked (some previous) lake = some (stale_doc previous, store (stale_doc previous) lake)

unfoldable pub mark_stale : String → LakeFiles → Option (SilverDoc × LakeFiles)
unfolding read store stale_doc
mark_stale source lake = do previous ← read source lake; marked previous lake
