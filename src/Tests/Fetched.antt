-- ===== src/Tests/Fetched.antt =====
-- The theorems of Cache and Http at a concrete request.
use swimming_in_zurich.Base.{
  ℕ, zero, suc, ◌+◌, ◌*◌, true, Option, none, some, [], ◌∷◌, String, str_eq, str_append, ◌≡◌, refl,
}
use swimming_in_zurich.Errors.{Float, Result, ok}
use swimming_in_zurich.Errors.Chain.{Holds}
use swimming_in_zurich.Cache.{Bytes, Codecs, Request, Response}
use swimming_in_zurich.Cache.Tiers.{cache_extensions}
use swimming_in_zurich.Cache.Store.{JsonText, Disk}
use swimming_in_zurich.Cache.Transport.{use_cache, off, handle_request}
use swimming_in_zurich.Cache.Parity.{document_of, Fetched, Elsewhere, handle_request-Elsewhere}
use swimming_in_zurich.Http.{
  Failure, Fetched as Attempted, response, raised, timed_out, Readers, HttpClient, CallerExtensions,
  absent, stamp_cache_policy, http_get,
}
use swimming_in_zurich.Http.Classified.{IsAcceptable}
use swimming_in_zurich.Http.Retry.{Run, http_get-Run}

-- A codec in which Base64 is one digit for each byte of 1.
abbrev ones : Bytes → String
ones [] = ""
ones (_ ∷ bytes) = str_append "1" (ones bytes)

abbrev page : Response
page = record { status_code = 200; headers = []; content = []; extensions = [] }

abbrev request : Request
request = record {
  method = "GET";
  url = "https://example.org/hours";
  host = some "example.org";
  headers = [];
  extensions = cache_extensions "baditicker";
}

-- A world that counts the calls of the inner transport, and whose clock is that count.
abbrev inner : Request → ℕ → Option Response × ℕ
inner _ n = (some page, suc n)

abbrev clock_of : ℕ → ℕ × ℕ
clock_of n = (n, n)

abbrev codecs : Codecs
codecs = record {
  lower = λ s. s;
  before_semicolon = λ s. s;
  ends_with = str_eq;
  utf8_encode = λ _. [];
  utf8_decode = λ _. some "";
  b64encode = λ _. "";
  b64decode = λ _. some [];
  sha256_16 = λ s. s;
  header = λ _ _. none;
  dict_of = λ headers. headers;
  later_by = λ now s. now + s * 1000000;
}

abbrev json : JsonText
json = record { json_dumps = λ _. "{}"; json_loads = λ _. some (document_of codecs request page 1) }

abbrev empty_disk : Disk
empty_disk = record { files = []; is_writable = λ _. true }

abbrev cached_request : Fetched codecs json inner clock_of request 0 page 1
cached_request = record { fetched_world = 1; end_world = 1; answered = refl; ticked = refl }

handle_request-Elsewhere_example :
    Elsewhere codecs request empty_disk
      (handle_request inner clock_of codecs json use_cache request 0 empty_disk).disk
    × (use_cache ≡ off
        → (handle_request inner clock_of codecs json use_cache request 0 empty_disk).disk
          ≡ empty_disk)
handle_request-Elsewhere_example =
    handle_request-Elsewhere codecs json inner clock_of use_cache request 0 empty_disk

-- A client whose first attempt times out.
abbrev slow_start : String → CallerExtensions → ℕ → Attempted × ℕ
slow_start _ _ zero = (raised timed_out, 1)
slow_start _ _ (suc n) = (response page, suc (suc n))

abbrev wait : Float → ℕ → ℕ
wait _ n = n

abbrev readers : Readers
readers = record {
  header = λ _ _. none;
  decode_replace = λ _. "";
  parse_float = λ _. none;
  scale = λ base _. base;
}

abbrev client : HttpClient
client = record {
  source = "baditicker";
  timeout_s = 0;
  max_bytes = 100;
  retry = record { max_attempts = 3; backoff_base_s = 0 };
}

http_get-Run_example :
    (r : Result Response Failure × ℕ) × (http_get slow_start wait readers client
        "https://example.org" absent 0
      ≡ some r)
    × Run slow_start wait readers client "https://example.org"
        (stamp_cache_policy client.source absent)
        2
        1
        0
        r
    × Holds (IsAcceptable client) r.0
http_get-Run_example =
    http_get-Run slow_start wait readers client "https://example.org" absent 0 2 refl

-- The second attempt succeeds.
http_get_run :
    http_get slow_start wait readers client "https://example.org" absent 0 ≡ some (ok page, 2)
unfolding http_get
http_get_run = refl
