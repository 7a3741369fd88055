-- ===== src/Cache/Transport.antt =====
-- src/swimzh/core/httpcache.py: `DiskCacheTransport`. The inner transport and the clock are
-- parameters with a state of their own; `none` is an exception of the inner transport.
use swimming_in_zurich.Base.{ℕ, Option, none, some}
use swimming_in_zurich.Cache.{
  Request, Response, Codecs, request_tier, request_ttl_s, storable_headers,
}
use swimming_in_zurich.Cache.Store.{JsonText, Disk, fresh, put_response}

pub data CacheMode : Type 0 where
  use_cache refresh off : CacheMode

-- `_replay`
unfoldable pub replay : Codecs → Response → Response
unfolding storable_headers
replay c response = record {
  status_code = response.status_code;
  headers = storable_headers c response.headers;
  content = response.content;
  extensions = response.extensions;
}

module _ {W : Type 0} (inner : Request → W → Option Response × W) (now : W → ℕ × W) (c : Codecs)
    (json : JsonText) where
  -- What a request leaves: its response, the world and the disk.
  pub record Handled : Type 0 where
    pub response : Option Response
    pub world : W
    pub disk : Disk

  abbrev pub stored : Request → Disk → Option Response × W → Handled
  stored request disk (none, world) = record { response = none; world = world; disk = disk }
  stored request disk (some response, world) =
      let (moment, later) = now world in
      record {
        response = some (replay c response);
        world = later;
        disk =
            put_response c json request response (request_tier request) (request_ttl_s request)
              moment disk;
      }

  -- `_fetch_and_store`
  unfoldable pub fetch_and_store : Request → W → Disk → Handled
  unfolding replay put_response request_tier request_ttl_s
  fetch_and_store request world disk = stored request disk (inner request world)

  abbrev pub passed_on : Disk → Option Response × W → Handled
  passed_on disk (response, world) = record { response = response; world = world; disk = disk }

  abbrev pub hit_or_fetch : Request → W → Disk → Option Response → Handled
  hit_or_fetch request world disk (some hit) = record {
    response = some hit;
    world = world;
    disk = disk;
  }
  hit_or_fetch request world disk none = fetch_and_store request world disk

  unfoldable pub handle_request : CacheMode → Request → W → Disk → Handled
  unfolding fetch_and_store fresh
  handle_request off request world disk = passed_on disk (inner request world)
  handle_request use_cache request world disk =
      let (moment, later) = now world in
      hit_or_fetch request later disk (fresh c json request moment disk)
  handle_request refresh request world disk = fetch_and_store request world disk
