-- ===== src/Cache/Parity.antt =====
-- What the cache answers and what it changes (src/swimzh/core/httpcache.py).
use swimming_in_zurich.Base.{
  ℕ, true, false, Option, none, some, [], String, str_eq_iff, ◌≡◌, refl, inl, inr, arith,
  Bool-cases,
}
use swimming_in_zurich.Cache.{
  Request, Response, Codecs, request_tier, request_ttl_s, storable_headers,
}
use swimming_in_zurich.Cache.Store.{
  Path3, path_for, CacheDocument, JsonText, Disk, path_eq, read_text, write_atomic, fresh,
  serialize, put_response,
}
use swimming_in_zurich.Cache.Transport.{
  CacheMode, use_cache, refresh, off, stored, fetch_and_store, hit_or_fetch, handle_request,
}

path_eq_sound : (p q : Path3) → path_eq p q ≡ true → p ≡ q
unfolding path_eq
path_eq_sound (a, b, c) (d, e, f) h = ground (arith, str_eq_iff a d, str_eq_iff b e, str_eq_iff c f)

-- Another path is read as before.
write_atomic-elsewhere :
    (path other : Path3) (text : String) (disk : Disk)
    → path_eq other path ≡ false
    → read_text other (write_atomic path text disk).files ≡ read_text other disk.files
unfolding read_text write_atomic
write_atomic-elsewhere path other text disk h = elim (Bool-cases (disk.is_writable path)) [
  | inl e ↦ rw (e, h) refl
  | inr e ↦ rw e refl
]

-- The response that the store keeps: status, headers and body.
abbrev pub kept_response : Codecs → Response → Response
kept_response c response = record {
  status_code = response.status_code;
  headers = storable_headers c response.headers;
  content = response.content;
  extensions = [];
}

-- What the transport writes for a response at an instant.
abbrev pub document_of : Codecs → Request → Response → ℕ → CacheDocument
document_of c request response written =
    serialize c request response (request_tier request) (request_ttl_s request) written

-- The files at other paths are as before.
abbrev pub Elsewhere : Codecs → Request → Disk → Disk → Type 0
Elsewhere c request disk disk2 =
    (other : Path3)
    → path_eq other (path_for c request (request_tier request)) ≡ false
    → read_text other disk2.files ≡ read_text other disk.files

module _ (c : Codecs) (json : JsonText) where
  abbrev pub written_disk : Request → Response → ℕ → Disk → Disk
  written_disk request response written disk =
      put_response c json request response (request_tier request) (request_ttl_s request) written
        disk

  module _ {W : Type 0} (inner : Request → W → Option Response × W) (now : W → ℕ × W) where
    -- A request that the inner transport answered with a response, at an instant that the clock gave.
    pub record Fetched (request : Request) (world : W) (response : Response) (written : ℕ)
        : Type 0 where
      pub fetched_world : W
      pub end_world : W
      pub answered : inner request world ≡ (some response, fetched_world)
      pub ticked : now fetched_world ≡ (written, end_world)

    stored-Elsewhere :
        (request : Request) (disk : Disk) (r : Option Response × W)
        → Elsewhere c request disk (stored inner now c json request disk r).disk
    unfolding put_response
    stored-Elsewhere request disk (none, world) other apart = refl
    stored-Elsewhere request disk (some response, world) other apart =
        write_atomic-elsewhere (path_for c request (request_tier request)) other _ disk apart

    hit_or_fetch-Elsewhere :
        (request : Request) (world : W) (disk : Disk) (o : Option Response)
        → Elsewhere c request disk (hit_or_fetch inner now c json request world disk o).disk
    unfolding fetch_and_store
    hit_or_fetch-Elsewhere request world disk (some hit) other apart = refl
    hit_or_fetch-Elsewhere request world disk none other apart =
        stored-Elsewhere request disk (inner request world) other apart

    -- Whatever the mode and whether or not the request succeeds, it leaves the entries at every other
    -- path as they were, and with the cache off it leaves the disk as it was.
    pub handle_request-Elsewhere :
        (mode : CacheMode) (request : Request) (world : W) (disk : Disk)
        → let handled = handle_request inner now c json mode request world disk in
          Elsewhere c request disk handled.disk × (mode ≡ off → handled.disk ≡ disk)
    unfolding handle_request fetch_and_store
    handle_request-Elsewhere off request world disk = (λ other apart. refl, λ h. refl)
    handle_request-Elsewhere use_cache request world disk = (
      hit_or_fetch-Elsewhere request (now world).1 disk (fresh c json request (now world).0 disk),
      λ h. absurd (cc h),
    )
    handle_request-Elsewhere refresh request world disk =
        (stored-Elsewhere request disk (inner request world), λ h. absurd (cc h))
