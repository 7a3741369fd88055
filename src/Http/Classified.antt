-- ===== src/Http/Classified.antt =====
-- Which responses a client passes on (src/swimzh/core/http.py).
use swimming_in_zurich.Base.{
  ◌≤◌, ◌<◌, ◌&&◌, leb, ltb, ◌==◌, length, String, inl, inr, arith, Bool-cases, ltb→lt, leb→le,
  &&-true,
}
use swimming_in_zurich.Errors.Chain.{Holds}
use swimming_in_zurich.Cache.{Response}
use swimming_in_zurich.Http.{Readers, HttpClient, classify_response}

-- A response of the 2xx class whose body is within the limit.
abbrev pub IsAcceptable : HttpClient → Response → Type 0
IsAcceptable client resp =
    (length resp.content ≤ client.max_bytes) × (200 ≤ resp.status_code) × (resp.status_code < 300)

pub classify_response-IsAcceptable :
    (readers : Readers) (client : HttpClient) (url : String) (resp : Response)
    → Holds (IsAcceptable client) (classify_response readers client url resp)
unfolding classify_response
classify_response-IsAcceptable readers client url resp =
    elim (Bool-cases (ltb client.max_bytes (length resp.content))) [
      | inl e ↦ rw e tt
      | inr small ↦ elim (Bool-cases (leb 200 resp.status_code && ltb resp.status_code 300)) [
        | inl e ↦
            rw (small, e)
              (
                ground arith,
                leb→le 200 resp.status_code (&&-true (leb 200 resp.status_code) _ e).0,
                ltb→lt resp.status_code 300 (&&-true (leb 200 resp.status_code) _ e).1,
              )
        | inr e ↦ elim (Bool-cases (resp.status_code == 429)) [
          | inl r ↦ rw (small, e, r) tt
          | inr r ↦ rw (small, e, r) tt
        ]
      ]
    ]
