-- ===== src/Cache/Bodies.antt =====
-- Bodies and headers kept by the cache (src/swimzh/core/httpcache.py).
use swimming_in_zurich.Base.{
  Bool, keep, Option, none, some, List, [], ◌∷◌, String, ◌≡◌, refl, inl, inr, arith, Bool-cases,
}
use swimming_in_zurich.Cache.{
  Bytes, Headers, Codecs, is_text_media_type, as_text, encode_body, decode_body, is_storable,
  storable_items, storable_headers,
}

-- The text that a body is decoded to is encoded to the body again, and its Base64 is read back.
pub record IsLossless (c : Codecs) (body : Bytes) : Type 0 where
  pub text_back : (text : String) → c.utf8_decode body ≡ some text → c.utf8_encode text ≡ body
  pub base64_back : c.b64decode (c.b64encode body) ≡ some body

as_text-back :
    (c : Codecs) (body : Bytes) (o : Option String)
    → IsLossless c body
    → ((text : String) → o ≡ some text → c.utf8_encode text ≡ body)
    → decode_body c (as_text c body o).0 (as_text c body o).1 ≡ some body
unfolding decode_body
as_text-back c body none l back = l.base64_back
as_text-back c body (some text) l back = rw (back text refl)

pub decode_body-encode_body :
    (c : Codecs) (body : Bytes) (media : String)
    → IsLossless c body
    → decode_body c (encode_body c body media).0 (encode_body c body media).1 ≡ some body
unfolding encode_body
decode_body-encode_body c body media l = elim (Bool-cases (is_text_media_type c media)) [
  | inl e ↦ rw e (as_text-back c body (c.utf8_decode body) l l.text_back)
  | inr e ↦ rw e (as_text-back c body none l (λ text h. absurd (cc h)))
]

keep_idem : {A : Type 0} (p : A → Bool) (xs : List A) → keep p (keep p xs) ≡ keep p xs
keep_idem p [] = refl
keep_idem p (x ∷ xs) = ground (arith, keep_idem p xs)

pub storable_headers_idem :
    (c : Codecs) (headers : Headers)
    → storable_items c (storable_headers c headers) ≡ storable_headers c headers
unfolding storable_headers storable_items
storable_headers_idem c headers = keep_idem (is_storable c) (c.dict_of headers)
