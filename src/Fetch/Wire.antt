-- ===== src/Fetch/Wire.antt =====
-- What is decoded is what was encoded.
use state_channels.Common.{
  ◌≡◌, refl, sym, ap, true, inl, inr, Bool-cases, some, [], ◌∷◌, if◌then◌else◌, arith,
}
use state_channels.Fetch.{
  Bytes, FetchRequest, FetchResponse, StatusCode, status_ok, status_not_found, status_error,
  encode_request, decode_request, read_request, encode_response, decode_response, read_response,
  bytes_value,
}

-- A request that is encoded is decoded as it was.
pub decode_request-encode_request :
    (D : Type 0) (r : FetchRequest) → decode_request (encode_request {D = D} r) ≡ some r
unfolding decode_request encode_request read_request
decode_request-encode_request D r = ground arith

read_data :
    (b : Bytes) (c : StatusCode) (d : b.Carrier)
    → (b.is_empty d ≡ true → d ≡ b.empty)
    → read_response
        (record { status = c; data_bytes = b.empty })
        (if b.is_empty d then [] else record { tag = 18; value = bytes_value d } ∷ [])
      ≡ some (record { status = c; data_bytes = d })
unfolding read_response
read_data b c d h = elim (Bool-cases (b.is_empty d)) [
  | inl e ↦ rw e (ap (λ x. some (record { status = c; data_bytes = x })) (sym (h e)))
  | inr e ↦ rw e refl
]

read_status_and_data :
    (b : Bytes) (c : StatusCode) (d : b.Carrier)
    → (b.is_empty d ≡ true → d ≡ b.empty)
    → decode_response b (encode_response b (record { status = c; data_bytes = d }))
      ≡ some (record { status = c; data_bytes = d })
unfolding decode_response encode_response read_response
read_status_and_data b status_ok d h = read_data b status_ok d h
read_status_and_data b status_not_found d h = read_data b status_not_found d h
read_status_and_data b status_error d h = read_data b status_error d h

-- If an empty array is the only one that `is_empty` holds of, a response that is encoded is decoded as it was.
pub decode_response-encode_response :
    (b : Bytes) (r : FetchResponse b.Carrier)
    → (b.is_empty r.data_bytes ≡ true → r.data_bytes ≡ b.empty)
    → decode_response b (encode_response b r) ≡ some r
decode_response-encode_response b r h = read_status_and_data b r.status r.data_bytes h
