-- ===== src/Fetch/Answers.antt =====
-- A key that is fetched from a node with a service.
use state_channels.Common.{◌≡◌, refl, ap, ◌∙◌, true, Option, none, some, String}
use state_channels.Errors.{Code, Result, ok, err, ◌>>=◌, err_invalid_parameters}
use state_channels.Fetch.{
  Bytes, FetchService, FetchResponse, get_lookup_function, answer, response_of, value_of, sent,
  handle_message, fetch_response, fetch, encode_request, encode_response,
}
use state_channels.Fetch.Wire.{decode_request-encode_request, decode_response-encode_response}

-- An empty array is the only one that the test for it holds of.
abbrev pub IsExact : Bytes → Type 0
IsExact b = (d : b.Carrier) → b.is_empty d ≡ true → d ≡ b.empty

module _ (b : Bytes) (undecodable reset : Code) {L : Type 0}
    (look_up : L → String → Result (Option b.Carrier)) where
  -- What a fetch comes to, by the lookup function and by how it ends.
  abbrev pub looked_up : Result (Option b.Carrier) → Result (Option b.Carrier)
  looked_up (ok d) = ok d
  looked_up (err e) = err reset

  abbrev pub fetched : String → Option L → Result (Option b.Carrier)
  fetched key none = err err_invalid_parameters
  fetched key (some f) = looked_up (look_up f key)

  handle_message-encode_request :
      (s : FetchService L) (key : String)
      → handle_message b undecodable reset look_up s
          (some (encode_request (record { identifier = key })))
        ≡ (do
          response ← answer b look_up key (get_lookup_function s key)
          ok (encode_response b response))
  unfolding handle_message
  handle_message-encode_request s key =
      rw (decode_request-encode_request b.Carrier (record { identifier = key })) refl

  fetch_response-encode_response :
      (r : FetchResponse b.Carrier)
      → IsExact b
      → fetch_response b undecodable reset (ok (some (encode_response b r))) ≡ value_of b r
  unfolding fetch_response
  fetch_response-encode_response r x =
      rw (decode_response-encode_response b r (x r.data_bytes)) refl

  fetched_of :
      (key : String) (o : Option L)
      → IsExact b
      → fetch_response b undecodable reset
          (sent b undecodable reset (answer b look_up key o >>= λ x. ok (encode_response b x)))
        ≡ fetched key o
  fetched_of key none x = fetch_response-encode_response _ x
  fetched_of key (some f) x = looked_up_of (look_up f key)
    where
      looked_up_of :
          (r : Result (Option b.Carrier))
          → fetch_response b undecodable reset (
              sent b undecodable reset
                ((r >>= λ d. ok (response_of b d)) >>= λ x. ok (encode_response b x)))
            ≡ looked_up r
      looked_up_of (ok none) = fetch_response-encode_response _ x
      looked_up_of (ok (some d)) = fetch_response-encode_response _ x
      looked_up_of (err e) = unfold fetch_response in refl

  -- If an empty array is the only one that the test for it holds of, a fetch of a key from a node with a service comes to
  -- what the lookup function for the key returns, a value or none; it fails with ERR_INVALID_PARAMETERS if the node has no
  -- function for the key, and as the reading of a stream does that is reset if the function throws.
  pub fetch-get_lookup_function :
      (s : FetchService L) (key : String)
      → IsExact b
      → fetch b undecodable reset look_up s key ≡ fetched key (get_lookup_function s key)
  unfolding fetch
  fetch-get_lookup_function s key x =
      ap (λ r. fetch_response b undecodable reset (sent b undecodable reset r))
        (handle_message-encode_request s key)
      ∙ fetched_of key (get_lookup_function s key) x
