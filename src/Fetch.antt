-- ===== src/Fetch.antt =====
-- js-libp2p/src/fetch: `FetchService` and the messages of fetch/pb/proto.ts. A lookup function is a value that is called by
-- `look_up`; bytes are those of the platform. A message on the wire is its list of fields, each with its tag.
pub mod Lookups
pub mod Wire
pub mod Answers
use Prim.Native.String.{◌++◌ as text_append}
use text.Mathlib.Text.{starts_with}
use state_channels.Common.{
  ℕ, ◌/◌, ◌==◌, Bool, true, false, not, Option, none, some, List, [], ◌∷◌, ◌++◌, String, ite,
  str_dec, if◌then◌else◌,
}
use state_channels.Common.StringMap
use state_channels.Common.StringMap.{StringMap}
use state_channels.Errors.{
  Code, Result, ok, err, ◌>>=◌, ◌>>◌, throw_if, or_throw, err_key_already_exists,
  err_invalid_message, err_invalid_parameters,
}

-- The bytes of the platform: an empty array, the test for it, and the bytes of a text.
pub record Bytes : Type 1 where
  pub Carrier : Type 0
  pub empty : Carrier
  pub is_empty : Carrier → Bool
  pub from_string : String → Carrier

pub record FetchService (L : Type 0) : Type 0 where
  pub started : Bool
  pub lookup_functions : StringMap L

pub record FetchRequest : Type 0 where
  pub identifier : String

-- `FetchResponse.StatusCode`
pub data StatusCode : Type 0 where
  status_ok status_not_found status_error : StatusCode

pub record FetchResponse (D : Type 0) : Type 0 where
  pub status : StatusCode
  pub data_bytes : D

-- What a field carries, by its wire type.
pub data Value (D : Type 0) : Type 0 where
  varint : ℕ → Value D
  text_value : String → Value D
  bytes_value : D → Value D

pub record Field (D : Type 0) : Type 0 where
  pub tag : ℕ
  pub value : Value D

module _ {L : Type 0} where
  unfoldable pub new : FetchService L
  new = record { started = false; lookup_functions = [] }

  -- `registerLookupFunction`
  unfoldable pub register_lookup_function : FetchService L → String → L → Result (FetchService L)
  register_lookup_function s prefix f = do
    throw_if (StringMap.has prefix s.lookup_functions) err_key_already_exists
    ok (record s { lookup_functions = StringMap.set prefix f s.lookup_functions })

  abbrev is_other : (L → L → Bool) → L → Option L → Bool
  is_other same f none = true
  is_other same f (some g) = not (same g f)

  -- `unregisterLookupFunction`; `same` is `===` on functions.
  unfoldable pub unregister_lookup_function :
      (L → L → Bool) → FetchService L → String → Option L → FetchService L
  unregister_lookup_function same s prefix none = record s {
    lookup_functions = StringMap.delete prefix s.lookup_functions;
  }
  unregister_lookup_function same s prefix (some f) =
      if is_other same f (StringMap.get prefix s.lookup_functions)
      then s
      else record s { lookup_functions = StringMap.delete prefix s.lookup_functions }

  -- `_getLookupFunction`: the loop over the prefixes.
  abbrev pub first_prefix : StringMap L → String → List String → Option L
  first_prefix m key [] = none
  first_prefix m key (p ∷ ps) =
      if starts_with key p then StringMap.get p m else first_prefix m key ps

  unfoldable pub get_lookup_function : FetchService L → String → Option L
  get_lookup_function s key =
      first_prefix s.lookup_functions key (StringMap.keys s.lookup_functions)

-- The codecs of the two messages.
abbrev pub status_value : StatusCode → ℕ
status_value status_ok = 0
status_value status_not_found = 1
status_value status_error = 2

abbrev pub status_of : ℕ → Option StatusCode
status_of n =
    if n == 0
    then some status_ok
    else if n == 1
    then some status_not_found
    else if n == 2
    then some status_error
    else none

abbrev pub replace_identifier : Option String → Option FetchRequest
replace_identifier none = none
replace_identifier (some t) = some (record { identifier = t })

module _ {D : Type 0} where
  abbrev pub read_string : Value D → Option String
  read_string (text_value t) = some t
  read_string (varint n) = none
  read_string (bytes_value d) = none

  abbrev pub read_bytes : Value D → Option D
  read_bytes (bytes_value d) = some d
  read_bytes (varint n) = none
  read_bytes (text_value t) = none

  abbrev pub read_status : Value D → Option StatusCode
  read_status (varint n) = status_of n
  read_status (text_value t) = none
  read_status (bytes_value d) = none

  -- `FetchRequest.codec`
  unfoldable pub encode_request : FetchRequest → List (Field D)
  encode_request r =
      if ite (str_dec r.identifier "") true false
      then []
      else record { tag = 10; value = text_value r.identifier } ∷ []

  abbrev pub request_field : FetchRequest → Field D → Option FetchRequest
  request_field r f = if f.tag / 8 == 1 then replace_identifier (read_string f.value) else some r

  -- The loop of the decoder: a later field replaces an earlier one, and an unknown one is skipped.
  unfoldable pub read_request : FetchRequest → List (Field D) → Option FetchRequest
  read_request r [] = some r
  read_request r (f ∷ fs) = elim (request_field r f) [ none ↦ none | some r' ↦ read_request r' fs ]

  unfoldable pub decode_request : List (Field D) → Option FetchRequest
  unfolding read_request
  decode_request fs = read_request (record { identifier = "" }) fs

  abbrev pub replace_status : FetchResponse D → Option StatusCode → Option (FetchResponse D)
  replace_status r none = none
  replace_status r (some c) = some (record r { status = c })

  abbrev pub replace_data : FetchResponse D → Option D → Option (FetchResponse D)
  replace_data r none = none
  replace_data r (some d) = some (record r { data_bytes = d })

  abbrev pub response_field : FetchResponse D → Field D → Option (FetchResponse D)
  response_field r f =
      if f.tag / 8 == 1
      then replace_status r (read_status f.value)
      else if f.tag / 8 == 2
      then replace_data r (read_bytes f.value)
      else some r

  unfoldable pub read_response : FetchResponse D → List (Field D) → Option (FetchResponse D)
  read_response r [] = some r
  read_response r (f ∷ fs) = elim (response_field r f) [
    | none ↦ none
    | some r' ↦ read_response r' fs
  ]

abbrev pub status_field : {D : Type 0} → StatusCode → List (Field D)
status_field c =
    if status_value c == 0 then [] else record { tag = 8; value = varint (status_value c) } ∷ []

-- `FetchResponse.codec`
unfoldable pub encode_response : (b : Bytes) → FetchResponse b.Carrier → List (Field b.Carrier)
encode_response b r =
    status_field r.status
    ++ (if b.is_empty r.data_bytes
        then []
        else record { tag = 18; value = bytes_value r.data_bytes } ∷ [])

unfoldable pub decode_response :
    (b : Bytes) → List (Field b.Carrier) → Option (FetchResponse b.Carrier)
unfolding read_response
decode_response b fs = read_response (record { status = status_ok; data_bytes = b.empty }) fs

module _ (b : Bytes) where
  abbrev pub response_of : Option b.Carrier → FetchResponse b.Carrier
  response_of (some d) = record { status = status_ok; data_bytes = d }
  response_of none = record { status = status_not_found; data_bytes = b.empty }

  module _ {L : Type 0} (look_up : L → String → Result (Option b.Carrier)) where
    -- The response to a request for a key, unless the lookup function throws.
    abbrev pub answer : String → Option L → Result (FetchResponse b.Carrier)
    answer key none = ok (record {
      status = status_error;
      data_bytes = b.from_string (text_append "No lookup function registered for key: " key);
    })
    answer key (some f) = do d ← look_up f key; ok (response_of d)

  abbrev pub value_of : FetchResponse b.Carrier → Result (Option b.Carrier)
  value_of r = elim r.status [
    | status_ok ↦ ok (some r.data_bytes)
    | status_not_found ↦ ok none
    | status_error ↦ err err_invalid_parameters
  ]

-- `undecodable` is the code of the error that the protobuf library throws. Where the generator of the handler throws, the
-- sink of the stream fails and the muxer resets the stream: `reset` is the code of the error that the other side then
-- reads.
module _ (b : Bytes) (undecodable reset : Code) where
  -- What comes over the stream: a message, its end or a reset.
  abbrev pub sent : Result (List (Field b.Carrier)) → Result (Option (List (Field b.Carrier)))
  sent (ok buf) = ok (some buf)
  sent (err e) = err reset

  module _ {L : Type 0} (look_up : L → String → Result (Option b.Carrier)) where
    -- `handleMessage`, with the first message of the stream.
    unfoldable pub handle_message :
        FetchService L → Option (List (Field b.Carrier)) → Result (List (Field b.Carrier))
    unfolding decode_request get_lookup_function encode_response
    handle_message s none = err err_invalid_message
    handle_message s (some buf) = do
      request ← or_throw (decode_request buf) undecodable
      response ← answer b look_up request.identifier (get_lookup_function s request.identifier)
      ok (encode_response b response)

  -- `fetch` of a key from a peer, by what comes over the stream.
  unfoldable pub fetch_response :
      Result (Option (List (Field b.Carrier))) → Result (Option b.Carrier)
  unfolding decode_response
  fetch_response (err e) = err e
  fetch_response (ok none) = err err_invalid_message
  fetch_response (ok (some buf)) = do r ← or_throw (decode_response b buf) undecodable; value_of b r

  -- `fetch`, the peer being a node with a service: its request and the response go over the wire.
  unfoldable pub fetch :
      {L : Type 0}
      → (L → String → Result (Option b.Carrier))
      → FetchService L
      → String
      → Result (Option b.Carrier)
  unfolding encode_request handle_message fetch_response
  fetch look_up s key =
      fetch_response
        (sent (handle_message look_up s (some (encode_request (record { identifier = key })))))
