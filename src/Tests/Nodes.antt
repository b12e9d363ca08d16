-- ===== src/Tests/Nodes.antt =====
-- A node and its fetch service at concrete inputs.
use state_channels.Common.{
  ℕ, ◌≡◌, refl, ◌↔◌, Bool, true, false, none, some, Option, All, List, [], ◌∷◌, String,
}
use state_channels.Errors.{Result, ok, err, err_invalid_message, err_timeout}
use state_channels.Node.{Node, Phase, Answers, start}
use state_channels.Node.Lifecycle.{StartEnds, start-StartEnds}
use state_channels.Fetch.{
  Bytes, FetchService, FetchResponse, status_ok, encode_response, decode_response,
  get_lookup_function, fetch,
}
use state_channels.Fetch.Lookups.{AnswersFor, get_lookup_function-AnswersFor}
use state_channels.Fetch.Wire.{decode_response-encode_response}
use state_channels.NatManager.{Gateway, NatManager, Listened, open_all}
use state_channels.NatManager.Mapping.{IsPublic, open_all-IsPublic}
use state_channels.Fetch.Answers.{IsExact, fetched, fetch-get_lookup_function}

abbrev node : Node
node = record {
  started = false;
  services =
      record {
        name = "a";
        has_before_start = true;
        has_after_start = false;
        has_before_stop = false;
        has_after_stop = true;
      }
      ∷ record {
        name = "b";
        has_before_start = false;
        has_after_start = true;
        has_before_stop = true;
        has_after_stop = false;
      }
      ∷ [];
}

-- The last phase of the start fails.
abbrev answers : Answers
answers Phase.after_start s = err err_timeout
answers _ s = ok tt

start-StartEnds_example : StartEnds answers node (start answers (ok false) (ok tt) node)
start-StartEnds_example = start-StartEnds answers (ok false) (ok tt) node refl

-- Bytes are lists of numbers.
abbrev is_empty : List ℕ → Bool
is_empty [] = true
is_empty (n ∷ ns) = false

abbrev bytes : Bytes
bytes = record { Carrier = List ℕ; empty = []; is_empty = is_empty; from_string = λ _. 1 ∷ [] }

bytes-IsExact : IsExact bytes
bytes-IsExact [] h = refl
bytes-IsExact (n ∷ ns) h = cc

abbrev response : FetchResponse (List ℕ)
response = record { status = status_ok; data_bytes = 7 ∷ [] }

decode_response-encode_response_example :
    decode_response bytes (encode_response bytes response) ≡ some response
decode_response-encode_response_example =
    decode_response-encode_response bytes response (bytes-IsExact (7 ∷ []))

abbrev service : FetchService Bool
service = record { started = true; lookup_functions = ("/a/", true) ∷ [] }

abbrev look_up : Bool → String → Result (Option (List ℕ))
look_up b key = ok (some (7 ∷ []))

get_lookup_function-AnswersFor_example :
    get_lookup_function service "/a/k" ≡ some true ↔ AnswersFor "/a/k" service.lookup_functions true
get_lookup_function-AnswersFor_example = get_lookup_function-AnswersFor service "/a/k" true (tt, tt)

fetch-get_lookup_function_example :
    fetch bytes err_invalid_message err_timeout look_up service "/a/k"
    ≡ fetched bytes err_invalid_message err_timeout look_up "/a/k"
        (get_lookup_function service "/a/k")
fetch-get_lookup_function_example =
    fetch-get_lookup_function bytes err_invalid_message err_timeout look_up service "/a/k"
      bytes-IsExact

-- A gateway that maps every port, and an address that it can map.
abbrev gateway : Gateway String
gateway = record {
  upnp_nat = λ ttl keep_alive. some "client";
  external_ip = λ c. some "1.2.3.4";
  is_private_ip = λ ip. some false;
  maps = λ c p. true;
  closes = λ c. true;
  to_upper_case = λ t. "TCP";
}

abbrev nat_manager : NatManager String
nat_manager = record {
  started = true;
  enabled = true;
  external_address = none;
  local_address = none;
  ttl = 7200;
  keep_alive = true;
  client = none;
}

abbrev listened : Listened
listened = record {
  is_thin_waist = true;
  transport = "tcp";
  is_loopback = false;
  family = 4;
  port = 4001;
  high_port = 5000;
}

open_all-IsPublic_example :
    All (IsPublic gateway) (open_all gateway nat_manager (listened ∷ [])).1.0
open_all-IsPublic_example = open_all-IsPublic gateway nat_manager (listened ∷ [])
