-- ===== src/Tests/Signals.antt =====
-- Identifying a peer and signalling at concrete inputs: keys, bytes and addresses are texts, and so are signals.
use state_channels.Common.{◌≡◌, refl, true, none, some, List, [], ◌∷◌, ◌++◌, String, text_ne}
use state_channels.Common.StringMap
use state_channels.Common.StringMap.{StringMap}
use state_channels.Errors.{ok}
use state_channels.Identify.{
  Envelope, Peers, consume_record, set_protocols, set_metadata, identify, IdentifyService, Self,
  handle_identify,
}
use state_channels.Identify.Identifying.{
  IsIdentified, identify-IsIdentified, identify-handle_identify,
}
use state_channels.Signal.{SignallingMessage, Streams, request}
use state_channels.Signal.Forwarding.{send, send_over_topic}

abbrev peers : Peers String String String
peers = record {
  peer_id_from_keys = λ k. ok k;
  open_and_certify = λ b. ok (record { peer = "b"; bytes = b });
  consume_peer_record = λ v. ok true;
  multiaddr = λ b. some b;
}

abbrev self : Self String String
self = record {
  public_key = "b";
  listen_addrs = "addr" ∷ [];
  protocols = "p" ∷ [];
  peer_record_envelope = none;
}

abbrev service : IdentifyService
service = record {
  started = true;
  identify_protocol = "id";
  identify_push_protocol = "push";
  protocol_version = "v";
  agent_version = "agent";
}

identify-IsIdentified_example :
    IsIdentified peers "a" "b"
      (some (some (handle_identify service "sealed" self)))
      (identify peers "a" "b" (some (some (handle_identify service "sealed" self))))
identify-IsIdentified_example =
    identify-IsIdentified peers "a" "b" (some (some (handle_identify service "sealed" self)))

abbrev envelope : Envelope String
envelope = record { peer = "b"; bytes = "sealed" }

identify-handle_identify_example :
    identify peers "a" "b" (some (some (handle_identify service "sealed" self))) ≡ (
      consume_record envelope
          ∷ set_protocols "b" ("p" ∷ [])
          ∷ set_metadata "b" "AgentVersion" "agent"
          ∷ set_metadata "b" "ProtocolVersion" "v"
          ∷ [],
      ok tt,
    )
identify-handle_identify_example =
    identify-handle_identify peers "a" "b" service "sealed" "sealed" self envelope
      (text_ne "a" "b" refl) refl refl refl refl refl

abbrev near : Streams String
near = ("a", []) ∷ []

abbrev far : Streams String
far = ("b", []) ∷ []

abbrev message : SignallingMessage String
message = record { type = request; src = "a"; dst = "b"; signal = "offer" }

send_over_topic_example :
    send near ([] ++ far ∷ []) message
    ≡ (near, [] ++ StringMap.set "b" ([] ++ message ∷ []) far ∷ [])
send_over_topic_example =
    send_over_topic near far [] [] message []
      (StringMap.get_of_Absent {V = List (SignallingMessage String)} "b" near
        (text_ne "a" "b" refl, tt))
      tt tt (StringMap.get_here "b" "b" [] [] refl)

abbrev node : Streams String
node = ("a", []) ∷ ("b", []) ∷ []
