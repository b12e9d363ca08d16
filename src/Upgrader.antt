-- ===== src/Upgrader.antt =====
-- js-libp2p/src/upgrader.ts: the limits of streams that `_createConnection` puts on a multiplexed connection. Streams are
-- those whose protocol is negotiated, since no other is counted; between the count of the streams and the protocol's
-- entry in the new one the code does not wait. The protocol that was negotiated is an argument.
pub mod Limits
pub mod Upgrading
use state_channels.Common.{
  ℕ, zero, suc, Bool, true, false, ◌&&◌, List, [], ◌∷◌, String, ite, str_dec, ◌==◌, if◌then◌else◌,
}
use state_channels.Errors.{
  Code, Result, ok, err, ◌>>=◌, ◌>>◌, throw_if, err_no_handler_for_protocol,
  err_too_many_inbound_protocol_streams, err_too_many_outbound_protocol_streams,
}
use state_channels.Manager.{Direction, inbound, outbound}
use state_channels.Registrar.{
  Registrar, StreamHandlerRecord, get_handler, default_max_inbound_streams,
  default_max_outbound_streams,
}

pub record Stream : Type 0 where
  pub direction : Direction
  pub protocol : String

module _ {H : Type 0} where
  abbrev pub or_default_limit :
      (StreamHandlerRecord H → ℕ) → ℕ → Result (StreamHandlerRecord H) → Result ℕ
  or_default_limit limit default (ok h) = ok (limit h)
  or_default_limit limit default (err err_no_handler_for_protocol) = ok default
  or_default_limit limit default (err e) = err e

module _ {H T : Type 0} where
  unfoldable pub find_incoming_stream_limit : String → Registrar H T → Result ℕ
  find_incoming_stream_limit p r =
      or_default_limit (λ h. h.max_inbound_streams) default_max_inbound_streams (get_handler r p)

  unfoldable pub find_outgoing_stream_limit : String → Registrar H T → Result ℕ
  find_outgoing_stream_limit p r =
      or_default_limit (λ h. h.max_outbound_streams) default_max_outbound_streams (get_handler r p)

abbrev pub same_direction : Direction → Direction → Bool
same_direction inbound inbound = true
same_direction outbound outbound = true
same_direction _ _ = false

unfoldable pub count_streams : String → Direction → List Stream → ℕ
count_streams p d [] = 0
count_streams p d (s ∷ ss) =
    let rest = count_streams p d ss in
    if same_direction s.direction d && ite (str_dec s.protocol p) true false then suc rest else rest

module _ {H T : Type 0} where
  -- `onIncomingStream`, once the protocol is negotiated. An error aborts the stream.
  unfoldable pub on_incoming_stream : Registrar H T → List Stream → String → Result (List Stream)
  on_incoming_stream r ss p = do
    limit ← find_incoming_stream_limit p r
    throw_if (count_streams p inbound ss == limit) err_too_many_inbound_protocol_streams
    ok (record { direction = inbound; protocol = p } ∷ ss)

  -- `newStream`, once the protocol is negotiated.
  unfoldable pub new_stream : Registrar H T → List Stream → String → Result (List Stream)
  new_stream r ss p = do
    limit ← find_outgoing_stream_limit p r
    throw_if (count_streams p outbound ss == limit) err_too_many_outbound_protocol_streams
    ok (record { direction = outbound; protocol = p } ∷ ss)
