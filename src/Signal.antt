-- ===== src/Signal.antt =====
-- js-libp2p/src/webrtc-signal: `WebRTCSignal`, the listener of webrtc-signal/listener.ts and `AutoSignal`. A signal is a value
-- that is an offer or not; the WebRTC channel is another package's. A peer's input stream at a signalling node is the list of
-- the messages that were pushed to it.
pub mod Forwarding
pub mod Listening
use state_channels.Common.{
  Bool, true, false, not, ◌&&◌, ◌||◌, Option, none, some, List, [], ◌∷◌, ◌++◌, map, String, ite,
  str_dec, if◌then◌else◌,
}
use state_channels.Common.StringMap
use state_channels.Common.StringMap.{StringMap}
use state_channels.Common.Texts.{has_text}
use state_channels.Manager.{Manager, Connection, get_connections_of}

abbrev pub webrtc_signal_codec : String
webrtc_signal_codec = "/libp2p/webrtc-signal/0.1.0"

-- `Type` of signal-message.ts
pub data SignalType : Type 0 where
  request response : SignalType

pub record SignallingMessage (S : Type 0) : Type 0 where
  pub type : SignalType
  pub src : String
  pub dst : String
  pub signal : S

abbrev pub is_response : SignalType → Bool
is_response request = false
is_response response = true

abbrev pub same : String → String → Bool
same s t = ite (str_dec s t) true false

-- `peerSignallingInputStreams` of a signalling node
abbrev pub Streams : Type 0 → Type 0
Streams S = StringMap (List (SignallingMessage S))

module _ {S : Type 0} where
  -- `_handlePeerSignallingStream`: a new stream of a peer takes the place of the one before.
  unfoldable pub handle_peer_signalling_stream : Streams S → String → Streams S
  handle_peer_signalling_stream m peer = StringMap.set peer [] m

  -- `_handleClosedSignallingStreams`
  unfoldable pub on_peer_disconnect : Streams S → String → Streams S
  on_peer_disconnect m peer = StringMap.delete peer m

  -- `destStream.push(msg)`, if there is a stream for the destination
  abbrev pub push_found :
      Streams S → SignallingMessage S → Option (List (SignallingMessage S)) → Streams S
  push_found m msg none = m
  push_found m msg (some q) = StringMap.set msg.dst (q ++ msg ∷ []) m

  -- `_handlePubSubMessage`, of a message of the signalling topic or of another one
  unfoldable pub handle_pub_sub_message : Streams S → Bool → SignallingMessage S → Streams S
  handle_pub_sub_message m is_signal_topic msg =
      if not is_signal_topic then m else push_found m msg (StringMap.get msg.dst m)

  -- The messages of a stream: one for a peer that has a stream is pushed, one for another peer is published, if the node
  -- has a pubsub.
  abbrev pub forward_found :
      Bool
      → Streams S
      → SignallingMessage S
      → Option (List (SignallingMessage S))
      → Streams S × List (SignallingMessage S)
  forward_found has_pubsub m msg (some q) = (push_found m msg (some q), [])
  forward_found has_pubsub m msg none = (m, if has_pubsub then msg ∷ [] else [])

  unfoldable pub forward :
      Bool → Streams S → SignallingMessage S → Streams S × List (SignallingMessage S)
  forward has_pubsub m msg = forward_found has_pubsub m msg (StringMap.get msg.dst m)

  -- `_connect`: the request that a dial sends, and the responses that it takes.
  unfoldable pub dial_request : String → String → S → SignallingMessage S
  dial_request own dst offer = record { type = request; src = own; dst = dst; signal = offer }

  unfoldable pub takes_response : String → String → SignallingMessage S → Bool
  takes_response own dst msg = is_response msg.type && same msg.src dst && same msg.dst own

  -- `processRequest`: an offer is answered with each of the signals of a new channel, in their order.
  unfoldable pub process_request :
      (S → Bool) → List S → SignallingMessage S → List (SignallingMessage S)
  process_request is_offer answers msg =
      if not (is_offer msg.signal)
      then []
      else map (λ a. record { type = response; src = msg.dst; dst = msg.src; signal = a }) answers

  -- `handleSignallingMessages`: what goes to the relay, and what goes to the dials that wait for a response.
  unfoldable pub handle_signalling_message :
      (S → Bool)
      → List S
      → SignallingMessage S
      → List (SignallingMessage S) × List (SignallingMessage S)
  unfolding process_request
  handle_signalling_message is_offer answers msg = elim msg.type [
    | request ↦ (process_request is_offer answers msg, [])
    | response ↦ ([], msg ∷ [])
  ]

-- The listener: the address that it listens on, and the relay whose disconnection it waits for, if any. The handler of
-- 'peer:disconnect' is added with `once`.
pub record Listener (M : Type 0) : Type 0 where
  pub listening_addr : Option M
  pub waits_for : List String

module _ {M : Type 0} where
  -- `listen`; `relay` is the relay's peer id, `opens` whether the stream over a connection opens.
  abbrev pub listen_over :
      M → String → List Connection → (Connection → Bool) → Listener M → Listener M × Bool
  listen_over addr relay [] opens l = (l, false)
  listen_over addr relay (c ∷ cs) opens l =
      if opens c
      then (record { listening_addr = some addr; waits_for = l.waits_for ++ relay ∷ [] }, true)
      else (l, false)

  abbrev pub listen_to :
      Manager → M → Option String → (Connection → Bool) → Listener M → Listener M × Bool
  listen_to m addr none opens l = (l, false)
  listen_to m addr (some relay) opens l =
      listen_over addr relay (get_connections_of m relay) opens l

  unfoldable pub listen :
      Manager → (M → Option String) → M → (Connection → Bool) → Listener M → Listener M × Bool
  listen m relay_of addr opens l = listen_to m addr (relay_of addr) opens l

  -- `close`
  unfoldable pub close : Listener M → Listener M
  close l = record l { listening_addr = none }

  -- 'peer:disconnect': every handler that waits is run once, and removed.
  unfoldable pub on_disconnect : String → Listener M → Listener M
  unfolding close
  on_disconnect peer l =
      let l' = record l { waits_for = [] } in if has_text peer l.waits_for then close l' else l'

  -- `getAddrs`
  abbrev pub addrs_of : Option M → List M
  addrs_of none = []
  addrs_of (some a) = a ∷ []

  unfoldable pub get_addrs : Listener M → List M
  get_addrs l = addrs_of l.listening_addr

-- `AutoSignal`
pub record AutoSignal : Type 0 where
  pub relay_peer_id : String
  pub is_listening : Bool

-- `_addListener`: whether listening succeeds, and the new state
abbrev pub add_listener : AutoSignal → List Connection → (Connection → Bool) → AutoSignal × Bool
add_listener s [] listens = (s, false)
add_listener s (c ∷ cs) listens = (record s { is_listening = listens c }, true)

-- `_handleProtocols`: the new state, and whether it has called `listen`.
unfoldable pub handle_protocols :
    AutoSignal → Manager → String → List String → (Connection → Bool) → AutoSignal × Bool
handle_protocols s m peer protocols listens =
    if s.is_listening || not (same peer s.relay_peer_id)
    then (s, false)
    else if not (has_text webrtc_signal_codec protocols)
    then (s, false)
    else add_listener s (get_connections_of m peer) listens

-- `_onPeerDisconnected`
unfoldable pub on_peer_disconnected : AutoSignal → String → AutoSignal
on_peer_disconnected s peer =
    if same peer s.relay_peer_id then record s { is_listening = false } else s
