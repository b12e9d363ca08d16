-- ===== src/Ping.antt =====
-- js-libp2p/src/ping/index.ts: `PingService`. A connection, its stream and the clock are the platform's: what they answer is
-- in a record. A handler is known by the service that registers it.
pub mod Pinging
use Prim.Native.String.{◌++◌ as text_append}
use state_channels.Common.{
  ℕ, Bool, true, false, not, Option, none, some, List, [], ◌∷◌, String, if◌then◌else◌, head?,
}
use state_channels.Errors.{Code, Result, ok, err, ◌>>=◌, ◌>>◌, throw_if, err_wrong_ping_ack}
use state_channels.Registrar
use state_channels.Registrar.{Registrar, Effect, StreamHandlerOptions}

pub record PingServiceInit : Type 0 where
  pub protocol_prefix : String
  pub max_inbound_streams : ℕ
  pub max_outbound_streams : ℕ

pub record PingService : Type 0 where
  pub protocol : String
  pub started : Bool
  pub init : PingServiceInit

unfoldable pub protocol_of : String → String
protocol_of prefix = text_append "/" (text_append prefix "/ping/1.0.0")

unfoldable pub new : PingServiceInit → PingService
new i = record { protocol = protocol_of i.protocol_prefix; started = false; init = i }

abbrev pub stream_limits : PingServiceInit → StreamHandlerOptions
stream_limits i = record {
  max_inbound_streams = some i.max_inbound_streams;
  max_outbound_streams = some i.max_outbound_streams;
}

module _ {H T : Type 0} where
  -- `start` and `stop`, on the registrar; `h` is the bound `handleMessage`.
  unfoldable pub start :
      H → PingService → Registrar H T → Result (PingService × (Registrar H T × List (Effect T)))
  start h s r = do
    registered ← Registrar.handle r s.protocol h (stream_limits s.init)
    ok (record s { started = true }, registered)

  unfoldable pub stop :
      PingService → Registrar H T → PingService × (Registrar H T × List (Effect T))
  stop s r = (record s { started = false }, Registrar.unhandle r (s.protocol ∷ []))

-- `handleMessage`: what is written to the stream, of what is read from it.
unfoldable pub handle_message {ℓ} : {D : Type ℓ} → List D → List D
handle_message chunks = chunks

-- What is done to the stream of a ping, and what the ping comes to.
pub data StreamAction : Type 0 where
  opened closed : StreamAction

-- What the platform answers to a ping: `connected` to `openConnection`, `stream` to `newStream`, and `received` is what
-- comes over the stream, or how it fails. `began` and `ended` are readings of the clock.
pub record Exchange (D M : Type 0) : Type 0 where
  pub connected : Result (Unit {0})
  pub stream : Result (Unit {0})
  pub received : Result (List D)
  pub began : M
  pub ended : M

-- `result == null || !uint8ArrayEquals(data, result)`
abbrev pub is_wrong : {D : Type 0} → (D → D → Bool) → D → Option D → Bool
is_wrong same sent none = true
is_wrong same sent (some result) = not (same sent result)

module _ {D M : Type 0} where
  unfoldable pub acknowledge : (D → D → Bool) → (M → M → M) → D → Exchange D M → Result M
  acknowledge same minus sent x = do
    chunks ← x.received
    throw_if (is_wrong same sent (head? chunks)) err_wrong_ping_ack
    ok (minus x.ended x.began)

  -- The `try` and the `finally`.
  abbrev pub over_stream :
      (D → D → Bool)
      → (M → M → M)
      → D
      → Exchange D M
      → Result (Unit {0})
      → Result M × List StreamAction
  over_stream same minus sent x (err e) = (err e, [])
  over_stream same minus sent x (ok tt) = (acknowledge same minus sent x, opened ∷ closed ∷ [])

  abbrev pub when_connected :
      (D → D → Bool)
      → (M → M → M)
      → D
      → Exchange D M
      → Result (Unit {0})
      → Result M × List StreamAction
  when_connected same minus sent x (err e) = (err e, [])
  when_connected same minus sent x (ok tt) = over_stream same minus sent x x.stream

  -- `ping`: `sent` is the random data.
  unfoldable pub ping :
      (D → D → Bool) → (M → M → M) → D → Exchange D M → Result M × List StreamAction
  ping same minus sent x = when_connected same minus sent x x.connected
