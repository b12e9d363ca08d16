-- ===== src/Connection.antt =====
-- js-libp2p/src/connection/index.ts: `ConnectionImpl`. The raw connection and its muxer are other packages': how their calls
-- end is part of the step that is taken when they end.
pub mod Closing
use state_channels.Common.{
  ℕ, zero, suc, ◌≡◌, Bool, true, false, ◌||◌, Option, none, some, List, [], ◌∷◌, ◌++◌, map, String,
  if◌then◌else◌,
}

pub data Status : Type 0 where
  open_ closing closed : Status

-- The codes of `newStream`, which are not among those of errors.ts.
pub data StreamError : Type 0 where
  err_connection_being_closed err_connection_closed : StreamError

pub record ConnectionImpl : Type 0 where
  pub status : Status
  pub is_closing : Bool  -- _closing
  pub close_time : Option ℕ  -- stat.timeline.close, of the timeline that the raw connection has too

pub record Stream : Type 0 where
  pub id : String
  pub inbound : Bool

pub data Effect : Type 0 where
  close_stream : String → Effect
  close_raw : Effect

-- The constructor.
unfoldable pub create : ConnectionImpl
create = record { status = open_; is_closing = false; close_time = none }

-- `newStream` up to its call of the muxer: the error that it throws, if it throws one.
unfoldable pub new_stream : ConnectionImpl → Option StreamError
new_stream c = elim c.status [
  | open_ ↦ none
  | closing ↦ some err_connection_being_closed
  | closed ↦ some err_connection_closed
]

-- `newStream` once the muxer has returned the stream, and `addStream`.
abbrev pub opened : Stream → Stream
opened s = record s { inbound = false }

abbrev pub add_stream : Stream → Stream
add_stream s = record s { inbound = true }

abbrev pub is_closed : Status → Bool
is_closed open_ = false
is_closed closing = false
is_closed closed = true

abbrev pub close_streams : Option (List Stream) → List Effect
close_streams none = []
close_streams (some ss) = map (λ s. close_stream s.id) ss

-- `close` up to its wait for the raw connection. `streams` is `none` if the getter throws.
unfoldable pub begin_close : ConnectionImpl → Option (List Stream) → ConnectionImpl × List Effect
begin_close c streams =
    if is_closed c.status || c.is_closing
    then (c, [])
    else (record c { status = closing; is_closing = true }, close_streams streams ++ close_raw ∷ [])

-- The raw connection sets `timeline.close` itself, at any time, if it is not set.
abbrev pub or_now : Option ℕ → ℕ → ℕ
or_now none now = now
or_now (some t) now = t

unfoldable pub set_close_time : ConnectionImpl → ℕ → ConnectionImpl
set_close_time c now = record c { close_time = some (or_now c.close_time now) }

-- `close` from the end of the raw connection on.
unfoldable pub end_close : ConnectionImpl → ℕ → ConnectionImpl
end_close c now = record c { is_closing = false; close_time = some now; status = closed }
