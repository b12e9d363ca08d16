-- ===== src/Manager/Opening.antt =====
-- get-peer.ts, and what `openConnection`, `closeConnections`, `getAll` and the life cycle of the manager do. The
-- dialer's part of `openConnection` is between the two functions here: other events may be handled then.
use state_channels.Common.{
  String, ◌≡◌, refl, Bool, true, false, ◌&&◌, Option, none, some, List, [], ◌∷◌, ◌++◌, map, any,
  arith, ite, if◌then◌else◌, str_dec, inl, inr, Bool-cases,
}
use state_channels.Common.StringMap
use state_channels.Common.StringMap.{StringMap, HasDistinctKeys}
use state_channels.Errors.{
  Result, ok, err, ◌>>=◌, ◌>>◌, throw_if, err_invalid_parameters, err_invalid_multiaddr,
}
use state_channels.Manager.{
  Manager, Connection, Effect, close, or_default, get_connections, get_connections_of, store,
}

-- What may be dialed. A multiaddr is another package's: it is known by the peer id that it names.
pub data Target {ℓ} (Multiaddr : Type ℓ) : Type ℓ where
  peer : String → Target Multiaddr
  address : Multiaddr → Target Multiaddr
  neither : Target Multiaddr

pub record PeerAddress {ℓ} (Multiaddr : Type ℓ) : Type ℓ where
  pub peer_id : Option String
  pub multiaddr : Option Multiaddr

module _ {ℓ} {Multiaddr : Type ℓ} (peer_id_of : Multiaddr → Option String) where
  unfoldable pub get_peer_address : Target Multiaddr → Result (PeerAddress Multiaddr)
  get_peer_address (peer p) = ok (record { peer_id = some p; multiaddr = none })
  get_peer_address (address ma) = ok (record { peer_id = peer_id_of ma; multiaddr = some ma })
  get_peer_address neither = err err_invalid_multiaddr

-- How `openConnection` goes on: with a connection that it had, or by the dialer.
pub data Opening : Type 0 where
  had : Connection → Opening
  dial : Opening

abbrev first_or_dial : List Connection → Opening
first_or_dial [] = dial
first_or_dial (c ∷ _) = had c

existing : Manager → Option String → Opening
existing m none = dial
existing m (some p) = first_or_dial (get_connections_of m p)

abbrev is_none {ℓ} : {A : Type ℓ} → Option A → Bool
is_none none = true
is_none (some _) = false

module _ {ℓ} {Multiaddr : Type ℓ} (peer_id_of : Multiaddr → Option String) where
  -- `openConnection` up to the dial.
  unfoldable pub open_connection : Manager → Target Multiaddr → Result Opening
  unfolding existing get_peer_address
  open_connection m t = do
    a ← get_peer_address peer_id_of t
    throw_if (is_none a.peer_id && is_none a.multiaddr) err_invalid_parameters
    ok (existing m a.peer_id)

abbrev pub has_id : String → List Connection → Bool
has_id i = any (λ c. ite (str_dec c.id i) true false)

-- `openConnection` from the dial on: the connection is stored unless it is stored already.
unfoldable pub track_dialed : StringMap (List Connection) → Connection → StringMap (List Connection)
track_dialed m c = elim (StringMap.get c.remote_peer m) [
  | none ↦ StringMap.set c.remote_peer (c ∷ []) m
  | some cs ↦ if has_id c.id cs then m else StringMap.set c.remote_peer (cs ++ c ∷ []) m
]

-- `closeConnections`
unfoldable pub close_connections : Manager → String → List Effect
close_connections m p = map close (get_connections_of m p)

keep_open : (Connection → Bool) → List Connection → List Connection
keep_open is_open [] = []
keep_open is_open (c ∷ cs) = let rest = keep_open is_open cs in if is_open c then c ∷ rest else rest

-- `getAll`: `none` stands for an argument that is no peer id. The status of a connection is the
-- connection's own, at the time of the call.
unfoldable pub get_all : (Connection → Bool) → Manager → Option String → Result (List Connection)
unfolding keep_open
get_all is_open m none = err err_invalid_parameters
get_all is_open m (some p) = ok (keep_open is_open (get_connections_of m p))

unfoldable pub start : Manager → Manager
start m = record m { started = true }

-- `stop` and `_close`: every tracked connection is closed and none is tracked any more.
unfoldable pub stop : Manager → Manager × List Effect
stop m = (record m { started = false; connections = [] }, map close (get_connections m))

-- The peers that `afterStart` dials: those with the KEEP_ALIVE tag, given with their tags' names.
unfoldable pub keep_alive_peers : String → List (String × List String) → List String
keep_alive_peers keep_alive [] = []
keep_alive_peers keep_alive ((p, names) ∷ peers) =
    let rest = keep_alive_peers keep_alive peers in
    if any (λ n. ite (str_dec n keep_alive) true false) names then p ∷ rest else rest

has_id-append :
    (i : String) (c : Connection) (cs : List Connection) → c.id ≡ i → has_id i (cs ++ c ∷ []) ≡ true
has_id-append i c [] e = ground arith
has_id-append i c (d ∷ cs) e = ground (arith, has_id-append i c cs e)

-- A connection that the upgrader has announced before the dialer returns it is not stored again.
pub track_dialed-store :
    (m : StringMap (List Connection)) (c : Connection) → track_dialed (store m c) c ≡ store m c
unfolding track_dialed store
track_dialed-store m c = ground (
  arith,
  StringMap.get-set_self c.remote_peer (or_default (StringMap.get c.remote_peer m) [] ++ c ∷ []) m,
  has_id-append c.id c (or_default (StringMap.get c.remote_peer m) []),
)

-- If it has not been announced, it is stored exactly as an announced one is.
pub track_dialed_new :
    (m : StringMap (List Connection)) (c : Connection)
    → has_id c.id (or_default (StringMap.get c.remote_peer m) []) ≡ false
    → track_dialed m c ≡ store m c
unfolding track_dialed store
track_dialed_new m c h = ground arith

-- The peer's list once a dial has succeeded: it is not empty, and it is the dialed connection where
-- the peer had none.
abbrev HoldsPeer : StringMap (List Connection) → Connection → Option (List Connection) → Type 0
HoldsPeer m c o =
    (d : Connection) × (ds : List Connection) × (StringMap.get c.remote_peer (track_dialed m c)
      ≡ some (d ∷ ds))
    × (o ≡ none → d ≡ c)

track_dialed-HoldsPeer :
    (m : StringMap (List Connection)) (c : Connection) (o : Option (List Connection))
    → StringMap.get c.remote_peer m ≡ o
    → HoldsPeer m c o
unfolding track_dialed
track_dialed-HoldsPeer m c none e =
    (c, [], rw (e, track_dialed) (StringMap.get-set_self c.remote_peer (c ∷ []) m), λ _. refl)
track_dialed-HoldsPeer m c (some []) e =
    (c, [], rw (e, track_dialed) (StringMap.get-set_self c.remote_peer (c ∷ []) m), λ _. refl)
track_dialed-HoldsPeer m c (some (d ∷ ds)) e = elim (Bool-cases (has_id c.id (d ∷ ds))) [
  | inl old ↦ (d, ds, rw (e, track_dialed, old) e, λ f. cc)
  | inr new ↦ (
    d,
    ds ++ c ∷ [],
    rw (e, track_dialed, new) (StringMap.get-set_self c.remote_peer (d ∷ ds ++ c ∷ []) m),
    λ f. cc,
  )
]

-- Once a dial has succeeded, the peer is not dialed again: `openConnection` hands out a connection
-- that is tracked under the peer, and the one that was dialed if the peer had none.
pub open_connection-track_dialed {ℓ} :
    {Multiaddr : Type ℓ} (peer_id_of : Multiaddr → Option String) (m : Manager) (c : Connection)
    → let m' = record m { connections = track_dialed m.connections c } in
      (d : Connection) × (open_connection peer_id_of m' (peer c.remote_peer) ≡ ok (had d))
      × (has_id d.id (get_connections_of m' c.remote_peer) ≡ true)
      × (StringMap.get c.remote_peer m.connections ≡ none → d ≡ c)
unfolding open_connection get_connections_of
open_connection-track_dialed peer_id_of m c =
    let (d, ds, e, f) = track_dialed-HoldsPeer m.connections c _ refl in
    (d, rw e refl, rw e (ground arith), f)
