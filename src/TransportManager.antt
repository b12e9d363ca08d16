-- ===== src/TransportManager.antt =====
-- js-libp2p/src/transport-manager.ts: `DefaultTransportManager`. A transport is another package's: a manager knows which
-- addresses it keeps by its filter, how its dials end, and at which addresses it can listen. A listener is known by the
-- address it was made for; those of one transport are in the order in which they were made.
pub mod Listening
pub mod Dialing
pub mod Stopping
use state_channels.Common.{
  ℕ, ◌≡◌, Bool, true, false, ◌||◌, ◌&&◌, Option, none, some, List, [], ◌∷◌, ◌++◌, map, String,
  length, flat_map, any, ◌==◌, not, if◌then◌else◌,
}
use state_channels.Common.StringMap
use state_channels.Common.StringMap.{StringMap}
use state_channels.Errors.{
  Code, Result, ok, err, ◌>>=◌, ◌>>◌, throw_if, or_throw, err_invalid_key, err_duplicate_transport,
  err_transport_unavailable, err_transport_dial_failed, err_no_valid_addresses,
}

pub data FaultTolerance : Type 0 where
  fatal_all no_fatal : FaultTolerance

-- How a dial of a transport ends: with a connection, or with an error that may carry a code.
pub data DialEnd (C : Type 0) : Type 0 where
  connected : C → DialEnd C
  failed : Option Code → DialEnd C

pub record Transport (M C : Type 0) : Type 0 where
  pub tag : Option String
  pub filter : List M → List M
  pub dial : M → DialEnd C
  pub can_listen : M → Bool

pub record TransportManager (M C : Type 0) : Type 0 where
  pub transports : StringMap (Transport M C)
  pub listeners : StringMap (List M)
  pub fault_tolerance : FaultTolerance
  pub started : Bool

pub data Effect (M : Type 0) : Type 0 where
  close : M → Effect M

abbrev pub is_fatal : FaultTolerance → Bool
is_fatal fatal_all = true
is_fatal no_fatal = false

abbrev pub check_any : FaultTolerance → ℕ → Result ℕ → Result (Unit {0})
check_any f size (err e) = err e
check_any f size (ok could_not) =
    throw_if ((could_not == size) && is_fatal f) err_no_valid_addresses

abbrev pub or_dial_failed : {C : Type 0} → DialEnd C → Result C
or_dial_failed (connected c) = ok c
or_dial_failed (failed none) = err err_transport_dial_failed
or_dial_failed (failed (some e)) = err e

module _ {M : Type 0} where
  abbrev pub ensure_listeners : String → StringMap (List M) → StringMap (List M)
  ensure_listeners tag l = if StringMap.has tag l then l else StringMap.set tag [] l

  abbrev pub is_empty : List M → Bool
  is_empty [] = true
  is_empty (_ ∷ _) = false

  abbrev pub or_empty : Option (List M) → List M
  or_empty none = []
  or_empty (some l) = l

  -- The listeners of one transport in `listen`: one for each address that it supports.
  abbrev pub make_listeners : String → List M → StringMap (List M) → StringMap (List M)
  make_listeners key [] l = l
  make_listeners key (a ∷ addrs) l =
      make_listeners key addrs (StringMap.set key (or_empty (StringMap.get key l) ++ a ∷ []) l)

  abbrev pub empty_each : StringMap (List M) → StringMap (List M)
  empty_each [] = []
  empty_each ((key, l) ∷ ls) = (key, []) ∷ empty_each ls

  -- The listeners that `stop` closes: of each transport the newest first.
  abbrev pub closing : StringMap (List M) → List M
  closing [] = []
  closing ((key, l) ∷ ls) = mathlib.Core.List.reverse l ++ closing ls

module _ {M C : Type 0} where
  unfoldable pub new : Option FaultTolerance → TransportManager M C
  new f = record {
    transports = [];
    listeners = [];
    fault_tolerance = elim f [ none ↦ fatal_all | some t ↦ t ];
    started = false;
  }

  -- `add`
  unfoldable pub add : TransportManager M C → Transport M C → Result (TransportManager M C)
  add m t = do
    tag ← or_throw t.tag err_invalid_key
    throw_if (StringMap.has tag m.transports) err_duplicate_transport
    ok (record m {
      transports = StringMap.set tag t m.transports;
      listeners = ensure_listeners tag m.listeners;
    })

  -- The loop of `transportForMultiaddr`, on the transports in the order in which they were added.
  unfoldable pub first_transport : List (Transport M C) → M → Option (Transport M C)
  first_transport [] ma = none
  first_transport (t ∷ ts) ma =
      let rest = first_transport ts ma in if is_empty (t.filter (ma ∷ [])) then rest else some t

  unfoldable pub transport_for_multiaddr : TransportManager M C → M → Option (Transport M C)
  unfolding first_transport
  transport_for_multiaddr m = first_transport (StringMap.values m.transports)

  -- `dial`
  unfoldable pub dial : TransportManager M C → M → Result C
  unfolding transport_for_multiaddr
  dial m ma = do
    t ← or_throw (transport_for_multiaddr m ma) err_transport_unavailable
    or_dial_failed (t.dial ma)

  -- The loop of `listen`: the listeners that were made, and the number of transports with no address to listen at. The
  -- listeners that were made before an error stay.
  unfoldable pub listen_each :
      Bool
      → List M
      → StringMap (Transport M C)
      → StringMap (List M)
      → ℕ
      → StringMap (List M) × Result ℕ
  listen_each fatal addrs [] l n = (l, ok n)
  listen_each fatal addrs ((key, t) ∷ ts) l n =
      let supported = t.filter addrs in
      let l' = make_listeners key supported l in
      let with_none = listen_each fatal addrs ts l' (Prim.Native.Nat.suc n) in
      let with_some = listen_each fatal addrs ts l' n in
      if is_empty supported
      then with_none
      else if not (any (λ a. t.can_listen a) supported) && fatal
      then (l', err err_no_valid_addresses)
      else with_some

  -- `listen`
  unfoldable pub listen : TransportManager M C → List M → TransportManager M C × Result (Unit {0})
  unfolding listen_each
  listen m [] = (m, ok tt)
  listen m (a ∷ addrs) =
      let (l, r) =
        listen_each (is_fatal m.fault_tolerance) (a ∷ addrs) m.transports m.listeners 0 in
      (record m { listeners = l }, check_any m.fault_tolerance (length m.transports) r)

  -- `start`, with the addresses of the address manager.
  unfoldable pub start : TransportManager M C → List M → TransportManager M C × Result (Unit {0})
  unfolding listen
  start m addrs =
      let (m', r) = listen m addrs in
      elim r [ ok _ ↦ (record m' { started = true }, ok tt) | err e ↦ (m', err e) ]

  -- `stop`
  unfoldable pub stop : TransportManager M C → TransportManager M C × List (Effect M)
  stop m = (
    record m { listeners = empty_each m.listeners; started = false },
    map close (closing m.listeners),
  )

  -- `remove`
  unfoldable pub remove : TransportManager M C → String → TransportManager M C × List (Effect M)
  remove m key = (
    record m {
      transports = StringMap.delete key m.transports;
      listeners = StringMap.delete key m.listeners;
    },
    map close (or_empty (StringMap.get key m.listeners)),
  )

  -- The loop of `removeAll`
  unfoldable pub remove_each :
      List String → TransportManager M C → TransportManager M C × List (Effect M)
  unfolding remove
  remove_each [] m = (m, [])
  remove_each (key ∷ ks) m =
      let (m', e) = remove m key in let (m'', es) = remove_each ks m' in (m'', e ++ es)

  unfoldable pub remove_all : TransportManager M C → TransportManager M C × List (Effect M)
  unfolding remove_each
  remove_all m = remove_each (StringMap.keys m.transports) m

  -- `getAddrs`; the addresses of a listener are the listener's own.
  unfoldable pub get_addrs : (M → List M) → TransportManager M C → List M
  get_addrs addrs_of m = flat_map (flat_map addrs_of) (StringMap.values m.listeners)

  abbrev pub get_transports : TransportManager M C → List (Transport M C)
  get_transports m = StringMap.values m.transports
