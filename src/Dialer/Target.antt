-- ===== src/Dialer/Target.antt =====
-- js-libp2p/src/connection-manager/dialer/index.ts: `dial`, `_createDialTarget`, `_loadAddresses`, `_resolve` and the dials in
-- flight. Names are resolved recursively: `fuel` bounds the depth, and `none` says that it was not enough.
pub mod Resolving
pub mod Addresses
pub mod Dialing
use state_channels.Common.{
  ℕ, zero, suc, ◌≡◌, Bool, true, false, ◌||◌, ◌&&◌, not, Option, none, some, List, [], ◌∷◌, ◌++◌,
  map, any, length, ltb, String, ite, str_dec, if◌then◌else◌,
}
use state_channels.Common.StringMap
use state_channels.Common.StringMap.{StringMap}
use state_channels.Common.Texts.{has_text, unique}
use state_channels.Common.Sort.{sort}
use state_channels.Errors.{
  Code, Result, ok, err, ◌>>=◌, ◌>>◌, throw_if, err_dialed_self, err_peer_dial_intercepted,
  err_too_many_addresses, err_no_valid_addresses,
}
use state_channels.Manager.Opening.{PeerAddress}
use state_channels.Manager.{Connection}
use state_channels.TransportManager.{TransportManager, transport_for_multiaddr}
use state_channels.Dialer.{Dialer, get_tokens}

-- An address of the peer store.
pub record Address (M : Type 0) : Type 0 where
  pub multiaddr : M
  pub is_certified : Bool

-- What the dialer asks of other packages and of the rest of the program.
pub record Network (M : Type 0) : Type 0 where
  pub own_peer : String  -- components.peerId
  pub proto_names : M → List String
  pub resolve : M → Option (List M)  -- `none` if it throws
  pub to_string : M → String
  pub multiaddr : String → M
  pub equals : M → M → Bool
  pub get_peer_id : M → Option String
  pub encapsulate : M → String → M  -- ma.encapsulate(`/p2p/${peer}`)
  pub transports : TransportManager M Connection
  pub deny_dial_peer : String → Bool
  pub deny_dial_multiaddr : String → M → Bool
  pub addresses : String → List (Address M)  -- peerStore.addressBook.get(peer)
  pub goes_after : Address M → Address M → Bool  -- addressSorter(a, b) > 0

pub record DialTarget (M : Type 0) : Type 0 where
  pub id : String
  pub addrs : List M

-- The effect of `dial` on the address book.
pub data Effect (M : Type 0) : Type 0 where
  add_address : String → M → Effect M

-- `xs.filter(p)`
abbrev pub filter {ℓ} : {A : Type ℓ} → (A → Bool) → List A → List A
filter p [] = []
filter p (x ∷ xs) = let rest = filter p xs in if p x then x ∷ rest else rest

-- The results of two calls that both have to return.
abbrev pub both : {M : Type 0} → Option (List M) → Option (List M) → Option (List M)
both none _ = none
both (some xs) none = none
both (some xs) (some ys) = some (xs ++ ys)

abbrev pub map_option {ℓ κ} : {A : Type ℓ} {B : Type κ} → (A → B) → Option A → Option B
map_option f none = none
map_option f (some a) = some (f a)

abbrev pub or_none_found : {M : Type 0} → Option (List M) → List M
or_none_found none = []
or_none_found (some l) = l

-- `(await Promise.all(ms.map(f))).flat()`
abbrev pub each : {M : Type 0} → (M → Option (List M)) → List M → Option (List M)
each f [] = some []
each f (m ∷ ms) = both (f m) (each f ms)

abbrev pub or_random : Option String → String → String
or_random none random = random
or_random (some p) random = p

abbrev pub stored : {M : Type 0} → String → Option M → List (Effect M)
stored p none = []
stored p (some ma) = add_address p ma ∷ []

module _ {M : Type 0} (net : Network M) where
  -- The `reduce` of `_resolve`: each of equal addresses once. `kept` is the array so far.
  abbrev pub keep_first : List M → List M → List M
  keep_first kept [] = kept
  keep_first kept (m ∷ ms) =
      let without = keep_first kept ms in
      let with_it = keep_first (kept ++ m ∷ []) ms in
      if any (λ k. net.equals k m) kept then without else with_it

  -- `_resolve`
  unfoldable pub resolve : ℕ → M → Option (List M)
  resolve zero ma = none
  resolve (suc fuel) ma =
      let next = or_none_found (net.resolve (net.multiaddr (net.to_string ma))) in
      let resolved = map_option (keep_first []) (each (resolve fuel) next) in
      if has_text "dnsaddr" (net.proto_names ma) then resolved else some (ma ∷ [])

  -- `_loadAddresses`
  unfoldable pub load_addresses : String → List M
  load_addresses peer =
      map (λ a. a.multiaddr)
        (sort net.goes_after
          (filter (λ a. not (net.deny_dial_multiaddr peer a.multiaddr)) (net.addresses peer)))

  -- The addresses that `_createDialTarget` begins with.
  abbrev pub given : PeerAddress M → List M
  given a = first_given a.multiaddr a.peer_id
    where
      first_given : Option M → Option String → List M
      first_given (some ma) p = ma ∷ []
      first_given none (some p) = load_addresses p
      first_given none none = []

  -- `addr.encapsulate('/p2p/…')`, unless the address names the peer already.
  unfoldable pub with_peer_id : String → M → M
  with_peer_id p addr = elim (net.get_peer_id addr) [
    | none ↦ net.encapsulate addr p
    | some q ↦ ite (str_dec p q) addr (net.encapsulate addr p)
  ]

  abbrev pub with_peer : Option String → List M → List M
  with_peer none addrs = addrs
  with_peer (some p) addrs = map (with_peer_id p) addrs

  -- `Boolean(this.components.transportManager.transportForMultiaddr(ma))`
  abbrev pub has_transport : M → Bool
  has_transport ma = StringMap.is_some (transport_for_multiaddr net.transports ma)

  -- The rest of `_createDialTarget`, on the resolved addresses.
  unfoldable pub target_of : Dialer → PeerAddress M → String → List M → Result (DialTarget M)
  unfolding unique
  target_of d a random resolved =
      let supported = filter has_transport resolved in
      let addrs = map (λ t. net.multiaddr t) (unique [] (map (λ ma. net.to_string ma) supported)) in
      throw_if (ltb d.max_addrs_to_dial (length addrs)) err_too_many_addresses
      >> ok (record { id = or_random a.peer_id random; addrs = with_peer a.peer_id addrs })

  -- `_createDialTarget`
  unfoldable pub create_dial_target :
      ℕ → Dialer → PeerAddress M → String → Option (Result (DialTarget M))
  unfolding resolve target_of
  create_dial_target fuel d a random =
      map_option (target_of d a random) (each (resolve fuel) (given a))

  abbrev pub check_known : Option String → Option M → List (Effect M) × Result (Unit {0})
  check_known none ma = ([], ok tt)
  check_known (some p) ma =
      if ite (str_dec net.own_peer p) true false
      then ([], err err_dialed_self)
      else (stored p ma, throw_if (net.deny_dial_peer p) err_peer_dial_intercepted)

  -- `dial` up to the making of a target.
  unfoldable pub check_peer : PeerAddress M → List (Effect M) × Result (Unit {0})
  check_peer a = check_known a.peer_id a.multiaddr

-- `_createPendingDial`: `run` takes the tokens of the new dial, `call`, before its first wait.
unfoldable pub create_pending_dial : {M : Type 0} → Dialer → DialTarget M → ℕ → Dialer
unfolding get_tokens
create_pending_dial d t call = record ((get_tokens d (length t.addrs)).1) {
  pending_dials = StringMap.set t.id call d.pending_dials;
}

-- The dial of a target that is in flight, or a new one.
abbrev pub join : {M : Type 0} → Dialer → DialTarget M → ℕ → Option ℕ → ℕ × Dialer
join d t call (some pending) = (pending, d)
join d t call none = (call, create_pending_dial d t call)

-- `dial` from the target on, to its wait for the dial.
unfoldable pub join_dial : {M : Type 0} → Dialer → DialTarget M → ℕ → Result (ℕ × Dialer)
join_dial d t call =
    throw_if (ltb (length t.addrs) 1) err_no_valid_addresses
    >> ok (join d t call (StringMap.get t.id d.pending_dials))

-- The target that is being made, by the random id of its controller.
unfoldable pub begin_target : Dialer → String → ℕ → Dialer
begin_target d id controller = record d {
  pending_dial_targets = StringMap.set id controller d.pending_dial_targets;
}

unfoldable pub end_target : Dialer → String → Dialer
end_target d id = record d { pending_dial_targets = StringMap.delete id d.pending_dial_targets }

-- `pendingDial.destroy()`
unfoldable pub destroy : {M : Type 0} → Dialer → DialTarget M → Dialer
destroy d t = record d { pending_dials = StringMap.delete t.id d.pending_dials }

-- A dial that waits: for the dial of which call, and for which target; or the error that it ends with.
abbrev pub join_made :
    {M : Type 0} → Dialer → ℕ → Result (DialTarget M) → Dialer × Result (ℕ × DialTarget M)
join_made d call (err e) = (d, err e)
join_made d call (ok t) = elim (join_dial d t call) [
  | err e ↦ (d, err e)
  | ok (pending, d') ↦ (d', ok (pending, t))
]

-- `dial` up to its wait for the connection. `controller` has the random id `id`.
unfoldable pub begin_dial :
    {M : Type 0}
    → Network M
    → ℕ
    → Dialer
    → PeerAddress M
    → String
    → String
    → ℕ
    → Option (Dialer × Result (ℕ × DialTarget M))
unfolding begin_target end_target check_peer create_dial_target join_dial
begin_dial net fuel d a id random call =
    let made =
      map_option (join_made (end_target (begin_target d id call) id) call)
        (create_dial_target net fuel d a random) in
    elim (check_peer net a).1 [ err e ↦ some (d, err e) | ok _ ↦ made ]

-- `start`, and `stop` with the controllers that it aborts.
unfoldable pub start : Dialer → Dialer
start d = record d { started = true }

unfoldable pub stop : Dialer → Dialer × List ℕ
stop d = (
  record d { started = false; pending_dials = []; pending_dial_targets = [] },
  StringMap.values d.pending_dials ++ StringMap.values d.pending_dial_targets,
)
