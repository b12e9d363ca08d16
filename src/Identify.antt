-- ===== src/Identify.antt =====
-- js-libp2p/src/identify/index.ts: `IdentifyService`. Keys, envelopes and multiaddrs are other packages', whose answers are
-- the record `Peers`; what is written to the peer store is a list of effects, and a write that is made succeeds.
pub mod Identifying
pub mod Pushing
use state_channels.Common.{
  ℕ, Bool, true, false, not, ◌&&◌, Option, none, some, List, [], ◌∷◌, ◌++◌, map, String, ite,
  str_dec, if◌then◌else◌,
}
use state_channels.Common.Texts.{has_text}
use state_channels.Errors.{
  Code, Result, ok, err, ◌>>=◌, ◌>>◌, throw_if, or_throw, err_connection_ended, err_invalid_message,
  err_missing_public_key, err_invalid_peer,
}
use state_channels.Manager.{Manager, Connection, get_connections}
use state_channels.Registrar.{Registrar, StreamHandlerOptions, handle, unhandle}

-- The fields of the message that are read.
pub record Message (K B : Type 0) : Type 0 where
  pub public_key : Option K
  pub listen_addrs : List B
  pub protocols : List String
  pub signed_peer_record : Option B
  pub agent_version : Option String
  pub protocol_version : Option String

pub record Envelope (B : Type 0) : Type 0 where
  pub peer : String
  pub bytes : B

-- What the packages of keys, envelopes and multiaddrs answer, and whether the address book takes a peer record.
pub record Peers (K B M : Type 0) : Type 0 where
  pub peer_id_from_keys : K → Result String
  pub open_and_certify : B → Result (Envelope B)
  pub consume_peer_record : Envelope B → Result Bool
  pub multiaddr : B → Option M

-- What is done to the peer store.
pub data Effect (B M : Type 0) : Type 0 where
  consume_record : Envelope B → Effect B M
  set_addresses : String → List M → Effect B M
  set_protocols : String → List String → Effect B M
  set_metadata : String → String → String → Effect B M

abbrev pub same_text : String → String → Bool
same_text s t = ite (str_dec s t) true false

module _ {B M : Type 0} where
  abbrev pub set_version : String → String → Option String → List (Effect B M)
  set_version id k none = []
  set_version id k (some v) = set_metadata id k v ∷ []

module _ {K B M : Type 0} (e : Peers K B M) where
  abbrev pub set_versions : String → Message K B → List (Effect B M)
  set_versions id m =
      set_version id "AgentVersion" m.agent_version
      ++ set_version id "ProtocolVersion" m.protocol_version

  -- `listenAddrs.map((addr) => multiaddr(addr))`, which throws on the first that does not parse
  abbrev pub parse_all : List B → Option (List M)
  parse_all [] = some []
  parse_all (b ∷ bs) = elim (e.multiaddr b) [
    | none ↦ none
    | some ma ↦ elim (parse_all bs) [ none ↦ none | some mas ↦ some (ma ∷ mas) ]
  ]

  abbrev pub set_parsed : String → Option (List M) → List (Effect B M)
  set_parsed id none = []
  set_parsed id (some mas) = set_addresses id mas ∷ []

  -- The legacy update: the addresses of the message, if all of them parse, and its protocols.
  abbrev pub legacy : String → Message K B → List (Effect B M)
  legacy id m = set_parsed id (parse_all m.listen_addrs) ++ set_protocols id m.protocols ∷ []

  -- A peer record is consumed if its envelope opens, is one that is expected, and the address book takes it. `done` is what
  -- follows then, and `otherwise` the fallback.
  abbrev pub consumed :
      Envelope B → Result Bool → List (Effect B M) → List (Effect B M) → List (Effect B M)
  consumed v (ok true) done otherwise = consume_record v ∷ done
  consumed v (ok false) done otherwise = otherwise
  consumed v (err c) done otherwise = otherwise

  abbrev pub opened :
      (Envelope B → Bool)
      → Result (Envelope B)
      → List (Effect B M)
      → List (Effect B M)
      → List (Effect B M)
  opened expected (err c) done otherwise = otherwise
  opened expected (ok v) done otherwise =
      if expected v then consumed v (e.consume_peer_record v) done otherwise else otherwise

  abbrev pub update :
      (Envelope B → Bool) → Option B → List (Effect B M) → List (Effect B M) → List (Effect B M)
  update expected none done otherwise = otherwise
  update expected (some record_bytes) done otherwise =
      opened expected (e.open_and_certify record_bytes) done otherwise

  -- The peer that a message identifies, on a connection to `remote` of the peer `own`.
  unfoldable pub identified : String → String → Message K B → Result String
  identified own remote m = do
    key ← or_throw m.public_key err_missing_public_key
    id ← e.peer_id_from_keys key
    throw_if (not (same_text remote id)) err_invalid_peer
    throw_if (same_text own id) err_invalid_peer
    ok id

  abbrev pub identify_peer : Message K B → Result String → List (Effect B M) × Result (Unit {0})
  identify_peer m (err c) = ([], err c)
  identify_peer m (ok id) = (
    update (λ v. same_text v.peer id) m.signed_peer_record
        (set_protocols id m.protocols ∷ set_versions id m) (legacy id m ++ set_versions id m),
    ok tt,
  )

  -- `identify`, with the message that `_identify` has read: `none` if the stream has ended, an error if it does not decode.
  unfoldable pub identify :
      String → String → Option (Option (Message K B)) → List (Effect B M) × Result (Unit {0})
  unfolding identified
  identify own remote none = ([], err err_connection_ended)
  identify own remote (some none) = ([], err err_invalid_message)
  identify own remote (some (some m)) = identify_peer m (identified own remote m)

  -- `_handlePush`, with the message that it has read, if any.
  unfoldable pub handle_push : String → String → Option (Message K B) → List (Effect B M)
  handle_push own remote none = []
  handle_push own remote (some m) =
      if same_text own remote
      then []
      else update (λ v. true) m.signed_peer_record (set_protocols remote m.protocols ∷ [])
          (legacy remote m)

-- The service, with the registrar that it shares with the rest of the node.
pub record IdentifyService : Type 0 where
  pub started : Bool
  pub identify_protocol : String
  pub identify_push_protocol : String
  pub protocol_version : String
  pub agent_version : String

-- What a node knows of itself: its key, the addresses that it announces, its protocols and its peer record.
pub record Self (K B : Type 0) : Type 0 where
  pub public_key : K
  pub listen_addrs : List B
  pub protocols : List String
  pub peer_record_envelope : Option B

-- A peer record is made if the node has addresses and no record; `sealed` is the one that is made.
abbrev pub record_or_sealed : {B : Type 0} → B → List B → Option B → Option B
record_or_sealed sealed [] r = r
record_or_sealed sealed (a ∷ as') (some r) = some r
record_or_sealed sealed (a ∷ as') none = some sealed

module _ {K B : Type 0} where
  -- `_handleIdentify`: the message that it answers with.
  unfoldable pub handle_identify : IdentifyService → B → Self K B → Message K B
  handle_identify s sealed self = record {
    public_key = some self.public_key;
    listen_addrs = self.listen_addrs;
    protocols = self.protocols;
    signed_peer_record = record_or_sealed sealed self.listen_addrs self.peer_record_envelope;
    agent_version = some s.agent_version;
    protocol_version = some s.protocol_version;
  }

  -- `push`: the message that each connection gets.
  unfoldable pub push_message : Self K B → Message K B
  push_message self = record {
    public_key = none;
    listen_addrs = self.listen_addrs;
    protocols = self.protocols;
    signed_peer_record = self.peer_record_envelope;
    agent_version = none;
    protocol_version = none;
  }

-- The loop of `pushToPeerStore`; `protocols_of` is what the peer store says of a peer.
abbrev pub speaking : String → (String → List String) → List Connection → List Connection
speaking p protocols_of [] = []
speaking p protocols_of (c ∷ cs) =
    let rest = speaking p protocols_of cs in
    if not (has_text p (protocols_of c.remote_peer)) then rest else c ∷ rest

-- `pushToPeerStore`: the connections that it pushes to.
unfoldable pub push_to_peer_store :
    IdentifyService → (String → List String) → Manager → List Connection
push_to_peer_store s protocols_of m =
    if not s.started then [] else speaking s.identify_push_protocol protocols_of (get_connections m)

-- A change of the addresses or the protocols of a peer
unfoldable pub on_change :
    IdentifyService → String → String → (String → List String) → Manager → List Connection
unfolding push_to_peer_store
on_change s own changed protocols_of m =
    if ite (str_dec own changed) true false then push_to_peer_store s protocols_of m else []

module _ {H T : Type 0} where
  abbrev pub handled_both :
      IdentifyService
      → Registrar H T
      → Result (Registrar H T × List (state_channels.Registrar.Effect T))
      → IdentifyService × Registrar H T × Result (Unit {0})
  handled_both s r (err c) = (s, r, err c)
  handled_both s r (ok (r', es)) = (record s { started = true }, r', ok tt)

  abbrev pub handled :
      IdentifyService
      → Registrar H T
      → Result (Registrar H T × List (state_channels.Registrar.Effect T))
      → (Registrar H T → Result (Registrar H T × List (state_channels.Registrar.Effect T)))
      → IdentifyService × Registrar H T × Result (Unit {0})
  handled s r (err c) next = (s, r, err c)
  handled s r (ok (r', es)) next = handled_both s r' (next r')

  -- `start`; the error of the first `handle` leaves the second undone.
  unfoldable pub start :
      H
      → H
      → StreamHandlerOptions
      → StreamHandlerOptions
      → IdentifyService
      → Registrar H T
      → IdentifyService × Registrar H T × Result (Unit {0})
  start on_identify on_push o o' s r =
      if s.started
      then (s, r, ok tt)
      else handled s r (handle r s.identify_protocol on_identify o)
          (λ r'. handle r' s.identify_push_protocol on_push o')

  -- `stop`
  unfoldable pub stop : IdentifyService → Registrar H T → IdentifyService × Registrar H T
  stop s r = (
    record s { started = false },
    (unhandle ((unhandle r (s.identify_protocol ∷ [])).0) (s.identify_push_protocol ∷ [])).0,
  )
