-- ===== src/AutoDialler.antt =====
-- js-libp2p/src/connection-manager/auto-dialler.ts: `AutoDialler`. The peers of the peer store are an argument, already
-- shuffled; what a dial, and whatever happens meanwhile, does to the manager and to the dialler is the argument `dial`.
pub mod Dials
use state_channels.Common.{
  ℕ, ◌≤◌, ◌<◌, ◌≡◌, Bool, true, false, ◌&&◌, ◌||◌, not, Option, none, some, List, [], ◌∷◌, ◌++◌,
  length, ltb, leb, String, ite, str_dec, if◌then◌else◌,
}
use state_channels.Common.Sort.{sort}
use state_channels.Manager.{Manager, Connection, get_connections, get_connections_of}

pub record AutoDiallerInit : Type 0 where
  pub enabled : Option Bool
  pub min_connections : Option ℕ

pub record AutoDialler : Type 0 where
  pub enabled : Bool
  pub min_connections : ℕ
  pub running : Bool
  pub timer : Bool  -- whether `_autoDial` is to be called again

-- What the dialler reads of a peer of the peer store.
pub record Peer : Type 0 where
  pub id : String
  pub protocols : ℕ
  pub has_public_key : Bool

abbrev or_default : {A : Type 0} → Option A → A → A
or_default none d = d
or_default (some a) d = a

unfoldable pub new : AutoDiallerInit → AutoDialler
new i = record {
  enabled = or_default i.enabled true;
  min_connections = or_default i.min_connections 0;
  running = false;
  timer = false;
}

-- `start` up to its call of `_autoDial`, and `stop`.
unfoldable pub start : AutoDialler → AutoDialler
start d = if d.enabled then record d { running = true } else d

unfoldable pub stop : AutoDialler → AutoDialler
stop d = if d.enabled then record d { running = false; timer = false } else d

-- The comparison of two peers is positive.
abbrev pub goes_after : Peer → Peer → Bool
goes_after a b = ltb a.protocols b.protocols || (b.has_public_key && not a.has_public_key)

-- `filter(source, (peer) => !peer.id.equals(this.components.peerId))`
abbrev pub without_self : String → List Peer → List Peer
without_self own [] = []
without_self own (p ∷ ps) =
    let rest = without_self own ps in if ite (str_dec p.id own) true false then rest else p ∷ rest

unfoldable pub candidates : String → List Peer → List Peer
candidates own all = sort goes_after (without_self own all)

abbrev pub has_none : List Connection → Bool
has_none [] = true
has_none (c ∷ cs) = false

-- A dial that the loop makes: of which peer, and with which connections before it.
pub record Dial : Type 0 where
  pub peer : Peer
  pub before : Manager

module _ (dial : AutoDialler → Manager → Peer → AutoDialler × Manager) where
  -- The loop of `_autoDial`, with the dials that it makes; `min_connections` has been read before it.
  unfoldable pub dial_each :
      (min_connections : ℕ) → AutoDialler → Manager → List Peer → List Dial × AutoDialler × Manager
  dial_each min_connections d m [] = ([], d, m)
  dial_each min_connections d m (p ∷ ps) =
      let (d', m') = dial d m p in
      let (dials, d'', m'') = dial_each min_connections d' m' ps in
      let dialed : List Dial × AutoDialler × Manager =
        ((record { peer = p; before = m }) ∷ dials, d'', m'') in
      let passed = dial_each min_connections d m ps in
      if d.running && ltb (length (get_connections m)) min_connections
      then (if has_none (get_connections_of m p.id) then dialed else passed)
      else ([], d, m)

  abbrev pub set_timer : List Dial × AutoDialler × Manager → List Dial × AutoDialler × Manager
  set_timer (dials, d, m) = (dials, if d.running then record d { timer = true } else d, m)

  -- `_autoDial`
  unfoldable pub auto_dial :
      String → List Peer → AutoDialler → Manager → List Dial × AutoDialler × Manager
  unfolding dial_each candidates
  auto_dial own all d m =
      let cleared = record d { timer = false } in
      if leb d.min_connections (length (get_connections m))
      then ([], record d { timer = true }, m)
      else set_timer (dial_each d.min_connections cleared m (candidates own all))
