-- ===== src/Dialer.antt =====
-- js-libp2p/src/connection-manager/dialer/index.ts: `DefaultDialer`. Multiaddrs, transports, the peer store and the gater are
-- other packages': what the dialer asks of them is the record `Network`.
pub mod Tokens
pub mod Request
pub mod Target
use state_channels.Common.{
  ℕ, zero, suc, ◌+◌, ◌≤◌, min, String, Bool, true, false, Option, none, some, List, [], ◌∷◌, ◌++◌,
  take, drop, length, any, ◌==◌, if◌then◌else◌,
}
use state_channels.Common.StringMap
use state_channels.Common.StringMap.{StringMap}

-- `constants.ts`
abbrev pub max_parallel_dials : ℕ
max_parallel_dials = 100

abbrev pub max_per_peer_dials : ℕ
max_per_peer_dials = 4

abbrev pub max_addrs_to_dial : ℕ
max_addrs_to_dial = 25

-- The options that the caller may leave `undefined`.
pub record DialerInit : Type 0 where
  pub max_parallel_dials : Option ℕ
  pub max_addrs_to_dial : Option ℕ
  pub max_dials_per_peer : Option ℕ
  pub keep_multiple_connections : Option Bool

-- What is known of a dial in flight: which call of `_createPendingDial` made it.
pub record Dialer : Type 0 where
  pub started : Bool
  pub max_addrs_to_dial : ℕ
  pub max_dials_per_peer : ℕ
  pub keep_multiple_connections : Bool
  pub tokens : List ℕ
  pub pending_dials : StringMap ℕ
  pub pending_dial_targets : StringMap ℕ

abbrev or_default {ℓ} : {A : Type ℓ} → Option A → A → A
or_default none d = d
or_default (some a) d = a

-- `[...new Array(n)].map((_, index) => index)`
abbrev pub indices_from : ℕ → ℕ → List ℕ
indices_from i zero = []
indices_from i (suc n) = i ∷ indices_from (suc i) n

unfoldable pub new : DialerInit → Dialer
new i = record {
  started = false;
  max_addrs_to_dial = or_default i.max_addrs_to_dial max_addrs_to_dial;
  max_dials_per_peer = or_default i.max_dials_per_peer max_per_peer_dials;
  keep_multiple_connections = or_default i.keep_multiple_connections false;
  tokens = indices_from 0 (or_default i.max_parallel_dials max_parallel_dials);
  pending_dials = [];
  pending_dial_targets = [];
}

-- `getTokens`: the tokens that are handed out, and the dialer without them.
unfoldable pub get_tokens : Dialer → ℕ → List ℕ × Dialer
get_tokens d num =
    let total = min num (min d.max_dials_per_peer (length d.tokens)) in
    (take total d.tokens, record d { tokens = drop total d.tokens })

abbrev pub includes : ℕ → List ℕ → Bool
includes t = any (λ u. u == t)

-- `releaseToken`, on the list of free tokens.
unfoldable pub release_to : List ℕ → ℕ → List ℕ
release_to free t = if includes t free then free else free ++ t ∷ []

unfoldable pub release_token : Dialer → ℕ → Dialer
unfolding release_to
release_token d t = record d { tokens = release_to d.tokens t }

-- `tokens.forEach(token => { this.dialer.releaseToken(token) })`
unfoldable pub release_all : List ℕ → List ℕ → List ℕ
release_all free [] = free
release_all free (t ∷ ts) = release_all (release_to free t) ts
