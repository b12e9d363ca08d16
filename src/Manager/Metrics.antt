-- ===== src/Manager/Metrics.antt =====
-- js-libp2p/src/connection-manager/index.ts: the metrics that `start` registers. The streams of a connection are an argument.
pub mod Percentiles
use state_channels.Common.{
  ℕ, zero, suc, ◌+◌, ◌*◌, ◌/◌, Bool, true, false, Option, none, some, List, [], ◌∷◌, ◌++◌, String,
  if◌then◌else◌, length, leb, ltb,
}
use state_channels.Common.StringMap
use state_channels.Common.StringMap.{StringMap}
use state_channels.Common.Sort.{sort}
use state_channels.Manager.{
  or_default, Manager, Connection, Direction, inbound, outbound, get_connections,
}

pub record ConnectionCounts : Type 0 where
  pub inbound_count : ℕ
  pub outbound_count : ℕ

abbrev pub is_inbound : Direction → Bool
is_inbound inbound = true
is_inbound outbound = false

abbrev pub count_in : List Connection → ConnectionCounts
count_in [] = record { inbound_count = 0; outbound_count = 0 }
count_in (c ∷ cs) =
    let rest = count_in cs in
    if is_inbound c.direction
    then record { inbound_count = suc rest.inbound_count; outbound_count = rest.outbound_count }
    else record { inbound_count = rest.inbound_count; outbound_count = suc rest.outbound_count }

-- 'libp2p_connection_manager_connections'
unfoldable pub connection_counts : Manager → ConnectionCounts
connection_counts m = count_in (get_connections m)

-- One more of a key, as in `metric[key] = (metric[key] ?? 0) + 1`.
abbrev pub count_key : StringMap ℕ → String → StringMap ℕ
count_key m key = StringMap.set key (or_default (StringMap.get key m) 0 + 1) m

abbrev pub count_keys : StringMap ℕ → List String → StringMap ℕ
count_keys m [] = m
count_keys m (k ∷ ks) = count_keys (count_key m k) ks

-- `streams` gives the keys of the streams of a connection, each made of its direction and its protocol.
module _ (streams : Connection → List String) where
  abbrev pub all_streams : List Connection → List String
  all_streams [] = []
  all_streams (c ∷ cs) = streams c ++ all_streams cs

  -- 'libp2p_protocol_streams_total'
  unfoldable pub protocol_streams_total : Manager → StringMap ℕ
  protocol_streams_total m = count_keys [] (all_streams (get_connections m))

  -- `allStreams[protocol].push(count)` for each entry of the counts of a connection
  abbrev pub push_counts : StringMap (List ℕ) → StringMap ℕ → StringMap (List ℕ)
  push_counts all [] = all
  push_counts all ((p, n) ∷ m) =
      push_counts (StringMap.set p (or_default (StringMap.get p all) [] ++ n ∷ []) all) m

  unfoldable pub streams_per_connection : StringMap (List ℕ) → List Connection → StringMap (List ℕ)
  streams_per_connection all [] = all
  streams_per_connection all (c ∷ cs) =
      streams_per_connection (push_counts all (count_keys [] (streams c))) cs

abbrev pub nth : List ℕ → ℕ → Option ℕ
nth [] n = none
nth (x ∷ xs) zero = some x
nth (x ∷ xs) (suc n) = nth xs n

abbrev pub greater : ℕ → ℕ → Bool
greater a b = ltb b a

-- `counts.sort((a, b) => a - b)[Math.floor(counts.length * 0.9)]`; the floor of the product is that of `length * 9 / 10`.
unfoldable pub percentile : List ℕ → Option ℕ
percentile counts = nth (sort greater counts) (length counts * 9 / 10)

abbrev pub percentiles : StringMap (List ℕ) → StringMap (Option ℕ)
percentiles [] = []
percentiles ((p, ns) ∷ m) = (p, percentile ns) ∷ percentiles m

-- 'libp2p_connection_manager_protocol_streams_per_connection_90th_percentile'
unfoldable pub streams_90th_percentile : (Connection → List String) → Manager → StringMap (Option ℕ)
unfolding percentile streams_per_connection
streams_90th_percentile streams m =
    percentiles (streams_per_connection streams [] (get_connections m))
