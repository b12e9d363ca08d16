-- ===== src/Tests/Managing.antt =====
-- The connection manager and the auto dialler at concrete inputs.
use mathlib.Core.List.{
  Mem, mem-filter, Pairwise, mem-cons, not-mem-nil, mem-cons_self, mem-cons_of_mem, Mem-prop,
}
use mathlib.Core.Logic.Or
use state_channels.Common.{
  ℕ, zero, suc, ◌≤◌, not, ◌≡◌, refl, ◌↔◌, Bool, true, false, inl, none, some, List, [], ◌∷◌, length,
  drop, take, All, String, arith, if◌then◌else◌, subst, sym, text_ne,
}
use state_channels.Common.Int.{pos}
use state_channels.Common.StringMap
use state_channels.Common.StringMap.{StringMap}
use state_channels.AutoDialler.{AutoDialler, Peer, auto_dial}
use state_channels.AutoDialler.Dials.{IsMade, auto_dial-All}
use state_channels.Manager.Admission.{
  RemoteAddr, accept_incoming_connection, Admissible, Reach, none_yet, arrives,
  accept_incoming_connection_iff,
}
use state_channels.Manager.Admission.Balance.{Counts, Reach-Counts}
use state_channels.Manager.Ending.{on_disconnect_twice}
use state_channels.Manager.{
  Manager, Connection, finite, infinite, inbound, concat, get_connections, get_connections_of,
  on_disconnect, store, peer_disconnect,
}
use state_channels.Manager.Tracking.{
  IsTracking, Tracked, Differs, differs?, others, get_connections-on_disconnect,
}
use state_channels.Manager.Invariant.{Differs-prop, Fresh, store-IsTracking}
use state_channels.Manager.Prune.{
  PeerStore, Closing, on_connect, prune_connections, sorted_connections,
}
use state_channels.Manager.Prune.Refinement.{
  Spec, Op, opened, ended, bag_of, perform_all, perform_all-Spec,
}
use state_channels.Node.{get_peers}
use state_channels.Node.Peers.{is_none_left, get_peers-get_connections_of}
use state_channels.Common.Texts.{has_text, OccursOnce}
use state_channels.Manager.Prune.Bound.{on_connect-le-max}
use state_channels.Manager.Prune.Proofs.{IsResolving, Pruned, prune_connections-Pruned}
use state_channels.Manager.Prune.Order.{sorted_connections-GivenUpBefore, GivenUpBefore}

abbrev connection : String → String → ℕ → Connection
connection i p t = record {
  id = i;
  remote_peer = p;
  public_key = none;
  direction = inbound;
  opened = t;
}

abbrev first : Connection
first = connection "c1" "peer-a" 10

abbrev second : Connection
second = connection "c2" "peer-b" 20

abbrev tags : String → List ℕ
tags p = if text.Mathlib.Text.◌==◌ p "peer-a" then 50 ∷ 7 ∷ [] else []

abbrev peer_store : PeerStore
peer_store = record { tag_values = tags; sets_key = λ p. true; gets_tags = λ p. true }

resolving : IsResolving peer_store
resolving p = (refl, refl)

-- Each connection ends twice, first by the event of the upgrader and then by the call of the prune.
twice : List Connection → List Connection
twice [] = []
twice (c ∷ cs) = c ∷ c ∷ twice cs

mem-twice : (cs : List Connection) (c : Connection) → Mem c cs → Mem c (twice cs)
unfolding twice
mem-twice [] c m = m
mem-twice (d ∷ cs) c m =
    Or.elim Mem-prop (mem-cons.0 m)
      (λ e. subst (λ x. Mem x (d ∷ d ∷ twice cs)) (sym e) mem-cons_self)
      (λ n. mem-cons_of_mem d (mem-cons_of_mem d (mem-twice cs c n)))

mem-of_twice : (cs : List Connection) (c : Connection) → Mem c (twice cs) → Mem c cs
unfolding twice
mem-of_twice [] c m = m
mem-of_twice (d ∷ cs) c m =
    let here = λ (e : c ≡ d). subst (λ x. Mem x (d ∷ cs)) (sym e) mem-cons_self in
    Or.elim Mem-prop (mem-cons.0 m) here
      (λ n. Or.elim Mem-prop (mem-cons.0 n) here (λ k. mem-cons_of_mem d (mem-of_twice cs c k)))

abbrev closing : Closing
closing = record { ends = twice; called = mem-twice; only_closed = mem-of_twice }

abbrev manager : StringMap (List Connection) → Manager
manager m = record {
  opts = record {
    max_connections = finite 1;
    min_connections = 0;
    max_event_loop_delay = infinite;
    max_incoming_pending_connections = 10;
  };
  connections = m;
  started = true;
  allow = "/ip4/10." ∷ [];
  deny = [];
  incoming_pending_connections = pos 0;
}

abbrev one : StringMap (List Connection)
one = ("peer-a", first ∷ []) ∷ []

first_ne_second : Differs second first
first_ne_second s = text_ne "c2" "c1" refl s.1

one-IsTracking : IsTracking one
unfolding concat
one-IsTracking = record {
  keyed = (tt, tt);
  owned = ((omega arith, (refl, tt)), tt);
  distinct = Pairwise.cons (λ d m. absurd (not-mem-nil m)) Pairwise.nil;
}

second-Fresh : Fresh second one
unfolding concat
second-Fresh d m =
    Or.elim (Differs-prop second d) (mem-cons.0 m)
      (λ e. subst (Differs second) (sym e) first_ne_second) (λ n. absurd (not-mem-nil n))

on_connect-le-max_example :
    let m = (on_connect peer_store closing (manager one) second).0 in
    (length (get_connections m) ≤ 1) × IsTracking m.connections
on_connect-le-max_example =
    on_connect-le-max peer_store closing (manager one) second 1 one-IsTracking second-Fresh refl
      resolving refl

first-Tracked : Tracked first one
first-Tracked = (first ∷ [], StringMap.get_here "peer-a" "peer-a" (first ∷ []) [] refl, inl refl)

get_connections-on_disconnect_example :
    get_connections (on_disconnect (manager one) first).0
    ≡ others first (get_connections (manager one))
get_connections-on_disconnect_example =
    get_connections-on_disconnect (manager one) first one-IsTracking refl first-Tracked

abbrev both : StringMap (List Connection)
both = store one second

prune_connections-Pruned_example :
    let (m, _) = prune_connections peer_store closing (manager both) 1 in
    Pruned peer_store closing (manager both) 1 (sorted_connections tags (manager both)) m
prune_connections-Pruned_example =
    prune_connections-Pruned peer_store closing (manager both) 1
      (store-IsTracking one second one-IsTracking second-Fresh) refl resolving (omega arith)

sorted_connections-GivenUpBefore_example :
    let cs = sorted_connections tags (manager both) in
    All (λ c. All (GivenUpBefore tags c) (drop 1 cs)) (take 1 cs)
sorted_connections-GivenUpBefore_example = sorted_connections-GivenUpBefore tags (manager both) 1

-- A limiter that counts down what is left for all hosts together.
abbrev consume : String → ℕ → ℕ × Bool
consume h zero = (zero, false)
consume h (suc n) = (n, true)

abbrev remote : RemoteAddr
remote = record { text = "/ip4/1.2.3.4/tcp/1"; is_thin_waist = true; host = "1.2.3.4" }

abbrev inside : RemoteAddr
inside = record { text = "/ip4/10.0.0.1/tcp/1"; is_thin_waist = true; host = "10.0.0.1" }

accept_incoming_connection_iff_example :
    ((accept_incoming_connection consume (manager []) remote 5).0 ≡ true)
    ↔ Admissible consume (manager []) remote 5
accept_incoming_connection_iff_example =
    accept_incoming_connection_iff consume (manager []) remote 5

one_arrives :
    Reach consume (manager []) (accept_incoming_connection consume (manager []) inside 5).1 1
unfolding accept_incoming_connection
one_arrives = arrives inside 5 none_yet refl

Reach-Counts_example :
    Counts consume (manager []) (accept_incoming_connection consume (manager []) inside 5).1 1
Reach-Counts_example = Reach-Counts consume refl one_arrives

abbrev unlisted : Manager
unlisted = record (manager []) { allow = [] }

abbrev sibling : Connection
sibling = connection "c3" "peer-a" 30

first_in_two :
    StringMap.get "peer-a" (("peer-a", first ∷ sibling ∷ []) ∷ []) ≡ some (first ∷ sibling ∷ [])
first_in_two = StringMap.get_here "peer-a" "peer-a" (first ∷ sibling ∷ []) [] refl

on_disconnect_twice_example :
    let m = manager (("peer-a", first ∷ sibling ∷ []) ∷ []) in
    let r = on_disconnect (on_disconnect m first).0 first in
    (StringMap.get "peer-a" r.0.connections ≡ none) × (r.1 ≡ peer_disconnect first ∷ [])
on_disconnect_twice_example =
    on_disconnect_twice (manager (("peer-a", first ∷ sibling ∷ []) ∷ [])) first sibling (tt, tt)
      refl first_in_two (text_ne "c1" "c3" refl)

abbrev dialler : AutoDialler
dialler = record { enabled = true; min_connections = 2; running = true; timer = false }

-- A dial that succeeds and tracks the connection.
abbrev dial_peer : AutoDialler → Manager → Peer → AutoDialler × Manager
dial_peer d m p = (d, record m { connections = store m.connections (connection p.id p.id 40) })

abbrev known : List Peer
known =
    (record { id = "peer-a"; protocols = 2; has_public_key = true })
    ∷ (record { id = "peer-c"; protocols = 1; has_public_key = false })
    ∷ []

auto_dial-All_example : All (IsMade 2 "me") (auto_dial dial_peer "me" known dialler (manager one)).0
auto_dial-All_example = auto_dial-All dial_peer "me" known dialler (manager one)

abbrev opening_and_end : List Op
opening_and_end = ended first ∷ opened second ∷ []

get_connections-on_disconnect_at :
    concat (on_disconnect (manager one) first).0.connections ≡ others first (concat one)
get_connections-on_disconnect_at =
    get_connections-on_disconnect (manager one) first one-IsTracking refl first-Tracked

nothing-Fresh : Fresh second (on_disconnect (manager one) first).0.connections
nothing-Fresh d m =
    second-Fresh d (
      ((mem-filter (λ c. differs? c first)).0 (subst (Mem d) get_connections-on_disconnect_at m)).0)

perform_all-Spec_example :
    Spec 1
      (bag_of (first ∷ []))
      opening_and_end
      (bag_of (get_connections (perform_all peer_store closing (manager one) opening_and_end)))
unfolding concat
perform_all-Spec_example =
    perform_all-Spec peer_store closing opening_and_end (manager one) 1 one-IsTracking refl
      resolving refl (tt, (nothing-Fresh, tt))

get_peers-get_connections_of_example :
    ((p : String)
      → has_text p (get_peers (manager one))
        ≡ not (is_none_left (get_connections_of (manager one) p)))
    × OccursOnce (get_peers (manager one))
get_peers-get_connections_of_example = get_peers-get_connections_of (manager one) one-IsTracking
