-- ===== src/Manager/Tracking.antt =====
-- What `onDisconnect` and `_onConnect` do to the connections that are tracked.
use mathlib.Core.List.{filter, filter-append, Pairwise}
use state_channels.Common.{
  ℕ, suc, ◌<◌, String, ◌≡◌, refl, ◌≢◌, true, some, List, [], ◌∷◌, ltb, length, str_dec, All, ◌⊎◌,
  arith, ◌∙◌,
}
use state_channels.Common.StringMap
use state_channels.Common.StringMap.{StringMap, Entries, HasDistinctKeys, Absent}
use state_channels.Manager.{
  Manager, Connection, concat, get_connections, on_disconnect, without, drop_stored,
}

-- One and the same connection: the peer's list is searched by id.
abbrev pub Same : Connection → Connection → Type 0
Same c d = (c.remote_peer ≡ d.remote_peer) × (c.id ≡ d.id)

abbrev pub Differs : Connection → Connection → Type 0
Differs c d = ¬ Same c d

unfoldable pub differs? : (c d : Connection) → Dec (Differs c d)
differs? c d = elim (str_dec c.remote_peer d.remote_peer) [
  | yes p ↦ elim (str_dec c.id d.id) [ yes q ↦ no (λ n. n (p, q)) | no q ↦ yes (λ s. q s.1) ]
  | no p ↦ yes (λ s. p s.0)
]

-- The list with one connection taken out.
abbrev pub others : Connection → List Connection → List Connection
others c = filter (λ d. differs? d c)

-- What holds of an entry of the map: the list is not empty and belongs to its key.
abbrev pub Owned : String → List Connection → Type 0
Owned p cs = (0 < length cs) × All (λ (c : Connection). c.remote_peer ≡ p) cs

pub record IsTracking (m : StringMap (List Connection)) : Type 0 where
  pub keyed : HasDistinctKeys m
  pub owned : Entries Owned m
  pub distinct : Pairwise Differs (concat m)

others-foreign :
    (c : Connection) (p : String) (cs : List Connection)
    → p ≢ c.remote_peer
    → All (λ (d : Connection). d.remote_peer ≡ p) cs
    → others c cs ≡ cs
unfolding differs?
others-foreign c p [] h a = refl
others-foreign c p (d ∷ cs) h a = ground (arith, others-foreign c p cs h a.1)

others-own :
    (c : Connection) (p : String) (cs : List Connection)
    → p ≡ c.remote_peer
    → All (λ (d : Connection). d.remote_peer ≡ p) cs
    → others c cs ≡ without c.id cs
unfolding differs? without
others-own c p [] h a = refl
others-own c p (d ∷ cs) h a = ground (arith, others-own c p cs h a.1)

pub others-Absent :
    (c : Connection) (m : StringMap (List Connection))
    → Absent c.remote_peer m
    → Entries Owned m
    → others c (concat m) ≡ concat m
unfolding concat
others-Absent c [] a o = refl
others-Absent c ((p, cs) ∷ m) a o =
    filter-append (λ d. differs? d c) cs (concat m)
    ∙ rw (others-foreign c p cs a.0 o.0.1, others-Absent c m a.1 o.1) refl

-- Overwriting the peer's list by the list without the connection removes exactly that one.
pub concat-set-without :
    (c : Connection) (m : StringMap (List Connection)) (cs : List Connection)
    → HasDistinctKeys m
    → Entries Owned m
    → StringMap.get c.remote_peer m ≡ some cs
    → concat (StringMap.set c.remote_peer (without c.id cs) m) ≡ others c (concat m)
unfolding concat StringMap.get StringMap.set
concat-set-without c [] cs k o e = cc
concat-set-without c ((p, ds) ∷ m) cs k o e = ground (
  arith,
  filter-append (λ d. differs? d c) ds (concat m),
  others-own c p ds,
  others-foreign c p ds,
  λ (q : p ≡ c.remote_peer). others-Absent c m (rw q at k.0),
  concat-set-without c m cs k.1 o.1,
)

-- So does deleting the peer's entry, where the list held that connection alone.
concat-delete_single :
    (c d : Connection) (m : StringMap (List Connection))
    → HasDistinctKeys m
    → Entries Owned m
    → StringMap.get c.remote_peer m ≡ some (d ∷ [])
    → d.id ≡ c.id
    → concat (StringMap.delete c.remote_peer m) ≡ others c (concat m)
unfolding without concat StringMap.get StringMap.delete
concat-delete_single c d [] k o e h = cc
concat-delete_single c d ((p, ds) ∷ m) k o e h = ground (
  arith,
  filter-append (λ d. differs? d c) ds (concat m),
  others-own c p ds,
  others-foreign c p ds,
  λ (q : p ≡ c.remote_peer). others-Absent c m (rw q at k.0),
  concat-delete_single c d m k.1 o.1,
)

-- Some connection of the list has the id.
abbrev pub HasId : String → List Connection → Type 0
HasId i [] = ⊥
HasId i (c ∷ cs) = (c.id ≡ i) ⊎ HasId i cs

-- The list of the connection's peer holds it.
abbrev pub Tracked : Connection → StringMap (List Connection) → Type 0
Tracked c m = (cs : List Connection) × (StringMap.get c.remote_peer m ≡ some cs) × HasId c.id cs

pub two_lt : (n : ℕ) → ltb 1 (suc (suc n)) ≡ true
two_lt n = ground arith

drop_stored-concat :
    (m : Manager) (c : Connection) (cs : List Connection)
    → IsTracking m.connections
    → StringMap.get c.remote_peer m.connections ≡ some cs
    → HasId c.id cs
    → get_connections (drop_stored m c (some cs)).0 ≡ others c (get_connections m)
unfolding drop_stored
drop_stored-concat m c [] t e h = elim h [ ]
drop_stored-concat m c (d ∷ []) t e h =
    concat-delete_single c d m.connections t.keyed t.owned e (ground arith)
drop_stored-concat m c (d ∷ d' ∷ cs) t e h =
    rw (two_lt (length cs)) (concat-set-without c m.connections (d ∷ d' ∷ cs) t.keyed t.owned e)

-- In a started manager with a consistent map, `onDisconnect` of a connection that is tracked
-- takes out that connection, and leaves all others in their order.
pub get_connections-on_disconnect :
    (m : Manager) (c : Connection)
    → IsTracking m.connections
    → m.started ≡ true
    → Tracked c m.connections
    → get_connections (on_disconnect m c).0 ≡ others c (get_connections m)
unfolding on_disconnect
get_connections-on_disconnect m c t s (cs, e, h) =
    let gone = drop_stored-concat m c cs t e h in ground (arith, gone)
