-- ===== src/TransportManager/Stopping.antt =====
-- What `stop` and `removeAll` close.
use mathlib.Core.List.{Perm, reverse_perm}
use mathlib.Core.List.Perm
use state_channels.Common.{◌≡◌, refl, ap, ◌∙◌, List, [], ◌∷◌, map, flat_map, String, arith}
use state_channels.Common.StringMap
use state_channels.Common.StringMap.{StringMap}
use state_channels.TransportManager.{
  TransportManager, Transport, close, empty_each, closing, stop, remove, remove_each, remove_all,
  get_addrs,
}

module _ {M : Type 0} where
  flat_map-empty_each :
      (addrs_of : M → List M) (l : StringMap (List M))
      → flat_map (flat_map addrs_of) (StringMap.values (empty_each l)) ≡ []
  flat_map-empty_each addrs_of [] = refl
  flat_map-empty_each addrs_of ((k, x) ∷ l) = flat_map-empty_each addrs_of l

  closing-perm :
      (l : StringMap (List M)) → Perm (closing l) (flat_map (λ x. x) (StringMap.values l))
  closing-perm [] = Perm.nil
  closing-perm ((k, x) ∷ l) = Perm.append (reverse_perm x) (closing-perm l)

module _ {M C : Type 0} where
  -- `stop` closes every listener exactly once, and afterwards `getAddrs` is empty.
  pub stop_lem :
      (addrs_of : M → List M) (m : TransportManager M C)
      → Perm (stop m).1 (map close (flat_map (λ x. x) (StringMap.values m.listeners)))
        × (get_addrs addrs_of (stop m).0 ≡ [])
  unfolding stop get_addrs
  stop_lem addrs_of m =
      (Perm.map close (closing-perm m.listeners), flat_map-empty_each addrs_of m.listeners)

  delete_first :
      (k : String) (t : Transport M C) (ts : StringMap (Transport M C))
      → StringMap.delete k ((k, t) ∷ ts) ≡ ts
  unfolding StringMap.delete
  delete_first k t ts = ground arith

  remove_each-keys :
      (ts : StringMap (Transport M C)) (m : TransportManager M C)
      → m.transports ≡ ts
      → (remove_each (StringMap.keys ts) m).0.transports ≡ []
  unfolding remove_each remove
  remove_each-keys [] m e = e
  remove_each-keys ((k, t) ∷ ts) m e =
      remove_each-keys ts _ (ap (StringMap.delete k) e ∙ delete_first k t ts)

  -- `removeAll` leaves no transport.
  pub remove_all-transports : (m : TransportManager M C) → (remove_all m).0.transports ≡ []
  unfolding remove_all
  remove_all-transports m = remove_each-keys m.transports m refl
