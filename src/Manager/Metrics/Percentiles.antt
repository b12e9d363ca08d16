-- ===== src/Manager/Metrics/Percentiles.antt =====
-- What the metrics count.
use mathlib.Core.List.{filter}
use mathlib.Core.List.Perm
use native.Mathlib.Decide.{dec_le}
use state_channels.Common.{
  ℕ, zero, suc, ◌+◌, ◌*◌, ◌/◌, ◌≤◌, ◌<◌, ◌≡◌, refl, ap, subst, ◌∙◌, false, some, List, [], ◌∷◌,
  String, ite, str_dec, if_pos, All, length, length-perm, ltb-false, eq_of_some, none_ne_some,
  arith,
}
use state_channels.Common.StringMap
use state_channels.Common.StringMap.{StringMap}
use state_channels.Common.Sort.{sort, sort-perm, sort-IsSorted, IsSorted, IsComparison}
use state_channels.Manager.{or_default, Manager, Connection, get_connections}
use state_channels.Manager.Metrics.{
  count_key, count_keys, all_streams, protocol_streams_total, nth, greater, percentile,
}

-- How often a text occurs.
abbrev pub occurrences : String → List String → ℕ
occurrences k [] = 0
occurrences k (j ∷ js) = ite (str_dec j k) 1 0 + occurrences k js

get-count_keys :
    (m : StringMap ℕ) (ks : List String) (k : String)
    → or_default (StringMap.get k (count_keys m ks)) 0
      ≡ or_default (StringMap.get k m) 0 + occurrences k ks
get-count_keys m [] k = omega arith
get-count_keys m (j ∷ ks) k = ground (
  arith,
  get-count_keys (count_key m j) ks k,
  StringMap.get-set j k (or_default (StringMap.get j m) 0 + 1) m,
)

-- The total of a key is the number of streams of all connections that have this key.
pub protocol_streams_total_lem :
    (streams : Connection → List String) (m : Manager) (k : String)
    → or_default (StringMap.get k (protocol_streams_total streams m)) 0
      ≡ occurrences k (all_streams streams (get_connections m))
unfolding protocol_streams_total
protocol_streams_total_lem streams m k =
    get-count_keys [] (all_streams streams (get_connections m)) k
    ∙ ground (arith, StringMap.get_of_Absent {V = ℕ} k [] tt)

greater-IsComparison : IsComparison greater
greater-IsComparison = record {
  asym = λ x y h. ground (arith, h);
  trans = λ x y z h k. ground (arith, h, k);
}

-- How many are at most `v`.
abbrev pub at_most : ℕ → List ℕ → ℕ
at_most v xs = length (filter (λ x. dec_le x v) xs)

nth-All : (P : ℕ → Type 0) (xs : List ℕ) (k v : ℕ) → All P xs → nth xs k ≡ some v → P v
nth-All P [] k v a h = absurd (none_ne_some h)
nth-All P (x ∷ xs) zero v (p, a) h = subst P (eq_of_some h) p
nth-All P (x ∷ xs) (suc k) v (p, a) h = nth-All P xs k v a h

at_most-cons : (v x : ℕ) (xs : List ℕ) → x ≤ v → at_most v (x ∷ xs) ≡ suc (at_most v xs)
at_most-cons v x xs h = ap length (if_pos (dec_le x v) h _ _)

nth-at_most :
    (xs : List ℕ) (k v : ℕ) → IsSorted greater xs → nth xs k ≡ some v → suc k ≤ at_most v xs
nth-at_most [] k v s h = absurd (none_ne_some h)
nth-at_most (x ∷ xs) zero v (a, s) h =
    omega (arith, at_most-cons v x xs (ground (arith, eq_of_some h)))
nth-at_most (x ∷ xs) (suc k) v (a, s) h = omega (
  arith,
  at_most-cons v x xs (ltb-false _ _ (nth-All (λ y. greater x y ≡ false) xs k v a h)),
  nth-at_most xs k v s h,
)

nth-some : (xs : List ℕ) (k : ℕ) → k < length xs → (v : ℕ) × (nth xs k ≡ some v)
nth-some [] k h = absurd (omega (arith, h))
nth-some (x ∷ xs) zero h = (x, refl)
nth-some (x ∷ xs) (suc k) h = nth-some xs k (omega (arith, h))

-- The 90th percentile of a list that is not empty is there, and more than nine tenths of the list are at most it.
pub percentile-at_most :
    (xs : List ℕ)
    → 0 < length xs
    → (v : ℕ) × ((percentile xs ≡ some v) × (length xs * 9 < at_most v xs * 10))
unfolding percentile
percentile-at_most xs h =
    let l = length-perm (sort-perm greater xs) in
    let k = length xs * 9 / 10 in
    let (v, e) = nth-some (sort greater xs) k (omega (arith, l, h)) in
    let b = nth-at_most (sort greater xs) k v (sort-IsSorted greater greater-IsComparison xs) e in
    let p = length-perm (Perm.filter (λ x. dec_le x v) (sort-perm greater xs)) in
    (v, (e, omega (arith, b, p)))
