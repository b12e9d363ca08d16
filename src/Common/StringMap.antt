-- ===== src/Common/StringMap.antt =====
-- A JavaScript `Map` with string keys, as the source uses it: an association list in insertion
-- order. `set` overwrites in place, and a new key goes to the end.
use Prim.Native.String.{String}
use mathlib.Core.Path.{◌≡◌, refl}
use mathlib.Core.Bool.{Bool, true, false}
use mathlib.Core.List.{List, [], ◌∷◌, map}
use mathlib.Core.Logic.{ite, ◌≢◌}
use mathlib.Core.Option.{Option, none, some}
use native.Mathlib.Omega.{arith}
use state_channels.Common.Tests.{str_dec}
use state_channels.Common.Lists.{All}

abbrev pub StringMap {ℓ} : Type ℓ → Type ℓ
StringMap V = List (String × V)

module _ {ℓ} {V : Type ℓ} where
  unfoldable pub get : String → StringMap V → Option V
  get k [] = none
  get k ((j, v) ∷ m) = ite (str_dec j k) (some v) (get k m)

  unfoldable pub set : String → V → StringMap V → StringMap V
  set k v [] = (k, v) ∷ []
  set k v ((j, w) ∷ m) = ite (str_dec j k) ((k, v) ∷ m) ((j, w) ∷ set k v m)

  unfoldable pub delete : String → StringMap V → StringMap V
  delete k [] = []
  delete k ((j, w) ∷ m) = ite (str_dec j k) m ((j, w) ∷ delete k m)

  abbrev pub is_some : Option V → Bool
  is_some none = false
  is_some (some v) = true

  unfoldable pub has : String → StringMap V → Bool
  unfolding get
  has k m = is_some (get k m)

  abbrev pub keys : StringMap V → List String
  keys = map (λ e. e.0)

  abbrev pub values : StringMap V → List V
  values = map (λ e. e.1)

  -- No entry has the key.
  abbrev pub Absent : String → StringMap V → Type 0
  Absent k [] = Unit {0}
  Absent k (e ∷ m) = (e.0 ≢ k) × Absent k m

  abbrev pub HasDistinctKeys : StringMap V → Type 0
  HasDistinctKeys [] = Unit {0}
  HasDistinctKeys (e ∷ m) = Absent e.0 m × HasDistinctKeys m

  -- What the first entry does.
  pub get_here : (k j : String) (v : V) (m : StringMap V) → j ≡ k → get k ((j, v) ∷ m) ≡ some v
  unfolding get
  get_here k j v m e = ground arith

  pub get_there : (k j : String) (v : V) (m : StringMap V) → j ≢ k → get k ((j, v) ∷ m) ≡ get k m
  unfolding get
  get_there k j v m n = ground arith

  pub set_here :
      (k j : String) (v w : V) (m : StringMap V) → j ≡ k → set k v ((j, w) ∷ m) ≡ (k, v) ∷ m
  unfolding set
  set_here k j v w m e = ground arith

  pub set_there :
      (k j : String) (v w : V) (m : StringMap V) → j ≢ k → set k v ((j, w) ∷ m) ≡ (j, w) ∷ set k v m
  unfolding set
  set_there k j v w m n = ground arith

  pub get-set :
      (k j : String) (v : V) (m : StringMap V)
      → get j (set k v m) ≡ ite (str_dec k j) (some v) (get j m)
  unfolding get set
  get-set k j v [] = refl
  get-set k j v ((i, w) ∷ m) = ground (arith, get-set k j v m)

  pub get-set_self : (k : String) (v : V) (m : StringMap V) → get k (set k v m) ≡ some v
  get-set_self k v m = ground (arith, get-set k k v m)

  pub get_of_Absent : (k : String) (m : StringMap V) → Absent k m → get k m ≡ none
  unfolding get
  get_of_Absent k [] h = refl
  get_of_Absent k ((j, w) ∷ m) h = ground (arith, get_of_Absent k m h.1)

  pub Absent-of_get : (k : String) (m : StringMap V) → get k m ≡ none → Absent k m
  unfolding get
  Absent-of_get k [] h = tt
  Absent-of_get k ((j, w) ∷ m) h = ground (arith, Absent-of_get k m)

  pub get-delete :
      (k j : String) (m : StringMap V)
      → HasDistinctKeys m
      → get j (delete k m) ≡ ite (str_dec k j) none (get j m)
  unfolding get delete
  get-delete k j [] h = ground arith
  get-delete k j ((i, w) ∷ m) h = ground (arith, get-delete k j m h.1, get_of_Absent i m h.0)

  pub get-delete_self :
      (k : String) (m : StringMap V) → HasDistinctKeys m → get k (delete k m) ≡ none
  get-delete_self k m h = ground (arith, get-delete k k m h)

  Absent-set : (k j : String) (v : V) (m : StringMap V) → k ≢ j → Absent j m → Absent j (set k v m)
  unfolding set
  Absent-set k j v [] h a = (h, tt)
  Absent-set k j v ((i, w) ∷ m) h a = ground (arith, Absent-set k j v m h a.1)

  Absent-delete : (k j : String) (m : StringMap V) → Absent j m → Absent j (delete k m)
  unfolding delete
  Absent-delete k j [] a = tt
  Absent-delete k j ((i, w) ∷ m) a = ground (arith, Absent-delete k j m a.1)

  pub set-HasDistinctKeys :
      (k : String) (v : V) (m : StringMap V) → HasDistinctKeys m → HasDistinctKeys (set k v m)
  unfolding set
  set-HasDistinctKeys k v [] h = (tt, tt)
  set-HasDistinctKeys k v ((i, w) ∷ m) h =
      ground (arith, set-HasDistinctKeys k v m h.1, λ (n : k ≢ i). Absent-set k i v m n h.0)

  pub delete-HasDistinctKeys :
      (k : String) (m : StringMap V) → HasDistinctKeys m → HasDistinctKeys (delete k m)
  unfolding delete
  delete-HasDistinctKeys k [] h = tt
  delete-HasDistinctKeys k ((i, w) ∷ m) h =
      ground (arith, delete-HasDistinctKeys k m h.1, Absent-delete k i m h.0)

  pub delete_of_get-none : (k : String) (m : StringMap V) → get k m ≡ none → delete k m ≡ m
  unfolding get delete
  delete_of_get-none k [] h = refl
  delete_of_get-none k ((i, w) ∷ m) h = ground (arith, delete_of_get-none k m)

module _ {ℓ} {V : Type ℓ} where
  -- A key that was not there before it was set is deleted again.
  pub delete-set :
      (k : String) (v : V) (m : StringMap V) → get k m ≡ none → delete k (set k v m) ≡ m
  unfolding get set delete
  delete-set k v [] h = ground arith
  delete-set k v ((j, w) ∷ m) h = ground (arith, delete-set k v m)

module _ {ℓ κ} {V : Type ℓ} (P : String → V → Type κ) where
  -- A property of every entry.
  abbrev pub Entries : StringMap V → Type κ
  Entries = All (λ e. P e.0 e.1)

  pub Entries-get : (k : String) (m : StringMap V) (v : V) → Entries m → get k m ≡ some v → P k v
  unfolding get
  Entries-get k [] v h e = cc
  Entries-get k ((j, w) ∷ m) v h e = ground (arith, Entries-get k m v h.1)

  pub Entries-set : (k : String) (v : V) (m : StringMap V) → P k v → Entries m → Entries (set k v m)
  unfolding set
  Entries-set k v [] p h = (p, tt)
  Entries-set k v ((j, w) ∷ m) p h = ground (arith, Entries-set k v m p h.1)

  pub Entries-delete : (k : String) (m : StringMap V) → Entries m → Entries (delete k m)
  unfolding delete
  Entries-delete k [] h = tt
  Entries-delete k ((j, w) ∷ m) h = ground (arith, Entries-delete k m h.1)
