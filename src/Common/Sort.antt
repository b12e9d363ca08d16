-- ===== src/Common/Sort.antt =====
-- `Array.prototype.sort`, which is stable: `after a b` says that the comparison of `a` with `b` is
-- positive.
use mathlib.Core.Path.{◌≡◌}
use mathlib.Core.Bool.{Bool, true, false}
use mathlib.Core.List.{List, [], ◌∷◌, ◌++◌, Perm}
use mathlib.Core.List.Perm
use native.Mathlib.Omega.{arith}
use state_channels.Common.Tests.{if◌then◌else◌, Bool-cases}
use state_channels.Common.Lists.{All, All-append_right}
use mathlib.Core.Logic.{inl, inr}

module _ {A : Type 0} (after : A → A → Bool) where
  unfoldable pub insert : A → List A → List A
  insert x [] = x ∷ []
  insert x (y ∷ ys) = if after x y then y ∷ insert x ys else x ∷ y ∷ ys

  unfoldable pub sort : List A → List A
  unfolding insert
  sort [] = []
  sort (x ∷ xs) = insert x (sort xs)

  insert-perm : (x : A) (ys : List A) → Perm (insert x ys) (x ∷ ys)
  unfolding insert
  insert-perm x [] = Perm.rfl
  insert-perm x (y ∷ ys) = elim (Bool-cases (after x y)) [
    | inl e ↦ rw e (Perm.trans (Perm.cons y (insert-perm x ys)) (Perm.swap x y ys))
    | inr e ↦ rw e Perm.rfl
  ]

  pub sort-perm : (xs : List A) → Perm (sort xs) xs
  unfolding sort
  sort-perm [] = Perm.nil
  sort-perm (x ∷ xs) = Perm.trans (insert-perm x (sort xs)) (Perm.cons x (sort-perm xs))

  insert-All : (P : A → Type 0) (x : A) (ys : List A) → P x → All P ys → All P (insert x ys)
  unfolding insert
  insert-All P x [] p h = (p, tt)
  insert-All P x (y ∷ ys) p h = ground (arith, insert-All P x ys p h.1)

  pub sort-All : (P : A → Type 0) (xs : List A) → All P xs → All P (sort xs)
  unfolding sort
  sort-All P [] h = tt
  sort-All P (x ∷ xs) h = insert-All P x (sort xs) h.0 (sort-All P xs h.1)

  -- No element stands before one that it is to follow.
  abbrev pub IsSorted : List A → Type 0
  IsSorted [] = Unit
  IsSorted (x ∷ xs) = All (λ y. after x y ≡ false) xs × IsSorted xs

  -- What makes a comparison function consistent.
  pub record IsComparison : Type 0 where
    pub asym : (x y : A) → after x y ≡ true → after y x ≡ false
    pub trans : (x y z : A) → after x y ≡ false → after y z ≡ false → after x z ≡ false

module _ {A : Type 0} (after : A → A → Bool) (c : IsComparison after) where
  below :
      (x y : A) (ys : List A)
      → after x y ≡ false
      → All (λ z. after y z ≡ false) ys
      → All (λ z. after x z ≡ false) ys
  below x y [] e h = tt
  below x y (z ∷ zs) e h = (c.trans x y z e h.0, below x y zs e h.1)

  insert-IsSorted : (x : A) (ys : List A) → IsSorted after ys → IsSorted after (insert after x ys)
  unfolding insert
  insert-IsSorted x [] h = (tt, tt)
  insert-IsSorted x (y ∷ ys) h = elim (Bool-cases (after x y)) [
    | inl e ↦ rw e (
      insert-All after (λ z. after y z ≡ false) x ys (c.asym x y e) h.0,
      insert-IsSorted x ys h.1,
    )
    | inr e ↦ rw e ((e, below x y ys e h.0), h)
  ]

  pub sort-IsSorted : (xs : List A) → IsSorted after (sort after xs)
  unfolding sort
  sort-IsSorted [] = tt
  sort-IsSorted (x ∷ xs) = insert-IsSorted x (sort after xs) (sort-IsSorted xs)

module _ {A : Type 0} (after : A → A → Bool) where
  -- Wherever a sorted list is cut, nothing before the cut is to follow anything behind it.
  pub IsSorted-append :
      (xs ys : List A) → IsSorted after (xs ++ ys) → All (λ x. All (λ y. after x y ≡ false) ys) xs
  IsSorted-append [] ys h = tt
  IsSorted-append (x ∷ xs) ys h = (All-append_right _ xs ys h.0, IsSorted-append xs ys h.1)
