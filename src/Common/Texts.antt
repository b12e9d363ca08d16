-- ===== src/Common/Texts.antt =====
-- Lists of texts, and the `Set`s that the code makes of them.
use Prim.Native.String.{String}
use mathlib.Core.Path.{◌≡◌, refl}
use mathlib.Core.Bool.{Bool, true, false, not, ◌&&◌, ◌||◌}
use mathlib.Core.List.{List, [], ◌∷◌, ◌++◌}
use mathlib.Core.Logic.{ite}
use native.Mathlib.Omega.{arith}
use state_channels.Common.Tests.{str_dec, if◌then◌else◌}
use state_channels.Common.Lists.{any}

-- `texts.includes(p)`
abbrev pub has_text : String → List String → Bool
has_text p = any (λ q. ite (str_dec q p) true false)

-- `Array.from(new Set(…))`: the first of equal texts stays.
unfoldable pub unique : List String → List String → List String
unique seen [] = []
unique seen (p ∷ ps) =
    let rest = unique seen ps in
    let rest' = unique (p ∷ seen) ps in if has_text p seen then rest else p ∷ rest'

-- Each text occurs once.
abbrev pub OccursOnce : List String → Type 0
OccursOnce [] = Unit
OccursOnce (p ∷ ps) = (has_text p ps ≡ false) × OccursOnce ps

pub has_text-append :
    (q : String) (ps rs : List String) → has_text q (ps ++ rs) ≡ has_text q ps || has_text q rs
has_text-append q [] rs = refl
has_text-append q (p ∷ ps) rs = ground (arith, has_text-append q ps rs)

pub has_text-unique :
    (q : String) (seen ps : List String)
    → has_text q (unique seen ps) ≡ has_text q ps && not (has_text q seen)
unfolding unique
has_text-unique q seen [] = refl
has_text-unique q seen (p ∷ ps) =
    ground (arith, has_text-unique q seen ps, has_text-unique q (p ∷ seen) ps)

pub unique-OccursOnce : (seen ps : List String) → OccursOnce (unique seen ps)
unfolding unique
unique-OccursOnce seen [] = tt
unique-OccursOnce seen (p ∷ ps) = ground (
  arith,
  unique-OccursOnce seen ps,
  unique-OccursOnce (p ∷ seen) ps,
  has_text-unique p (p ∷ seen) ps,
)
