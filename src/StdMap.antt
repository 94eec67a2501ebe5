-- ===== src/StdMap.antt =====
-- `std::map<std::string, V>` as the sources use it: find, insert, iteration in key order, and
-- writes through an iterator.
pub mod Laws
use java_iotwrap.Common.{
  ℕ, ◌≡◌, refl, Bool, true, false, ◌&&◌, ◌||◌, List, [], ◌∷◌, Option, none, some, arith, ltb, ◌==◌,
  if◌then◌else◌, Bytes, same, same_iff,
}

-- `std::less<std::string>`: bytes in lexicographic order.
unfoldable pub before : Bytes → Bytes → Bool
before [] [] = false
before [] (y ∷ ys) = true
before (x ∷ xs) [] = false
before (x ∷ xs) (y ∷ ys) = ltb x y || ((x == y) && before xs ys)

-- The entries in the order of iteration.
abbrev pub StdMap {ℓ} : Type ℓ → Type ℓ
StdMap V = List (Bytes × V)

module _ {ℓ} {V : Type ℓ} where
  unfoldable pub find : Bytes → StdMap V → Option V
  find k [] = none
  find k ((j, v) ∷ m) = if same k j then some v else find k m

  -- A key that is there keeps its value.
  unfoldable pub insert : Bytes → V → StdMap V → StdMap V
  insert k v [] = (k, v) ∷ []
  insert k v ((j, w) ∷ m) =
      if same k j
      then (j, w) ∷ m
      else if before k j
      then (k, v) ∷ (j, w) ∷ m
      else (j, w) ∷ insert k v m

  -- `it->second = f(it->second)` at the entry that `find` gives.
  unfoldable pub modify : Bytes → (V → V) → StdMap V → StdMap V
  modify k f [] = []
  modify k f ((j, v) ∷ m) = if same k j then (j, f v) ∷ m else (j, v) ∷ modify k f m
