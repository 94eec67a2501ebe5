-- ===== src/StdMap/Laws.antt =====
-- What a lookup gives after a write, and that iteration meets the keys in strictly rising order.
use java_iotwrap.Common.{
  ◌≡◌, refl, true, false, [], ◌∷◌, none, some, arith, if◌then◌else◌, Bytes, same, same_iff,
}
use mathlib.Core.Option
use java_iotwrap.StdMap.{StdMap, before, find, insert, modify}

module _ {ℓ} {V : Type ℓ} where
  pub find-insert_new :
      (k j : Bytes) (v : V) (m : StdMap V)
      → find k m ≡ none
      → find j (insert k v m) ≡ (if same j k then some v else find j m)
  unfolding find insert
  find-insert_new k j v [] h = refl
  find-insert_new k j v ((i, w) ∷ m) h =
      ground (arith, same_iff j k, same_iff k i, same_iff j i, find-insert_new k j v m)

  pub find-modify :
      (k j : Bytes) (f : V → V) (m : StdMap V)
      → find j (modify k f m) ≡ (if same j k then Option.map f (find j m) else find j m)
  unfolding find modify
  find-modify k j f [] = ground arith
  find-modify k j f ((i, w) ∷ m) =
      ground (arith, same_iff j k, same_iff k i, same_iff j i, find-modify k j f m)

before_trans : (a b c : Bytes) → before a b ≡ true → before b c ≡ true → before a c ≡ true
unfolding before
before_trans [] [] c h k = cc
before_trans [] (y ∷ b) [] h k = cc
before_trans [] (y ∷ b) (z ∷ c) h k = refl
before_trans (x ∷ a) [] c h k = cc
before_trans (x ∷ a) (y ∷ b) [] h k = cc
before_trans (x ∷ a) (y ∷ b) (z ∷ c) h k = ground (arith, before_trans a b c)

-- Of two different keys one comes first.
before_total : (a b : Bytes) → same a b ≡ false → before a b ≡ false → before b a ≡ true
unfolding before same
before_total [] [] h k = cc
before_total [] (y ∷ b) h k = cc
before_total (x ∷ a) [] h k = refl
before_total (x ∷ a) (y ∷ b) h k = ground (arith, before_total a b)

before_irrefl : (a : Bytes) → before a a ≡ false
unfolding before
before_irrefl [] = refl
before_irrefl (x ∷ a) = ground (arith, before_irrefl a)

module _ {ℓ} {V : Type ℓ} where
  -- Every key of the map comes after `k`.
  abbrev pub After : Bytes → StdMap V → Type 0
  After k [] = Unit
  After k ((j, v) ∷ m) = (before k j ≡ true) × After k m

  -- The keys rise strictly.
  abbrev pub IsSorted : StdMap V → Type 0
  IsSorted [] = Unit
  IsSorted ((k, v) ∷ m) = After k m × IsSorted m

  After-trans : (a b : Bytes) (m : StdMap V) → before a b ≡ true → After b m → After a m
  After-trans a b [] h k = tt
  After-trans a b ((j, v) ∷ m) h k = (before_trans a b j h k.0, After-trans a b m h k.1)

  insert-After :
      (a k : Bytes) (v : V) (m : StdMap V) → before a k ≡ true → After a m → After a (insert k v m)
  unfolding insert
  insert-After a k v [] h r = (h, tt)
  insert-After a k v ((j, w) ∷ m) h r = ground (arith, insert-After a k v m)

  pub insert-IsSorted : (k : Bytes) (v : V) (m : StdMap V) → IsSorted m → IsSorted (insert k v m)
  unfolding insert
  insert-IsSorted k v [] h = (tt, tt)
  insert-IsSorted k v ((j, w) ∷ m) h =
      ground
        (arith, insert-IsSorted k v m, insert-After j k v m, After-trans k j m, before_total k j)

  modify-After : (a k : Bytes) (f : V → V) (m : StdMap V) → After a m → After a (modify k f m)
  unfolding modify
  modify-After a k f [] r = tt
  modify-After a k f ((j, w) ∷ m) r = ground (arith, modify-After a k f m)

  pub modify-IsSorted :
      (k : Bytes) (f : V → V) (m : StdMap V) → IsSorted m → IsSorted (modify k f m)
  unfolding modify
  modify-IsSorted k f [] h = tt
  modify-IsSorted k f ((j, w) ∷ m) h = ground (arith, modify-IsSorted k f m, modify-After j k f m)
