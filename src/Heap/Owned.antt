-- ===== src/Heap/Owned.antt =====
-- Who owns the blocks of the heap: each allocated block stands once in a list of owned blocks, and
-- nothing else stands there.
use java_iotwrap.Common.{
  ℕ, ◌+◌, ◌≤◌, ◌<◌, ◌≡◌, refl, inl, inr, Bool, true, false, List, [], ◌∷◌, ◌++◌, ◌==◌,
  if◌then◌else◌, Succeeds, ◌∙◌, Bool-cases, arith,
}
use java_iotwrap.Heap.{Heap, empty_heap, calloc, free, free_if}

abbrev pub count : ℕ → List ℕ → ℕ
count a [] = 0
count a (x ∷ xs) = if a == x then count a xs + 1 else count a xs

abbrev as_count : Bool → ℕ
as_count b = if b then 1 else 0

as_count-injective : (b c : Bool) → as_count b ≡ as_count c → b ≡ c
as_count-injective b c h = ground arith

abbrev pub IsOwned : List ℕ → Heap → Type 0
IsOwned xs h =
    ((a : ℕ) → count a xs ≡ as_count (h.live a))
    × ((a : ℕ) → h.next ≤ a → h.live a ≡ false)
    × (0 < h.next)
    × (h.live 0 ≡ false)

pub empty-IsOwned : IsOwned [] empty_heap
empty-IsOwned = ((λ a. refl), (λ a n. refl), omega arith, refl)

-- Another list of the same blocks.
pub IsOwned-same :
    (xs ys : List ℕ) (h : Heap) → ((a : ℕ) → count a ys ≡ count a xs) → IsOwned xs h → IsOwned ys h
IsOwned-same xs ys h e (c, f, p, z) = ((λ a. e a ∙ c a), f, p, z)

pub calloc-IsOwned :
    (xs : List ℕ) (h : Heap) → IsOwned xs h → IsOwned (h.next ∷ xs) (calloc true h).0
unfolding calloc
calloc-IsOwned xs h (c, f, p, z) = (
  (λ a. ground (arith, c a, f a)),
  (λ a n. ground (arith, f a, n)),
  omega (arith, p),
  ground (arith, p, z),
)

pub free-IsOwned :
    (x : ℕ) (xs : List ℕ) (h : Heap) → IsOwned (x ∷ xs) h → Succeeds (IsOwned xs) (free x h)
unfolding free
free-IsOwned x xs h (c, f, p, z) =
    let here : h.live x ≡ true = ground (arith, c x) in
    rw here ((λ a. ground (arith, c a, c x)), (λ a n. ground (arith, f a n)), p, ground (arith, z))

-- The owned blocks are the allocated ones.
pub same_live :
    (xs : List ℕ) (h h' : Heap) → IsOwned xs h → IsOwned xs h' → (a : ℕ) → h'.live a ≡ h.live a
same_live xs h h' o o' a = as_count-injective (h'.live a) (h.live a) (ground (arith, o.0 a, o'.0 a))

-- The block at an address, if it is not NULL.
abbrev pub own : ℕ → List ℕ
own p = if p == 0 then [] else p ∷ []

pub free_if-IsOwned :
    (p : ℕ) (xs : List ℕ) (h : Heap) → IsOwned (own p ++ xs) h → Succeeds (IsOwned xs) (free_if p h)
unfolding free_if
free_if-IsOwned p xs h o = elim (Bool-cases (p == 0)) [
  | inl z ↦ rw z (rw z at o)
  | inr z ↦ rw z (free-IsOwned p xs h (rw z at o))
]

pub count-append : (a : ℕ) (xs ys : List ℕ) → count a (xs ++ ys) ≡ count a xs + count a ys
count-append a [] ys = omega arith
count-append a (x ∷ xs) ys = ground (arith, count-append a xs ys)
