-- ===== src/Shadow/MemoryLaws.antt =====
-- The attributes of jni/server/IOT_DeviceShadow.cpp own their blocks: none is leaked or freed twice.
use java_iotwrap.Common.{
  ℕ, ◌+◌, ◌≡◌, refl, inl, inr, true, false, List, [], ◌∷◌, ◌++◌, Option, none, some, ◌==◌, Bytes,
  Succeeds, Succeeds-bind, Succeeds-mono, Bool-cases, Option-cases, arith,
}
use java_iotwrap.StdMap.{StdMap, find, insert}
use java_iotwrap.Heap.{Heap, calloc, free, free_if}
use java_iotwrap.Heap.Tables.{table_blocks, IsOwned-first, IsOwned-insert}
use java_iotwrap.Heap.Owned.{
  count, count-append, own, free_if-IsOwned, IsOwned, IsOwned-same, same_live, calloc-IsOwned,
  free-IsOwned,
}
use java_iotwrap.Shadow.{Alloc, local_report_period}
use java_iotwrap.Shadow.Memory.{
  Blocks, Memory, new_blocks, del_blocks, add_blocks, add_all_blocks, del_all_blocks, lifetime,
}

abbrev blocks_of : Blocks → List ℕ
blocks_of b = own b.name ++ (own b.value ++ (b.attr ∷ []))

abbrev made : Option Blocks → List ℕ
made none = []
made (some b) = blocks_of b

two_owned :
    (a p n : ℕ) (xs : List ℕ)
    → (n == 0) ≡ false
    → count a (blocks_of (record { attr = p; name = n; value = 0 }) ++ xs) ≡ count a (n ∷ p ∷ xs)
two_owned a p n xs e = rw e refl

three_owned :
    (a p n d : ℕ) (xs : List ℕ)
    → (n == 0) ≡ false
    → (d == 0) ≡ false
    → count a (blocks_of (record { attr = p; name = n; value = d }) ++ xs)
      ≡ count a (d ∷ n ∷ p ∷ xs)
three_owned a p n d xs e f = rw (e, f) (ground arith)

new_blocks-IsOwned :
    (m : Alloc) (xs : List ℕ) (h : Heap)
    → IsOwned xs h
    → Succeeds (λ ((h', o) : Heap × Option Blocks). IsOwned (made o ++ xs) h') (new_blocks m h)
unfolding new_blocks calloc
new_blocks-IsOwned m xs h o = elim (Bool-cases m.gives_attr) [
  | inr a ↦ rw a o
  | inl a ↦
      let p : (h.next == 0) ≡ false = ground (arith, o.2) in
      let o1 : IsOwned (h.next ∷ xs) (calloc true h).0 = calloc-IsOwned xs h o in
      elim (Bool-cases m.gives_name) [
        | inr b ↦
            rw (a, p, b)
              (Succeeds-bind (IsOwned xs) _ (free h.next (calloc true h).0) _ (λ h' o'. o')
                (free-IsOwned h.next xs (calloc true h).0 o1))
        | inl b ↦
            let n : (h.next + 1 == 0) ≡ false = ground arith in
            let o2 = calloc-IsOwned (h.next ∷ xs) (calloc true h).0 o1 in
            elim (Bool-cases m.gives_data) [
              | inr d ↦
                  rw (a, p, b, n, d)
                    (IsOwned-same ((h.next + 1) ∷ h.next ∷ xs) _ _
                      (λ c. two_owned c h.next (h.next + 1) xs n) o2)
              | inl d ↦
                  let e : (h.next + 1 + 1 == 0) ≡ false = ground arith in
                  rw (a, p, b, n, d)
                    (IsOwned-same ((h.next + 1 + 1) ∷ (h.next + 1) ∷ h.next ∷ xs) _ _
                      (λ c. three_owned c h.next (h.next + 1) (h.next + 1 + 1) xs n e)
                      (calloc-IsOwned ((h.next + 1) ∷ h.next ∷ xs) _ o2))
            ]
      ]
]

-- Blocks in front of others in another grouping.
regroup :
    (b : Blocks) (xs : List ℕ) (a : ℕ)
    → count a (own b.name ++ (own b.value ++ (b.attr ∷ xs))) ≡ count a (blocks_of b ++ xs)
regroup b xs a = ground (
  arith,
  count-append a (own b.name) (own b.value ++ (b.attr ∷ xs)),
  count-append a (own b.value) (b.attr ∷ xs),
  count-append a (blocks_of b) xs,
  count-append a (own b.name) (own b.value ++ (b.attr ∷ [])),
  count-append a (own b.value) (b.attr ∷ []),
)

del_blocks-IsOwned :
    (b : Blocks) (xs : List ℕ) (h : Heap)
    → IsOwned (blocks_of b ++ xs) h
    → Succeeds (IsOwned xs) (del_blocks b h)
unfolding del_blocks
del_blocks-IsOwned b xs h o =
    Succeeds-bind (IsOwned (own b.value ++ (b.attr ∷ xs))) _ (free_if b.name h) _
      (λ h1 o1.
        Succeeds-bind (IsOwned (b.attr ∷ xs)) _ (free_if b.value h1) _
          (λ h2 o2. free-IsOwned b.attr xs h2 o2) (free_if-IsOwned b.value (b.attr ∷ xs) h1 o1))
      (free_if-IsOwned b.name (own b.value ++ (b.attr ∷ xs)) h
        (IsOwned-same (blocks_of b ++ xs) _ h (regroup b xs) o))

-- The map owns the blocks of its attributes, besides those of others.
abbrev Owns : List ℕ → Memory → Type 0
Owns xs s = IsOwned (table_blocks blocks_of s.table ++ xs) s.heap

add_blocks-Owns :
    (m : Alloc) (key : Bytes) (xs : List ℕ) (s : Memory)
    → Owns xs s
    → Succeeds (Owns xs) (add_blocks m key s)
unfolding add_blocks
add_blocks-Owns m key xs s o = elim (Option-cases (find key s.table)) [
  | inr (b, q) ↦ rw (q, add_blocks) o
  | inl q ↦
      rw (q, add_blocks)
        (Succeeds-bind
          (λ ((h, b) : Heap × Option Blocks).
            IsOwned (made b ++ (table_blocks blocks_of s.table ++ xs)) h)
          _ (new_blocks m s.heap) _ (λ (h, b) k. put b h k q)
          (new_blocks-IsOwned m (table_blocks blocks_of s.table ++ xs) s.heap o))
]
  where
    put :
        (b : Option Blocks) (h : Heap)
        → IsOwned (made b ++ (table_blocks blocks_of s.table ++ xs)) h
        → find key s.table ≡ none
        → Succeeds (Owns xs) (elim b [
          | none ↦ some (record s { heap = h })
          | some b' ↦ some (record { heap = h; table = insert key b' s.table })
        ])
    put none h k q = k
    put (some b) h k q = IsOwned-insert blocks_of key b s.table xs h q k

add_all_blocks-Owns :
    (adds : List (Alloc × Bytes)) (xs : List ℕ) (s : Memory)
    → Owns xs s
    → Succeeds (Owns xs) (add_all_blocks adds s)
unfolding add_all_blocks
add_all_blocks-Owns [] xs s o = o
add_all_blocks-Owns ((m, key) ∷ rest) xs s o =
    Succeeds-bind (Owns xs) _ (add_blocks m key s) _ (λ s' o'. add_all_blocks-Owns rest xs s' o')
      (add_blocks-Owns m key xs s o)

del_all_blocks-IsOwned :
    (t : StdMap Blocks) (xs : List ℕ) (h : Heap)
    → IsOwned (table_blocks blocks_of t ++ xs) h
    → Succeeds (IsOwned xs) (del_all_blocks t h)
unfolding del_all_blocks
del_all_blocks-IsOwned [] xs h o = o
del_all_blocks-IsOwned ((k, b) ∷ t) xs h o =
    Succeeds-bind (IsOwned (table_blocks blocks_of t ++ xs)) _ (del_blocks b h) _
      (λ h' o'. del_all_blocks-IsOwned t xs h' o')
      (del_blocks-IsOwned b (table_blocks blocks_of t ++ xs) h
        (IsOwned-first blocks_of k b t xs h o))

-- On a heap whose allocated blocks are owned, each once: the constructor of the shadow, any additions
-- of properties, of names that are there or not, with any calls of calloc failing, and the destructor free no block
-- that is not allocated, and leave exactly the blocks allocated that were before.
pub lifetime_lem :
    (m : Alloc) (adds : List (Alloc × Bytes)) (xs : List ℕ) (h : Heap)
    → IsOwned xs h
    → Succeeds (λ (h' : Heap). (a : ℕ) → h'.live a ≡ h.live a) (lifetime m adds h)
unfolding lifetime
lifetime_lem m adds xs h o =
    Succeeds-bind (Owns xs) _ (add_all_blocks ((m, local_report_period) ∷ adds) _) _
      (λ s k.
        Succeeds-mono (IsOwned xs) _ (del_all_blocks s.table s.heap)
          (λ h' p a. same_live xs h h' o p a) (del_all_blocks-IsOwned s.table xs s.heap k))
      (add_all_blocks-Owns ((m, local_report_period) ∷ adds) xs (record { heap = h; table = [] }) o)
