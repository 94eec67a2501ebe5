-- ===== src/Heap/Tables.antt =====
-- A std::map whose entries own blocks of the heap.
use java_iotwrap.Common.{
  ℕ, ◌+◌, ◌≡◌, sym, ap, inl, inr, List, [], ◌∷◌, ◌++◌, append_assoc, none, some, Bytes, Bool-cases,
  same, arith,
}
use java_iotwrap.StdMap.{StdMap, before, find, insert}
use java_iotwrap.Heap.{Heap}
use java_iotwrap.Heap.Owned.{count, count-append, IsOwned, IsOwned-same}

module _ {V : Type 0} (blocks : V → List ℕ) where
  abbrev pub table_blocks : StdMap V → List ℕ
  table_blocks [] = []
  table_blocks ((k, v) ∷ t) = blocks v ++ table_blocks t

  count-insert :
      (a : ℕ) (k : Bytes) (b : V) (t : StdMap V)
      → find k t ≡ none
      → count a (table_blocks (insert k b t)) ≡ count a (blocks b) + count a (table_blocks t)
  unfolding find insert
  count-insert a k b [] n = count-append a (blocks b) []
  count-insert a k b ((j, w) ∷ t) n = elim (Bool-cases (same k j)) [
    | inl e ↦ let q : some w ≡ none = rw e at n in cc
    | inr e ↦ elim (Bool-cases (before k j)) [
      | inl u ↦ rw (e, u) (count-append a (blocks b) (table_blocks ((j, w) ∷ t)))
      | inr u ↦
          rw (e, u)
            (ground (
              arith,
              count-append a (blocks w) (table_blocks (insert k b t)),
              count-append a (blocks w) (table_blocks t),
              count-insert a k b t (rw e at n),
            ))
    ]
  ]

  -- A new entry that takes its blocks with it, and the blocks of the first entry.
  pub IsOwned-insert :
      (k : Bytes) (b : V) (t : StdMap V) (xs : List ℕ) (h : Heap)
      → find k t ≡ none
      → IsOwned (blocks b ++ (table_blocks t ++ xs)) h
      → IsOwned (table_blocks (insert k b t) ++ xs) h
  IsOwned-insert k b t xs h q =
      IsOwned-same (blocks b ++ (table_blocks t ++ xs)) (table_blocks (insert k b t) ++ xs) h (λ a.
        ground (
          arith,
          count-append a (table_blocks (insert k b t)) xs,
          count-append a (blocks b) (table_blocks t ++ xs),
          count-append a (table_blocks t) xs,
          count-insert a k b t q,
        ))

  pub IsOwned-first :
      (k : Bytes) (b : V) (t : StdMap V) (xs : List ℕ) (h : Heap)
      → IsOwned (table_blocks ((k, b) ∷ t) ++ xs) h
      → IsOwned (blocks b ++ (table_blocks t ++ xs)) h
  IsOwned-first k b t xs h =
      IsOwned-same (table_blocks ((k, b) ∷ t) ++ xs) (blocks b ++ (table_blocks t ++ xs)) h
        (λ a. ap (count a) (sym (append_assoc (blocks b) (table_blocks t) xs)))
