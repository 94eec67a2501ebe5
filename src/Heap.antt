-- ===== src/Heap.antt =====
-- The C heap as far as its blocks go: calloc, `new`, free and delete. An address is a number, 0 for
-- NULL; `live` tells the blocks that are allocated, and `next` is the next address to hand out.
pub mod Owned
pub mod Tables
use java_iotwrap.Common.{
  ℕ, ◌+◌, Bool, true, false, List, [], ◌∷◌, Option, none, some, ◌>>=◌, ◌==◌, if◌then◌else◌,
}

pub record Heap : Type 0 where
  pub next : ℕ
  pub live : ℕ → Bool

abbrev pub empty_heap : Heap
empty_heap = record { next = 1; live = λ a. false }

abbrev mark : (ℕ → Bool) → ℕ → Bool → ℕ → Bool
mark f p b a = if a == p then b else f a

-- calloc, with whether memory is given.
unfoldable pub calloc : Bool → Heap → Heap × ℕ
calloc gives h =
    if gives
    then (record h { next = h.next + 1; live = mark h.live h.next true }, h.next)
    else (h, 0)

-- free or delete of an address that is not NULL; `none` is a block that is not allocated.
unfoldable pub free : ℕ → Heap → Option Heap
free p h = if h.live p then some (record h { live = mark h.live p false }) else none

-- `if (p) free(p);`.
unfoldable pub free_if : ℕ → Heap → Option Heap
unfolding free
free_if p h = if p == 0 then some h else free p h
