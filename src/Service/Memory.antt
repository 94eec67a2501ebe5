-- ===== src/Service/Memory.antt =====
-- The vectors of followers of jni/server/IOT_Service.cpp on the heap: `new` in addFollowing, and the
-- destructor of IOTService. A table gives the address of each vector, 0 for NULL.
use java_iotwrap.Common.{
  ℕ, ◌≡◌, refl, inl, inr, true, false, List, [], ◌∷◌, ◌++◌, Option, none, some, ◌>>=◌, ◌==◌, Bytes,
  Succeeds, Succeeds-bind, Succeeds-mono, Option-cases, arith,
}
use java_iotwrap.StdMap.{StdMap, find, insert}
use java_iotwrap.Heap.{Heap, calloc, free_if}
use java_iotwrap.Heap.Owned.{
  count-append, own, IsOwned, IsOwned-same, same_live, calloc-IsOwned, free_if-IsOwned,
}
use java_iotwrap.Heap.Tables.{table_blocks, IsOwned-first, IsOwned-insert}
use java_iotwrap.Service.{FollowType, follow_property, follow_command, follow_other}

pub record Tables : Type 0 where
  pub heap : Heap
  pub keys : StdMap ℕ
  pub commands : StdMap ℕ

-- A case of addFollowing's switch: `new` throws where there is no memory.
unfoldable new_vector : Bytes → StdMap ℕ → Heap → Heap × StdMap ℕ
unfolding calloc
new_vector key t h = elim (find key t) [
  | some p ↦ (h, t)
  | none ↦ let (h', p) = calloc true h in (h', insert key p t)
]

-- addFollowing, as far as the vectors' blocks go.
unfoldable add_vector : FollowType → Option Bytes → Tables → Tables
unfolding new_vector
add_vector type none s = s
add_vector follow_property (some key) s =
    let (h, t) = new_vector key s.keys s.heap in record s { heap = h; keys = t }
add_vector follow_command (some key) s =
    let (h, t) = new_vector key s.commands s.heap in record s { heap = h; commands = t }
add_vector follow_other (some key) s = s

unfoldable add_all_vectors : List (FollowType × Option Bytes) → Tables → Tables
unfolding add_vector
add_all_vectors [] s = s
add_all_vectors ((type, key) ∷ rest) s = add_all_vectors rest (add_vector type key s)

-- A loop of IOTService::~IOTService.
unfoldable delete_vectors : StdMap ℕ → Heap → Option Heap
unfolding free_if
delete_vectors [] h = some h
delete_vectors ((k, p) ∷ t) h = free_if p h >>= delete_vectors t

-- The constructor, any calls of addFollowing, and the destructor.
unfoldable pub service_lifetime : List (FollowType × Option Bytes) → Heap → Option Heap
unfolding add_all_vectors delete_vectors
service_lifetime adds h =
    let s = add_all_vectors adds (record { heap = h; keys = []; commands = [] }) in
    delete_vectors s.keys s.heap >>= delete_vectors s.commands

-- Both tables own their vectors, besides the blocks of others.
abbrev Owns : List ℕ → Tables → Type 0
Owns xs s = IsOwned (table_blocks own s.keys ++ (table_blocks own s.commands ++ xs)) s.heap

new_vector-IsOwned :
    (key : Bytes) (t : StdMap ℕ) (xs : List ℕ) (h : Heap)
    → IsOwned (table_blocks own t ++ xs) h
    → IsOwned (table_blocks own (new_vector key t h).1 ++ xs) (new_vector key t h).0
unfolding new_vector calloc
new_vector-IsOwned key t xs h o = elim (Option-cases (find key t)) [
  | inr (p, q) ↦ rw (q, new_vector) o
  | inl q ↦
      let e : (h.next == 0) ≡ false = ground (arith, o.2) in
      rw (q, new_vector)
        (IsOwned-insert own key h.next t xs (calloc true h).0 q (
          IsOwned-same (h.next ∷ (table_blocks own t ++ xs)) _ (calloc true h).0 (λ a. rw e refl)
            (calloc-IsOwned (table_blocks own t ++ xs) h o)))
]

-- The two tables in the other order.
swapped :
    (xs ys zs : List ℕ) (h : Heap) → IsOwned (xs ++ (ys ++ zs)) h → IsOwned (ys ++ (xs ++ zs)) h
swapped xs ys zs h = IsOwned-same (xs ++ (ys ++ zs)) (ys ++ (xs ++ zs)) h (λ a. ground (
  arith,
  count-append a xs (ys ++ zs),
  count-append a ys (xs ++ zs),
  count-append a xs zs,
  count-append a ys zs,
))

add_vector-Owns :
    (type : FollowType) (key : Option Bytes) (xs : List ℕ) (s : Tables)
    → Owns xs s
    → Owns xs (add_vector type key s)
unfolding add_vector
add_vector-Owns type none xs s o = o
add_vector-Owns follow_property (some key) xs s o =
    new_vector-IsOwned key s.keys (table_blocks own s.commands ++ xs) s.heap o
add_vector-Owns follow_command (some key) xs s o =
    let made = new_vector key s.commands s.heap in
    swapped (table_blocks own made.1) (table_blocks own s.keys) xs made.0 (
      new_vector-IsOwned key s.commands (table_blocks own s.keys ++ xs) s.heap
        (swapped (table_blocks own s.keys) (table_blocks own s.commands) xs s.heap o))
add_vector-Owns follow_other (some key) xs s o = o

add_all_vectors-Owns :
    (adds : List (FollowType × Option Bytes)) (xs : List ℕ) (s : Tables)
    → Owns xs s
    → Owns xs (add_all_vectors adds s)
unfolding add_all_vectors
add_all_vectors-Owns [] xs s o = o
add_all_vectors-Owns ((type, key) ∷ rest) xs s o =
    add_all_vectors-Owns rest xs (add_vector type key s) (add_vector-Owns type key xs s o)

delete_vectors-IsOwned :
    (t : StdMap ℕ) (xs : List ℕ) (h : Heap)
    → IsOwned (table_blocks own t ++ xs) h
    → Succeeds (IsOwned xs) (delete_vectors t h)
unfolding delete_vectors
delete_vectors-IsOwned [] xs h o = o
delete_vectors-IsOwned ((k, p) ∷ t) xs h o =
    Succeeds-bind (IsOwned (table_blocks own t ++ xs)) _ (free_if p h) _
      (λ h' o'. delete_vectors-IsOwned t xs h' o')
      (free_if-IsOwned p (table_blocks own t ++ xs) h (IsOwned-first own k p t xs h o))

-- On a heap whose allocated blocks are owned, each once: the constructor of the service, any calls of
-- addFollowing and the destructor delete no vector twice, and leave exactly the blocks allocated that
-- were before.
pub service_lifetime_lem :
    (adds : List (FollowType × Option Bytes)) (xs : List ℕ) (h : Heap)
    → IsOwned xs h
    → Succeeds (λ (h' : Heap). (a : ℕ) → h'.live a ≡ h.live a) (service_lifetime adds h)
unfolding service_lifetime
service_lifetime_lem adds xs h o =
    let s = add_all_vectors adds (record { heap = h; keys = []; commands = [] }) in
    Succeeds-bind (IsOwned (table_blocks own s.commands ++ xs)) _ (delete_vectors s.keys s.heap) _
      (λ h1 o1.
        Succeeds-mono (IsOwned xs) _ (delete_vectors s.commands h1)
          (λ h2 o2. same_live xs h h2 o o2) (delete_vectors-IsOwned s.commands xs h1 o1))
      (delete_vectors-IsOwned s.keys (table_blocks own s.commands ++ xs) s.heap
        (add_all_vectors-Owns adds xs (record { heap = h; keys = []; commands = [] }) o))
