-- ===== src/Shadow/Memory.antt =====
-- The blocks behind the attributes of jni/server/IOT_DeviceShadow.cpp: what _newProperty allocates,
-- _addProperty keeps, and _delProperty and the destructor free. The values are in Shadow; here an
-- attribute is the addresses of its three blocks.
use java_iotwrap.Common.{ℕ, List, [], ◌∷◌, Option, none, some, ◌>>=◌, ◌==◌, if◌then◌else◌, Bytes}
use java_iotwrap.StdMap.{StdMap, find, insert}
use java_iotwrap.Heap.{Heap, calloc, free, free_if}
use java_iotwrap.Shadow.{Alloc, local_report_period}

-- An iotx_shadow_attr_t, its pattr_name and its pattr_data.
pub record Blocks : Type 0 where
  pub attr : ℕ
  pub name : ℕ
  pub value : ℕ

pub record Memory : Type 0 where
  pub heap : Heap
  pub table : StdMap Blocks

-- DeviceShadow::_newProperty; the inner `none` is the NULL that it returns.
unfoldable pub new_blocks : Alloc → Heap → Option (Heap × Option Blocks)
unfolding calloc free
new_blocks m h =
    let (h1, p) = calloc m.gives_attr h in
    if p == 0
    then some (h1, none)
    else let (h2, n) = calloc m.gives_name h1 in
      if n == 0
      then (free p h2 >>= λ h3. some (h3, none))
      else let (h3, d) = calloc m.gives_data h2 in
        some (h3, some (record { attr = p; name = n; value = d }))

-- DeviceShadow::_delProperty; an attribute of the map is never NULL.
unfoldable pub del_blocks : Blocks → Heap → Option Heap
unfolding free_if
del_blocks b h = free_if b.name h >>= λ h1. free_if b.value h1 >>= λ h2. free b.attr h2

-- DeviceShadow::_addProperty.
unfoldable pub add_blocks : Alloc → Bytes → Memory → Option Memory
unfolding new_blocks
add_blocks m key s = elim (find key s.table) [
  | some b ↦ some s
  | none ↦ new_blocks m s.heap >>= λ (h, o). elim o [
    | none ↦ some (record s { heap = h })
    | some b ↦ some (record { heap = h; table = insert key b s.table })
  ]
]

unfoldable pub add_all_blocks : List (Alloc × Bytes) → Memory → Option Memory
unfolding add_blocks
add_all_blocks [] s = some s
add_all_blocks ((m, key) ∷ rest) s = add_blocks m key s >>= add_all_blocks rest

-- The loop of DeviceShadow::~DeviceShadow.
unfoldable pub del_all_blocks : StdMap Blocks → Heap → Option Heap
unfolding del_blocks
del_all_blocks [] h = some h
del_all_blocks ((k, b) ∷ t) h = del_blocks b h >>= del_all_blocks t

-- The constructor, any properties that are added, and the destructor.
unfoldable pub lifetime : Alloc → List (Alloc × Bytes) → Heap → Option Heap
unfolding add_all_blocks del_all_blocks
lifetime m adds h =
    add_all_blocks ((m, local_report_period) ∷ adds) (record { heap = h; table = [] }) >>= λ s.
    del_all_blocks s.table s.heap
