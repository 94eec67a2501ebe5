-- ===== src/Examples/Heaps.antt =====
-- The blocks of a shadow with a property that is added twice, one that finds no memory for its name,
-- and one without memory for its value; and the vectors of a service.
use java_iotwrap.Common.{ℕ, ◌≡◌, true, false, [], ◌∷◌, Succeeds, none, some}
use java_iotwrap.Heap.{Heap, empty_heap, calloc}
use java_iotwrap.Heap.Owned.{empty-IsOwned, calloc-IsOwned}
use java_iotwrap.Service.{follow_property, follow_command}
use java_iotwrap.Service.Memory.{service_lifetime, service_lifetime_lem}
use java_iotwrap.Shadow.{Alloc}
use java_iotwrap.Shadow.Memory.{lifetime}
use java_iotwrap.Shadow.MemoryLaws.{lifetime_lem}
use java_iotwrap.Examples.Data.{temp, label, reset, all_memory}

-- Block 1 belongs to someone else.
abbrev heap : Heap
heap = (calloc true empty_heap).0

abbrev no_name : Alloc
no_name = record { gives_attr = true; gives_name = false; gives_data = true }

abbrev no_value : Alloc
no_value = record { gives_attr = true; gives_name = true; gives_data = false }

lifetime_lem_example :
    Succeeds
      (λ (h : Heap). (a : ℕ) → h.live a ≡ heap.live a)
      (lifetime all_memory
        ((all_memory, temp) ∷ (all_memory, temp) ∷ (no_name, label) ∷ (no_value, reset) ∷ [])
        heap)
lifetime_lem_example =
    lifetime_lem all_memory
      ((all_memory, temp) ∷ (all_memory, temp) ∷ (no_name, label) ∷ (no_value, reset) ∷ []) (1 ∷ [])
      heap (calloc-IsOwned [] empty_heap empty-IsOwned)

service_lifetime_lem_example :
    Succeeds
      (λ (h : Heap). (a : ℕ) → h.live a ≡ heap.live a)
      (service_lifetime
        ((follow_property, some temp)
          ∷ (follow_command, some temp)
          ∷ (follow_property, none)
          ∷ (follow_property, some temp)
          ∷ [])
        heap)
service_lifetime_lem_example =
    service_lifetime_lem
      ((follow_property, some temp)
        ∷ (follow_command, some temp)
        ∷ (follow_property, none)
        ∷ (follow_property, some temp)
        ∷ [])
      (1 ∷ []) heap (calloc-IsOwned [] empty_heap empty-IsOwned)
