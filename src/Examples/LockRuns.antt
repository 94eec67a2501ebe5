-- ===== src/Examples/LockRuns.antt =====
-- The shadow's thread in updateProperties and a binder thread, and a `get` that reports a property.
use java_iotwrap.Common.{◌≡◌, ◌≢◌, ◌≤◌, ◌<◌, ◌↔◌, refl, inl, true, List, [], ◌∷◌}
use java_iotwrap.Service.Calls.{Call, property_get, command_callback}
use java_iotwrap.Locks.{
  Action, Request, follows, adds, reports, Operation, requests, tells, updates, Thread, is_free,
  Acts, here, Run, done, act, starting, starting_all, remaining,
}
use java_iotwrap.Locks.Order.{quiet}
use java_iotwrap.Locks.Progress.{operations_end}
use java_iotwrap.Locks.Reentry.{first_todo, reentry_blocks}
use java_iotwrap.Examples.Data.{temp, reset}

abbrev asked : Call
asked = property_get 21 temp

abbrev jobs : List (List Operation)
jobs =
    (updates ((asked ∷ []) ∷ []) ∷ tells (command_callback 12 reset reset ∷ []) ∷ [])
    ∷ (requests follows ∷ requests adds ∷ [])
    ∷ []

-- The first thread with m_lockAttrs.
abbrev updating : List Thread → List Thread
updating [] = []
updating (t ∷ ts) = record t { attrs = true; todo = rest t.todo } ∷ ts
  where
    rest : List Action → List Action
    rest [] = []
    rest (a ∷ r) = r

first_step : Run 1 (starting_all quiet jobs) (updating (starting_all quiet jobs))
first_step = act (done (starting_all quiet jobs)) (here _ refl)

operations_end_example :
    (1 ≤ remaining (starting_all quiet jobs))
    × (1 ≡ remaining (starting_all quiet jobs) ↔ remaining (updating (starting_all quiet jobs)) ≡ 0)
    × (1 < remaining (starting_all quiet jobs)
        → (us : List Thread) × Acts
            (is_free (updating (starting_all quiet jobs)))
            (updating (starting_all quiet jobs))
            us)
operations_end_example = operations_end jobs first_step

-- A client's `get` that reports a property.
abbrev reporting : Call → List Request
reporting x = reports ∷ []

abbrev refreshing : List Operation
refreshing = updates ((asked ∷ []) ∷ []) ∷ []

reentry_blocks_example : first_todo (updating (starting reporting refreshing ∷ [])) ≢ []
reentry_blocks_example =
    reentry_blocks reporting refreshing (updates ((asked ∷ []) ∷ [])) [] (inl refl)
      (asked ∷ [], inl refl, (asked, inl refl, (reports, inl refl)))
      (act (done (starting reporting refreshing ∷ [])) (here _ refl))
