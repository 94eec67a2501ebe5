-- ===== src/Examples/Rounds.antt =====
-- The shadow with two attributes: what is asked of the clients, told to them, and done by the thread.
use java_iotwrap.Common.{
  ◌<◌, ◌≡◌, ◌≢◌, ◌↔◌, refl, true, List, [], ◌∷◌, none, some, ◌>>=◌, Succeeds, arith, codes, pos,
  length, Has, same, not, ◌++◌, c_str, if◌then◌else◌,
}
use java_iotwrap.StdMap.{find}
use java_iotwrap.Service.{add_target}
use java_iotwrap.Service.Calls.{Call, property_set}
use java_iotwrap.Service.Session.{client_follow_property}
use java_iotwrap.Service.Follow.{followers}
use java_iotwrap.Service.Delivery.{SetCall}
use java_iotwrap.Shadow.{int32, DsAttr, Shadow}
use java_iotwrap.Shadow.Value.{read_int32, atoi}
use java_iotwrap.Shadow.Update.{Refreshed, refresh}
use java_iotwrap.Shadow.Refresh.{Marked, refresh_int32}
use java_iotwrap.Shadow.RefreshText.{refresh_string}
use java_iotwrap.Shadow.Subclass.{shadow_backend}
use java_iotwrap.Shadow.Journey.{follow_property_lem, attr_changed_lem}
use java_iotwrap.Shadow.Cloud.{attr_changed, attr_value_max_len}
use java_iotwrap.Examples.Data.{
  temp, label, demo, demo-IsValid, replies, names_sdk, demo_hal, all_memory, temp_entry,
  label_entry, demo_shadow,
}

-- An INT32 attribute under the key that only client 2 follows.
abbrev count_entry : DsAttr
count_entry = record temp_entry { attr = record temp_entry.attr { name = label } }

refresh_int32_example :
    Succeeds
      (λ ((e', changed, calls) : Refreshed).
        ((e'.attr.mem >>= read_int32) ≡ some 12) × Marked count_entry (e', changed, calls))
      (refresh replies demo count_entry)
unfolding find same atoi
refresh_int32_example =
    refresh_int32 replies demo count_entry (7 ∷ 0 ∷ 0 ∷ 0 ∷ []) (codes "12") 2 12 refl refl refl
      (omega arith) refl (λ e. omega (arith, e)) refl (ground arith) (omega arith) (omega arith)
      refl (omega arith)

-- The attribute "label" holds "hello"; client 2 answers 12, and the end of the old text stays.
refresh_string_example :
    Succeeds
      (λ ((e', changed, calls) : Refreshed).
        (e'.attr.mem
          ≡ some (
              if same (codes "hello") (codes "12")
              then codes "hello" ++ 0 ∷ 0 ∷ 0 ∷ 0 ∷ 0 ∷ []
              else codes "12" ++ codes "llo" ++ 0 ∷ 0 ∷ 0 ∷ 0 ∷ 0 ∷ []))
        × (e'.report ≡ (if same (codes "hello") (codes "12") then label_entry.report else true))
        × (changed ≡ not (same (codes "hello") (codes "12"))))
      (refresh replies demo label_entry)
unfolding find same c_str
refresh_string_example =
    refresh_string replies demo label_entry (codes "hello" ++ 0 ∷ 0 ∷ 0 ∷ 0 ∷ 0 ∷ [])
      (codes "hello") (codes "12") 2 refl refl refl refl (omega arith) refl (λ e. omega (arith, e))
      refl (ground arith) (omega arith) (omega arith)

follow_property_lem_example :
    let (d', ret) =
      client_follow_property
        (shadow_backend (names_sdk true) all_memory)
        demo_shadow
        1
        label
        (pos 1)
        (pos 4) in
    (ret ≡ pos 0)
    × (followers label d'.service.key_follow ≡ add_target 1 (followers label demo.key_follow))
    × (find label d'.attrs ≢ none)
follow_property_lem_example =
    follow_property_lem (names_sdk true) all_memory demo_shadow 1 label (pos 1) (pos 4) int32 4
      demo-IsValid refl refl (refl, refl, refl)

-- Client 2 follows both properties; its callback is 22. This "%d" prints 7.
temp_followed : find temp demo.key_follow ≢ none
unfolding find same
temp_followed e = cc

temp_known : find temp demo_shadow.attrs ≡ some temp_entry
unfolding find same
temp_known = refl

attr_changed_lem_example :
    let value = demo_hal.print_int32 attr_value_max_len 513 in
    (length value < attr_value_max_len)
    × Succeeds
        (λ ((d', calls) : Shadow × List Call).
          (d'.force_report ≡ true)
          × (Has (property_set 22 temp value) calls
              ↔ SetCall demo temp value
                  (followers temp demo.key_follow)
                  (property_set 22 temp value)))
        (attr_changed demo_hal demo_shadow temp (1 ∷ 2 ∷ 0 ∷ 0 ∷ []))
unfolding read_int32
attr_changed_lem_example =
    attr_changed_lem demo_hal demo_shadow temp (1 ∷ 2 ∷ 0 ∷ 0 ∷ [])
      (demo_hal.print_int32 attr_value_max_len 513) int32 temp_entry
      (property_set 22 temp (demo_hal.print_int32 attr_value_max_len 513)) demo-IsValid temp_known
      refl refl refl temp_followed (513, refl, refl)
