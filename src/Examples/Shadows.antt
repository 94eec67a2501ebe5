-- ===== src/Examples/Shadows.antt =====
-- The shadow with two attributes: reports and pushes.
use java_iotwrap.Common.{
  ◌<◌, ◌≡◌, ◌⊎◌, refl, true, [], ◌∷◌, ◌++◌, none, some, Succeeds, arith, Bytes, codes, pos, length,
  same, strncpy,
}
use java_iotwrap.StdMap.{find}
use java_iotwrap.Shadow.{int32, string, new_shadow}
use java_iotwrap.Shadow.Value.{int32_bytes, read_int32, atoi, store_text}
use java_iotwrap.Shadow.Report.{do_add_property, do_report_property}
use java_iotwrap.Shadow.Push.{push_properties}
use java_iotwrap.Shadow.PushLaws.{PushedOnce, IsCleared, push_properties_lem}
use java_iotwrap.Shadow.ReportLaws.{
  IsReported, do_report_property-string, do_report_property-int32, do_report_property_overflow,
}
use java_iotwrap.Shadow.Preserved
use java_iotwrap.Shadow.Kept.{IsValid}
use java_iotwrap.Shadow.Preserved.{Reach-MapIsValid}
use java_iotwrap.Examples.Data.{
  temp, label, names_sdk, all_memory, temp_entry, label_entry, demo_shadow,
}

Reach-MapIsValid_example :
    IsValid
      (push_properties
        (names_sdk true)
        (do_add_property
          (names_sdk true)
          all_memory
          (new_shadow all_memory true)
          (some temp)
          (pos 1)
          (pos 4)).0).0
Reach-MapIsValid_example = Reach-MapIsValid (names_sdk true) (
    Preserved.Reach.next
      (Preserved.Reach.next (Preserved.Reach.start all_memory true)
        (Preserved.Step.adds all_memory (some temp) (pos 1) (pos 4)))
      Preserved.Step.pushes)

label_found : find label demo_shadow.attrs ≡ some label_entry
unfolding find same
label_found = refl

temp_found : find temp demo_shadow.attrs ≡ some temp_entry
unfolding find same
temp_found = refl

abbrev hello : Bytes
hello = codes "hello"

do_report_property-string_example :
    Succeeds
      (IsReported
        (names_sdk true)
        demo_shadow
        label
        label_entry
        (codes "by" ++ codes "llo" ++ 0 ∷ 0 ∷ 0 ∷ 0 ∷ 0 ∷ []))
      (do_report_property (names_sdk true) demo_shadow (some label) (some (codes "by")))
do_report_property-string_example =
    do_report_property-string (names_sdk true) demo_shadow label (codes "by")
      (hello ++ 0 ∷ 0 ∷ 0 ∷ 0 ∷ 0 ∷ []) label_entry label_found refl refl (omega arith)

atoi_runs : atoi (codes " -2") ≡ some 4294967294
unfolding atoi
atoi_runs = refl

do_report_property-int32_example :
    Succeeds
      (IsReported (names_sdk true) demo_shadow temp temp_entry (int32_bytes 4294967294 ++ []))
      (do_report_property (names_sdk true) demo_shadow (some temp) (some (codes " -2")))
    × (read_int32 (int32_bytes 4294967294 ++ []) ≡ some 4294967294)
do_report_property-int32_example =
    do_report_property-int32 (names_sdk true) demo_shadow temp (codes " -2") (7 ∷ 0 ∷ 0 ∷ 0 ∷ [])
      temp_entry 4294967294 temp_found refl refl atoi_runs (omega arith) (omega arith)

abbrev too_long : Bytes
too_long = codes "too long for it"

overflow_runs : do_report_property (names_sdk true) demo_shadow (some label) (some too_long) ≡ none
unfolding do_report_property store_text find same strncpy
overflow_runs = refl

do_report_property_overflow_example :
    ((p : Bytes)
      → label_entry.attr.attr_type ≡ string
      → label_entry.attr.mem ≡ some p
      → length p < length too_long
      → do_report_property (names_sdk true) demo_shadow (some label) (some too_long) ≡ none)
    × ((p : Bytes)
        → label_entry.attr.attr_type ≡ int32
        → label_entry.attr.mem ≡ some p
        → length p < 4
        → do_report_property (names_sdk true) demo_shadow (some label) (some too_long) ≡ none)
    × (label_entry.attr.mem ≡ none
        → (label_entry.attr.attr_type ≡ int32) ⊎ (label_entry.attr.attr_type ≡ string)
        → do_report_property (names_sdk true) demo_shadow (some label) (some too_long) ≡ none)
do_report_property_overflow_example =
    do_report_property_overflow (names_sdk true) demo_shadow label too_long label_entry label_found

push_properties_lem_example :
    PushedOnce
      (names_sdk true)
      demo_shadow
      (label_entry.attr ∷ [])
      (push_properties (names_sdk true) demo_shadow)
    × IsCleared (names_sdk true) demo_shadow (push_properties (names_sdk true) demo_shadow).0
push_properties_lem_example = push_properties_lem (names_sdk true) demo_shadow refl
