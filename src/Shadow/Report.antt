-- ===== src/Shadow/Report.antt =====
-- jni/server/IOT_DeviceShadow.cpp: doAddProperty, doReportEvent and doReportProperty, which the
-- clients' proxies call.
use java_iotwrap.Common.{
  ℕ, zero, suc, true, false, Option, none, some, ◌>>=◌, ◌==◌, if◌then◌else◌, Bytes, ℤ, pos,
  minus_one, is_zero,
}
use java_iotwrap.StdMap.{find, modify}
use java_iotwrap.Shadow.{
  AttrType, int32, string, other, Attr, default_property, register_attribute, push, event_report,
  Sdk, Shadow, Alloc, ask_sdk, add_entry, set_report,
}
use java_iotwrap.Shadow.Value.{store_text}

-- IOT_PROPERTY_INT32 is 1 and IOT_PROPERTY_STRING is 2; doAddProperty refuses any other type.
abbrev pub property_type : ℤ → Option AttrType
property_type (pos (suc zero)) = some int32
property_type (pos (suc (suc zero))) = some string
property_type _ = none

-- `size <= 0` refuses; otherwise the size as it goes to `calloc`.
abbrev pub positive_size : ℤ → Option ℕ
positive_size (pos (suc n)) = some (suc n)
positive_size _ = none

-- The call of IOT_Shadow_RegisterAttribute for an attribute that comes when the shadow is up.
unfoldable pub register_late : Sdk → Shadow × Option Attr → Shadow
unfolding ask_sdk
register_late sdk (d, none) = d
register_late sdk (d, some a) =
    if d.shadow == 0 then d else (ask_sdk sdk d (register_attribute d.shadow a.name)).0

-- DeviceShadow::doAddProperty.
unfoldable pub do_add_property : Sdk → Alloc → Shadow → Option Bytes → ℤ → ℤ → Shadow × ℤ
unfolding add_entry register_late
do_add_property sdk m d none type size = (d, minus_one)
do_add_property sdk m d (some name) type size = elim (positive_size size) [
  | none ↦ (d, minus_one)
  | some n ↦ elim (property_type type) [
    | none ↦ (d, minus_one)
    | some t ↦ (register_late sdk (add_entry m d name t n default_property false), pos 0)
  ]
]

-- DeviceShadow::doReportEvent.
unfoldable pub do_report_event : Sdk → Shadow → Option Bytes → ℕ → Shadow × ℤ
unfolding ask_sdk
do_report_event sdk d none size = (d, minus_one)
do_report_event sdk d (some msg) size =
    if size == 0 then (d, minus_one) else ask_sdk sdk d (event_report d.shadow msg size)

-- The text that is pushed for one attribute.
unfoldable pub urgent_payload : (sdk : Sdk) → ℕ → Attr → Bytes
urgent_payload sdk h a = sdk.payload (sdk.format_finalize (sdk.format_add (sdk.format_init h) a))

-- "for urgent property report": if the push succeeds the attribute is no longer due.
unfoldable pub urgent_report : Sdk → Shadow → Bytes → Attr → Shadow
unfolding ask_sdk urgent_payload
urgent_report sdk d key a =
    if d.shadow == 0
    then d
    else let (d', ret) = ask_sdk sdk d (push d.shadow (urgent_payload sdk d.shadow a)) in
      if is_zero ret then record d' { attrs = modify key (set_report false) d'.attrs } else d'

-- What follows once the value is stored.
unfoldable pub stored_report : Sdk → Shadow → Bytes → Attr → Shadow × ℤ
unfolding urgent_report
stored_report sdk d key a =
    let d' = record d {
      attrs = modify key (λ e. record e { report = true; attr = a }) d.attrs;
      report_flag = true;
    } in
    (urgent_report sdk d' key a, pos 0)

-- The part of doReportProperty that has found the attribute.
unfoldable pub report_attr : Sdk → Shadow → Bytes → Attr → AttrType → Bytes → Option (Shadow × ℤ)
unfolding stored_report
report_attr sdk d key a (other n) val =
    some (record d { attrs = modify key (set_report true) d.attrs }, minus_one)
report_attr sdk d key a int32 val = a.mem >>= λ p.
    store_text int32 p val >>= λ q. some (stored_report sdk d key (record a { mem = some q }))
report_attr sdk d key a string val = a.mem >>= λ p.
    store_text string p val >>= λ q. some (stored_report sdk d key (record a { mem = some q }))

-- DeviceShadow::doReportProperty; `none` is a store outside the attribute's memory, or of a number
-- that an `int` cannot hold.
unfoldable pub do_report_property : Sdk → Shadow → Option Bytes → Option Bytes → Option (Shadow × ℤ)
unfolding report_attr
do_report_property sdk d none val = some (d, minus_one)
do_report_property sdk d (some key) none = some (d, minus_one)
do_report_property sdk d (some key) (some val) = elim (find key d.attrs) [
  | none ↦ some (d, minus_one)
  | some e ↦ report_attr sdk d key e.attr e.attr.attr_type val
]
