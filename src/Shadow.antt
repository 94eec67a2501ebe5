-- ===== src/Shadow.antt =====
-- jni/server/IOT_DeviceShadow.h and IOT_DeviceShadow.cpp: the attributes of the device shadow.
-- The IOT SDK (IOT_Shadow_*, HAL_*) is not in the repository: what the code uses of it is the record
-- `Sdk`. `calls` lists what was asked of it. An `iotx_shadow_attr_pt` that the map holds is never
-- NULL, since only an attribute that was allocated is inserted. `g_forceReport` is a field here.
pub mod Value
pub mod Report
pub mod Push
pub mod Update
pub mod Cloud
pub mod Loop
pub mod ValueLaws
pub mod ReportLaws
pub mod PushLaws
pub mod UpdateLaws
pub mod Refresh
pub mod RefreshText
pub mod ShortText
pub mod Total
pub mod Registry
pub mod Subclass
pub mod Invariant
pub mod Kept
pub mod Preserved
pub mod Journey
pub mod LoopLaws
pub mod Room
pub mod Fit
pub mod Change
pub mod Thread
pub mod Turns
pub mod ThreadLaws
pub mod Due
pub mod DueKept
pub mod DueChanges
pub mod PushRace
pub mod LostReport
pub mod Memory
pub mod MemoryLaws
use java_iotwrap.Common.{
  ℕ, Bool, true, false, List, [], ◌∷◌, ◌++◌, Option, none, some, if◌then◌else◌, ◌==◌, Bytes, codes,
  ℤ, pos, minus_one, length, replicate,
}
use java_iotwrap.StdMap.{StdMap, find, insert, modify}
use java_iotwrap.Service.{Service, new_service}

-- iotx_shadow_attr_datatype_t: the two that the code names, and the rest.
pub data AttrType : Type 0 where
  int32 string : AttrType
  other : ℕ → AttrType

-- iotx_shadow_attr_cb_t: NULL, _DS_call_default_property_cb, or _DS_report_period_property_cb.
pub data AttrCallback : Type 0 where
  no_callback default_property report_period_property : AttrCallback

-- The fields of iotx_shadow_attr_t that the code sets; `mem` is what `pattr_data` points to, `none`
-- for NULL. The mode is read-write exactly if there is a callback.
pub record Attr : Type 0 where
  pub name : Bytes
  pub mem : Option Bytes
  pub attr_type : AttrType
  pub callback : AttrCallback

-- struct _DS_Attr.
pub record DsAttr : Type 0 where
  pub report : Bool
  pub is_local : Bool
  pub attr : Attr

-- What is asked of the SDK, with the handle.
pub data SdkCall : Type 0 where
  register_attribute delete_attribute : ℕ → Bytes → SdkCall
  push : ℕ → Bytes → SdkCall
  event_report : ℕ → Bytes → ℕ → SdkCall
  control_register pull destroy yield_to : ℕ → SdkCall

-- The SDK: `format_init`, `format_add` and `format_finalize` are IOT_Shadow_PushFormat_*, `payload`
-- is the text in a format's buffer, and `result` is what a call returns after the calls before it.
pub record Sdk : Type 1 where
  pub Format : Type 0
  pub format_init : ℕ → Format
  pub format_add : Format → Attr → Format
  pub format_finalize : Format → Format
  pub payload : Format → Bytes
  pub result : List SdkCall → SdkCall → ℤ

pub record Shadow : Type 0 where
  pub service : Service
  pub attrs : StdMap DsAttr
  pub report_flag : Bool
  pub force_report : Bool
  pub shadow : ℕ
  pub report_period : ℕ
  pub calls : List SdkCall

-- The outcomes of _newProperty's three calls of `calloc`: true where memory is given.
pub record Alloc : Type 0 where
  pub gives_attr : Bool
  pub gives_name : Bool
  pub gives_data : Bool

-- One call of the SDK.
unfoldable pub ask_sdk : Sdk → Shadow → SdkCall → Shadow × ℤ
ask_sdk sdk d c = (record d { calls = d.calls ++ c ∷ [] }, sdk.result d.calls c)

-- DeviceShadow::_newProperty; `none` is the NULL that it returns.
unfoldable pub new_property : Alloc → Bytes → AttrType → ℕ → AttrCallback → Option Attr
new_property m name type size cb =
    if m.gives_attr
    then if m.gives_name
      then some (record {
        name = name;
        mem = if m.gives_data then some (replicate size 0) else none;
        attr_type = type;
        callback = cb;
      })
      else none
    else none

-- DeviceShadow::_addProperty.
unfoldable pub add_entry :
    Alloc → Shadow → Bytes → AttrType → ℕ → AttrCallback → Bool → Shadow × Option Attr
unfolding new_property
add_entry m d name type size cb local = elim (find name d.attrs) [
  | some e ↦ (d, none)
  | none ↦ elim (new_property m name type size cb) [
    | none ↦ (d, none)
    | some a ↦ (
      record d {
        attrs = insert name (record { report = false; is_local = local; attr = a }) d.attrs;
      },
      some a,
    )
  ]
]

-- LOCAL_ATTR_REPROT_PERIOD.
abbrev pub local_report_period : Bytes
local_report_period = codes "report_period"

-- DeviceShadow::DeviceShadow. The constructor does not set m_reportFlag: `flag` is what the memory
-- held.
unfoldable pub new_shadow : Alloc → Bool → Shadow
unfolding add_entry
new_shadow m flag =
    (add_entry m
      (record {
        service = new_service;
        attrs = [];
        report_flag = flag;
        force_report = false;
        shadow = 0;
        report_period = 20000;
        calls = [];
      })
      local_report_period int32 4 report_period_property true).0

-- DeviceShadow::getServiceStatus: DS_STATUS_INVALID is -1, DS_STATUS_CONNECTED is 0.
unfoldable pub get_service_status : Shadow → ℤ
get_service_status d = if d.shadow == 0 then minus_one else pos 0

abbrev pub set_report : Bool → DsAttr → DsAttr
set_report b e = record e { report = b }

-- DeviceShadow::updateReportReriod.
unfoldable pub update_report_period : Shadow → ℕ → Shadow
update_report_period d t = elim (find local_report_period d.attrs) [
  | none ↦ d
  | some e ↦ record d {
    report_period = t;
    attrs = modify local_report_period (set_report true) d.attrs;
  }
]
