-- ===== src/Shadow/Cloud.antt =====
-- jni/server/IOT_DeviceShadow.cpp: what the SDK's callbacks do when the cloud changes an attribute or
-- sends a command. `Hal` is the SDK's HAL_Snprintf with "%d" and with "%s", into a buffer of a size.
use java_iotwrap.Common.{ℕ, true, List, [], Option, none, some, ◌>>=◌, Bytes, c_str, ◌<◌, length}
use java_iotwrap.StdMap.{find, modify}
use java_iotwrap.Service.Calls.{Call, call_property_set, call_command_cb}
use java_iotwrap.Command.{command_name}
use java_iotwrap.Shadow.{
  AttrType, int32, string, other, Attr, AttrCallback, no_callback, default_property,
  report_period_property, Shadow, update_report_period,
}
use java_iotwrap.Shadow.Value.{read_int32}

pub record Hal : Type 0 where
  pub print_int32 : ℕ → ℕ → Bytes
  pub print_string : ℕ → Bytes → Bytes
  -- The text that snprintf leaves is shorter than the buffer.
  pub length-print_int32 : (size w : ℕ) → 0 < size → length (print_int32 size w) < size
  pub length-print_string : (size : ℕ) (s : Bytes) → 0 < size → length (print_string size s) < size

abbrev pub attr_value_max_len : ℕ
attr_value_max_len = 256

-- The text of a value; the inner `none` is the `default:` that returns.
unfoldable pub value_text : Hal → AttrType → Bytes → Option (Option Bytes)
value_text hal int32 p = read_int32 p >>= λ w. some (some (hal.print_int32 attr_value_max_len w))
value_text hal string p = c_str p >>= λ s. some (some (hal.print_string attr_value_max_len s))
value_text hal (other n) p = some none

abbrev pub Called : Type 0
Called = Option (Shadow × List Call)

unfoldable pub tell_clients : Shadow → Bytes → Option Bytes → Shadow × List Call
tell_clients d key none = (d, [])
tell_clients d key (some value) =
    (record d { force_report = true }, (call_property_set d.service (some key) (some value)).1)

-- _DS_call_default_property_cb.
unfoldable pub default_property_cb : Hal → Shadow → Attr → Called
unfolding value_text tell_clients
default_property_cb hal d a =
    a.mem >>= λ p. value_text hal a.attr_type p >>= λ v. some (tell_clients d a.name v)

-- _DS_report_period_property_cb.
unfoldable pub report_period_property_cb : Shadow → Attr → Called
report_period_property_cb d a = a.mem >>= λ p.
    read_int32 p >>= λ w. some (update_report_period (record d { force_report = true }) w, [])

unfoldable pub run_callback : Hal → AttrCallback → Shadow → Attr → Called
unfolding default_property_cb report_period_property_cb
run_callback hal no_callback d a = some (d, [])
run_callback hal default_property d a = default_property_cb hal d a
run_callback hal report_period_property d a = report_period_property_cb d a

-- The SDK has put new bytes into an attribute's memory and calls its callback.
unfoldable pub attr_changed : Hal → Shadow → Bytes → Bytes → Called
unfolding run_callback
attr_changed hal d key p = elim (find key d.attrs) [
  | none ↦ some (d, [])
  | some e ↦
      let a : Attr = record e.attr { mem = some p } in
      run_callback hal a.callback
        (record d { attrs = modify key (λ e'. record e' { attr = a }) d.attrs }) a
]

-- _DS_call_default_command_cb.
unfoldable pub default_command_cb : Shadow → Bytes → List Call
default_command_cb d text = elim (command_name text) [
  | none ↦ []
  | some cmd ↦ (call_command_cb d.service (some cmd) (some text)).1
]
