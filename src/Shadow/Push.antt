-- ===== src/Shadow/Push.antt =====
-- DeviceShadow::pushProperties of jni/server/IOT_DeviceShadow.cpp, as built with AVOID_QCLOUD_BUG.
use java_iotwrap.Common.{ℕ, Bool, false, [], ◌∷◌, Option, none, some, ◌||◌, if◌then◌else◌, ℤ, pos}
use java_iotwrap.StdMap.{StdMap}
use java_iotwrap.Shadow.{Attr, DsAttr, push, Sdk, Shadow, ask_sdk, set_report}

-- `m_reportFlag = false; g_forceReport = false;`, which no lock guards.
unfoldable pub lower_flags : Shadow → Shadow
lower_flags d = record d { report_flag = false; force_report = false }

module _ (sdk : Sdk) where
  open sdk use {Format, format_init, format_add, format_finalize, payload}

  -- IOT_Shadow_PushFormat_Init before the first attribute, and IOT_Shadow_PushFormat_Add; `none` is
  -- `flg == 0`.
  unfoldable pub add_format : ℕ → Option Format → Attr → Option Format
  add_format h none a = some (format_add (format_init h) a)
  add_format h (some f) a = some (format_add f a)

  -- The loop over the attributes: the map that it leaves, and the format.
  unfoldable pub push_entries :
      ℕ → Bool → StdMap DsAttr → Option Format → StdMap DsAttr × Option Format
  unfolding add_format
  push_entries h force [] f = ([], f)
  push_entries h force ((k, e) ∷ m) f =
      let due = force || e.report in
      let (m', f') = push_entries h force m (if due then add_format h f e.attr else f) in
      ((k, if due then set_report false e else e) ∷ m', f')

  -- The end of pushProperties: the push, if there was an attribute, and the reset of the flags.
  unfoldable pub push_format : Shadow → Option Format → Shadow × ℤ
  unfolding ask_sdk
  push_format d none = (d, pos 0)
  push_format d (some f) = ask_sdk sdk d (push d.shadow (payload (format_finalize f)))

  -- From the locked loop to the push: what stands between the test of the flags and their reset.
  unfoldable pub send_due : Shadow → Shadow × ℤ
  unfolding push_entries push_format
  send_due d =
      let (m, f) = push_entries d.shadow d.force_report d.attrs none in
      push_format (record d { attrs = m }) f

  unfoldable pub push_due : Shadow → Shadow × ℤ
  unfolding send_due lower_flags
  push_due d = let (d', ret) = send_due d in (lower_flags d', ret)

  -- DeviceShadow::pushProperties.
  unfoldable pub push_properties : Shadow → Shadow × ℤ
  unfolding push_due
  push_properties d = if d.report_flag || d.force_report then push_due d else (d, pos 0)
