-- ===== src/Shadow/Loop.antt =====
-- jni/server/IOT_DeviceShadow.cpp: setupShadow, preShadow, postShadow, and a round of the thread's
-- loop. IOT_SetupConnInfo, IOT_Shadow_Construct and the clock are arguments.
use java_iotwrap.Common.{
  ℕ, zero, suc, ◌+◌, ◌-◌, ◌%◌, ◌^◌, Bool, List, [], ◌∷◌, Option, none, some, ◌>>=◌, ltb, ◌==◌,
  if◌then◌else◌, Bytes, ℤ, pos, is_zero,
}
use java_iotwrap.StdMap.{StdMap}
use java_iotwrap.Service.{wait_for_client}
use java_iotwrap.Service.Calls.{Call}
use java_iotwrap.Shadow.{
  DsAttr, SdkCall, register_attribute, delete_attribute, control_register, pull, destroy, Sdk,
  Shadow, ask_sdk,
}
use java_iotwrap.Shadow.Push.{push_properties}
use java_iotwrap.Shadow.Update.{update_properties}

-- The loop that calls IOT_Shadow_Construct until it gives a handle: `handle i` is what the call
-- number `i` returns. `none` is the end of the fuel, a loop that has not ended yet.
unfoldable pub construct : (ℕ → ℕ) → ℕ → ℕ → Option ℕ
construct handle zero i = none
construct handle (suc fuel) i =
    let rest = construct handle fuel (i + 1) in if handle i == 0 then rest else some (handle i)

-- DeviceShadow::setupShadow; `rc` is the result of IOT_SetupConnInfo, SUCCESS_RETURN being 0.
unfoldable pub setup_shadow : (ℕ → ℕ) → ℕ → ℤ → Shadow → Option (Shadow × ℤ)
unfolding construct
setup_shadow handle fuel rc d =
    if is_zero rc
    then (construct handle fuel 0 >>= λ h. some (record d { shadow = h }, pos 0))
    else some (d, rc)

-- A call of the SDK for every attribute.
unfoldable pub for_attrs : Sdk → (Bytes → SdkCall) → StdMap DsAttr → Shadow → Shadow
unfolding ask_sdk
for_attrs sdk f [] d = d
for_attrs sdk f ((k, e) ∷ m) d = for_attrs sdk f m (ask_sdk sdk d (f e.attr.name)).0

-- DeviceShadow::preShadow behind `waitForClient`.
unfoldable pub register_shadow : Sdk → Shadow → Shadow
unfolding for_attrs
register_shadow sdk d =
    let d1 = for_attrs sdk (register_attribute d.shadow) d.attrs d in
    let d2 = (ask_sdk sdk d1 (control_register d1.shadow)).0 in (ask_sdk sdk d2 (pull d2.shadow)).0

-- DeviceShadow::preShadow. From a shadow whose thread waits, `wake` gives what the other threads have
-- made of it when the wait ends; `none` is a wait that never ends.
unfoldable pub pre_shadow : Sdk → (Shadow → Option Shadow) → Shadow → Option Shadow
unfolding wait_for_client register_shadow
pre_shadow sdk wake d =
    wake (record d { service = wait_for_client d.service }) >>= λ d0. some (register_shadow sdk d0)

-- DeviceShadow::postShadow.
unfoldable pub post_shadow : Sdk → Shadow → Shadow
unfolding for_attrs
post_shadow sdk d =
    let d1 = for_attrs sdk (delete_attribute d.shadow) d.attrs d in
    record (ask_sdk sdk d1 (destroy d1.shadow)).0 { shadow = 0 }

-- `reportPeriod() < (HAL_UptimeMs() - started_ms)`, on uint64_t.
unfoldable pub is_due : ℕ → ℕ → ℕ → Bool
is_due period now started = ltb period ((now + 2 ^ 64 - started) % 2 ^ 64)

-- One round of the loop of threadLoop behind `yieldShadow`: `now` and `later` are the readings of the
-- clock. The result has the new `started_ms`.
unfoldable pub round :
    Sdk → (ℕ → Bytes → Option Bytes) → ℕ → ℕ → Shadow → ℕ → Option (Shadow × ℕ × List Call)
unfolding is_due
round sdk answer now later d started =
    if is_due d.report_period now started
    then (update_properties answer d >>= λ (d', ret, calls).
        some ((push_properties sdk d').0, later, calls))
    else some ((push_properties sdk d).0, started, [])
