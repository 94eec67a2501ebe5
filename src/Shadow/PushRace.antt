-- ===== src/Shadow/PushRace.antt =====
-- pushProperties of jni/server/IOT_DeviceShadow.cpp among the clients' threads: the attributes are
-- gathered under m_lockAttrs, the push and the reset of m_reportFlag and g_forceReport stand outside.
-- The thread of the shadow calls updateProperties and pushProperties and runs the SDK's callbacks (in
-- its yield); the clients' threads call doAddProperty and doReportProperty whenever they like, each of
-- which is one step here.
use java_iotwrap.Common.{
  ℕ, ◌≡◌, ◌≢◌, refl, Bool, true, false, List, [], Option, none, some, arith, Ensures-some, ◌||◌,
  Bytes, ℤ,
}
use java_iotwrap.Service.{Service, new_service}
use java_iotwrap.Service.Calls.{Call}
use java_iotwrap.Shadow.{
  int32, report_period_property, Sdk, Shadow, Alloc, new_shadow, local_report_period,
}
use java_iotwrap.Shadow.Report.{do_add_property, do_report_property}
use java_iotwrap.Shadow.Push.{send_due, lower_flags, push_properties}
use java_iotwrap.Shadow.PushLaws.{
  none_due, due_attrs, push_entries_lem, push_format-IsCleared, add_opt, PushedOnce,
  push_properties_lem,
}
use java_iotwrap.Shadow.Update.{update_properties}
use java_iotwrap.Shadow.Cloud.{Hal, attr_changed}
use java_iotwrap.Shadow.Invariant.{none_due-MapIsValid}
use java_iotwrap.Shadow.Kept.{IsValid, Kept, do_add_property-IsValid, do_report_property-IsValid}
use java_iotwrap.Shadow.Preserved.{
  new_shadow-IsValid, attr_changed-IsValid, update_properties-IsValid,
}
use java_iotwrap.Shadow.Due.{any_due, IsRemembered, any_due-none_due}
use java_iotwrap.Shadow.DueKept.{
  IsQuiet, IsQuiet-IsRemembered, add_entry-IsQuiet, do_add_property-IsQuiet, PushesSucceed,
  do_report_property-IsQuiet, do_report_property-IsRemembered,
}
use java_iotwrap.Shadow.DueChanges.{update_properties-IsRemembered, attr_changed-IsRemembered}

-- `pushing` holds from the test of the flags in pushProperties to their reset.
pub record PushState : Type 0 where
  pub device : Shadow
  pub pushing : Bool

module _ (sdk : Sdk) where
  -- One step of a thread.
  pub data Step (q : PushState) : PushState → Type 0 where
    adds :
        (m : Alloc) (k : Option Bytes) (type size : ℤ)
        → Step q (record q { device = (do_add_property sdk m q.device k type size).0 })
    reports :
        (k v : Option Bytes) {d : Shadow} {ret : ℤ}
        → do_report_property sdk q.device k v ≡ some (d, ret)
        → Step q (record q { device = d })
    serves : (s : Service) → Step q (record q { device = record q.device { service = s } })
    sets_up :
        (h : ℕ) → q.pushing ≡ false → Step q (record q { device = record q.device { shadow = h } })
    updates :
        (answer : ℕ → Bytes → Option Bytes) {d : Shadow} {ret : ℤ} {calls : List Call}
        → q.pushing ≡ false
        → update_properties answer q.device ≡ some (d, ret, calls)
        → Step q (record q { device = d })
    changes :
        (hal : Hal) (k p : Bytes) {d : Shadow} {calls : List Call}
        → q.pushing ≡ false
        → attr_changed hal q.device k p ≡ some (d, calls)
        → Step q (record q { device = d })
    begins :
        q.pushing ≡ false
        → q.device.shadow ≢ 0
        → q.device.report_flag || q.device.force_report ≡ true
        → Step q (record { device = (send_due sdk q.device).0; pushing = true })
    finishes : q.pushing ≡ true → Step q (record { device = lower_flags q.device; pushing = false })

  pub data Reach : PushState → Type 0 where
    start :
        (m : Alloc) (flag : Bool) → Reach (record { device = new_shadow m flag; pushing = false })
    next : {q q' : PushState} → Reach q → Step q q' → Reach q'

  -- While the thread pushes nothing waits; otherwise what waits is remembered.
  abbrev Waits : Bool → Shadow → Type 0
  Waits true d = (d.shadow ≢ 0) × (any_due d.attrs ≡ false)
  Waits false d = IsRemembered d

  abbrev IsSound : PushState → Type 0
  IsSound q = IsValid q.device × Waits q.pushing q.device

  -- A shadow before its constructor adds the period's attribute.
  abbrev blank : Bool → Shadow
  blank flag = record {
    service = new_service;
    attrs = [];
    report_flag = flag;
    force_report = false;
    shadow = 0;
    report_period = 20000;
    calls = [];
  }

  new_shadow-IsRemembered : (m : Alloc) (flag : Bool) → IsRemembered (new_shadow m flag)
  unfolding new_shadow
  new_shadow-IsRemembered m flag =
      IsQuiet-IsRemembered (blank flag) (new_shadow m flag)
        (add_entry-IsQuiet m (blank flag) local_report_period int32 4 report_period_property true)
        (λ h. cc)

  pub send_due-attrs :
      (d : Shadow)
      → ((send_due sdk d).0.attrs ≡ none_due d.attrs) × ((send_due sdk d).0.shadow ≡ d.shadow)
  unfolding send_due
  send_due-attrs d =
      let kept =
        push_format-IsCleared sdk d (none_due d.attrs)
          (add_opt sdk d.shadow none (due_attrs d.force_report d.attrs)) in
      rw (push_entries_lem sdk d.shadow d.force_report d.attrs none) (kept.0, kept.1)

  IsQuiet-Waits : (b : Bool) (d d' : Shadow) → IsQuiet d d' → Waits b d → Waits b d'
  IsQuiet-Waits true d d' (q, f, s) (u, n) = (rw s u, ground (arith, q, n))
  IsQuiet-Waits false d d' q h = IsQuiet-IsRemembered d d' q h

  report-Waits :
      (b : Bool) (d : Shadow) (k v : Option Bytes) {d' : Shadow} {ret : ℤ}
      → PushesSucceed sdk
      → IsValid d
      → do_report_property sdk d k v ≡ some (d', ret)
      → Waits b d
      → Waits b d'
  report-Waits true d k v {d' = d'} good i e (u, n) =
      IsQuiet-Waits true d d'
        (Ensures-some _ (do_report_property sdk d k v) e
          (do_report_property-IsQuiet sdk d k v good u i))
        (u, n)
  report-Waits false d k v good i e h =
      Ensures-some _ (do_report_property sdk d k v) e
        (do_report_property-IsRemembered sdk d k v i h)

  idle :
      (b : Bool) (d d' : Shadow)
      → b ≡ false
      → (IsRemembered d → IsRemembered d')
      → Waits b d
      → Waits b d'
  idle false d d' e f h = f h
  idle true d d' e f h = cc

  finished : (b : Bool) (d : Shadow) → b ≡ true → Waits b d → IsRemembered (lower_flags d)
  unfolding lower_flags
  finished true d e (u, n) h = cc
  finished false d e w h = cc

  Step-IsSound : {q q' : PushState} → PushesSucceed sdk → Step q q' → IsSound q → IsSound q'
  unfolding lower_flags
  Step-IsSound {q} good (adds m k type size) (v, w) = (
    do_add_property-IsValid sdk m q.device k type size v,
    IsQuiet-Waits q.pushing q.device _ (do_add_property-IsQuiet sdk m q.device k type size) w,
  )
  Step-IsSound {q} good (reports k v e) (i, w) = (
    Ensures-some (Kept sdk) (do_report_property sdk q.device k v) e
        (do_report_property-IsValid sdk q.device k v i),
    report-Waits q.pushing q.device k v good i e w,
  )
  Step-IsSound {q} good (serves s) (v, w) =
      (v, IsQuiet-Waits q.pushing q.device _ ((λ h. h), (λ h. h), refl) w)
  Step-IsSound {q} good (sets_up h e) (v, w) =
      (v, idle q.pushing q.device (record q.device { shadow = h }) e (λ r. r) w)
  Step-IsSound {q} good (updates answer {d = d} n e) (v, w) = (
    update_properties-IsValid sdk answer q.device e v,
    idle q.pushing q.device d n
        (λ h.
          Ensures-some _ (update_properties answer q.device) e
            (update_properties-IsRemembered answer q.device h))
        w,
  )
  Step-IsSound {q} good (changes hal k p {d = d} n e) (v, w) = (
    Ensures-some _ (attr_changed hal q.device k p) e (attr_changed-IsValid hal q.device k p v),
    idle q.pushing q.device d n
        (λ h.
          Ensures-some _ (attr_changed hal q.device k p) e
            (attr_changed-IsRemembered hal q.device k p h))
        w,
  )
  Step-IsSound {q} good (begins n u f) (v, w) =
      let sent = send_due-attrs q.device in
      (
        rw sent.0 (none_due-MapIsValid q.device.attrs v),
        (rw sent.1 u, rw sent.0 (any_due-none_due q.device.attrs)),
      )
  Step-IsSound {q} good (finishes b) (v, w) = (v, finished q.pushing q.device b w)

  Reach-IsSound : {q : PushState} → PushesSucceed sdk → Reach q → IsSound q
  Reach-IsSound good (start m flag) =
      (new_shadow-IsValid sdk m flag, new_shadow-IsRemembered m flag)
  Reach-IsSound good (next r st) = Step-IsSound good st (Reach-IsSound good r)

  -- If every push is answered with 0: in whatever order the clients' threads add and report properties
  -- and the shadow's thread sets the handle, updates, takes changes from the cloud and, where the
  -- handle is not NULL and a flag is up, pushes, each of these being one step except that the reset of
  -- the flags at the end of pushProperties is a step of its own: once an attribute waits for its report
  -- and no pushProperties is under way, the next pushProperties makes the push of the attributes that
  -- are due (of all of them if the report is forced), after which none waits.
  pub waiting_is_pushed :
      {q : PushState}
      → PushesSucceed sdk
      → Reach q
      → q.pushing ≡ false
      → any_due q.device.attrs ≡ true
      → PushedOnce sdk q.device
          (due_attrs q.device.force_report q.device.attrs)
          (push_properties sdk q.device)
        × (any_due (push_properties sdk q.device).0.attrs ≡ false)
  waiting_is_pushed {q} good r n w =
      let sound = Reach-IsSound good r in
      let pushed = push_properties_lem sdk q.device (awake q.pushing n sound.1) in
      (pushed.0, rw pushed.1.0 (any_due-none_due q.device.attrs))
    where
      awake :
          (b : Bool)
          → b ≡ false
          → Waits b q.device
          → q.device.report_flag || q.device.force_report ≡ true
      awake false e h = h w
      awake true e h = cc
