-- ===== src/Shadow/DueChanges.antt =====
-- The thread's operations of jni/server/IOT_DeviceShadow.cpp and the reminder of the attributes that wait:
-- updateProperties, and the changes from the cloud.
use java_iotwrap.Common.{
  ℕ, ◌≡◌, refl, inl, inr, Bool, true, false, List, Option, none, some, Ensures, Ensures-bind,
  Ensures-any, Ensures-mono, Option-cases, arith, ◌||◌, Bytes, ℤ, pos,
}
use java_iotwrap.StdMap.{find, modify}
use java_iotwrap.Service.Calls.{Call}
use java_iotwrap.Shadow.{
  AttrCallback, no_callback, default_property, report_period_property, Attr, DsAttr, Shadow,
  update_report_period, local_report_period,
}
use java_iotwrap.Shadow.Value.{read_int32}
use java_iotwrap.Shadow.Update.{update_properties}
use java_iotwrap.Shadow.UpdateLaws.{AreRefreshed, update_properties_lem}
use java_iotwrap.Shadow.Cloud.{
  Hal, value_text, tell_clients, default_property_cb, report_period_property_cb, run_callback,
  attr_changed,
}
use java_iotwrap.Shadow.Due.{IsRemembered, any_due-modify, any_due-AreRefreshed}

pub update_properties-IsRemembered :
    (answer : ℕ → Bytes → Option Bytes) (d : Shadow)
    → IsRemembered d
    → Ensures
        (λ ((d', ret, calls) : Shadow × ℤ × List Call). IsRemembered d')
        (update_properties answer d)
update_properties-IsRemembered answer d h =
    Ensures-mono
      (λ ((d', ret, calls) : Shadow × ℤ × List Call).
        (ret ≡ pos 0)
        × AreRefreshed d'.report_flag d.attrs d'.attrs
        × (d.report_flag ≡ true → d'.report_flag ≡ true)
        × (d'.service ≡ d.service)
        × (d'.force_report ≡ d.force_report))
      (λ ((d', ret, calls) : Shadow × ℤ × List Call). IsRemembered d') (update_properties answer d)
      (λ (d', ret, calls) (z, r, f, s, g) t.
        elim (any_due-AreRefreshed d'.report_flag d.attrs d'.attrs r t) [
          | inl u ↦ kept d.report_flag d.force_report d'.report_flag d'.force_report f g (h u)
          | inr u ↦ rw u refl
        ])
      (update_properties_lem answer d)
  where
    kept : (a b a' b' : Bool) → (a ≡ true → a' ≡ true) → b' ≡ b → a || b ≡ true → a' || b' ≡ true
    kept true b a' b' f g u = rw (f refl) refl
    kept false b a' b' f g u = ground (arith, g, u)

update_report_period-IsRemembered :
    (d : Shadow) (w : ℕ) → d.force_report ≡ true → IsRemembered (update_report_period d w)
unfolding update_report_period
update_report_period-IsRemembered d w h t = elim (Option-cases (find local_report_period d.attrs)) [
  | inl q ↦ rw (q, update_report_period) (ground (arith, h))
  | inr (e, q) ↦ rw (q, update_report_period) (ground (arith, h))
]

tell_clients-IsRemembered :
    (d : Shadow) (key : Bytes) (v : Option Bytes)
    → IsRemembered d
    → IsRemembered (tell_clients d key v).0
unfolding tell_clients
tell_clients-IsRemembered d key none h t = h t
tell_clients-IsRemembered d key (some value) h t = ground arith

module _ (hal : Hal) where
  run_callback-IsRemembered :
      (cb : AttrCallback) (d : Shadow) (a : Attr)
      → IsRemembered d
      → Ensures (λ ((d', calls) : Shadow × List Call). IsRemembered d') (run_callback hal cb d a)
  unfolding run_callback default_property_cb report_period_property_cb
  run_callback-IsRemembered no_callback d a v = v
  run_callback-IsRemembered default_property d a v =
      Ensures-bind (λ _. Unit) _ a.mem _
        (λ p _.
          Ensures-bind (λ _. Unit) _ (value_text hal a.attr_type p) _
            (λ t _. tell_clients-IsRemembered d a.name t v)
            (Ensures-any (value_text hal a.attr_type p)))
        (Ensures-any a.mem)
  run_callback-IsRemembered report_period_property d a v =
      Ensures-bind (λ _. Unit) _ a.mem _
        (λ p _.
          Ensures-bind (λ _. Unit) _ (read_int32 p) _
            (λ w _. update_report_period-IsRemembered (record d { force_report = true }) w refl)
            (Ensures-any (read_int32 p)))
        (Ensures-any a.mem)

  pub attr_changed-IsRemembered :
      (d : Shadow) (key p : Bytes)
      → IsRemembered d
      → Ensures (λ ((d', calls) : Shadow × List Call). IsRemembered d') (attr_changed hal d key p)
  unfolding attr_changed
  attr_changed-IsRemembered d key p v = elim (Option-cases (find key d.attrs)) [
    | inl q ↦ rw (q, attr_changed) v
    | inr (e, q) ↦
        let a : Attr = record e.attr { mem = some p } in
        let put : DsAttr → DsAttr = λ e'. record e' { attr = a } in
        rw (q, attr_changed)
          (run_callback-IsRemembered a.callback (record d { attrs = modify key put d.attrs }) a
            (λ t. v (any_due-modify key put d.attrs (λ e' h. h) t)))
  ]
