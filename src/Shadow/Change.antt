-- ===== src/Shadow/Change.antt =====
-- A change from the cloud (jni/server/IOT_DeviceShadow.cpp) keeps the attributes' names, their types and
-- the room in their memory.
use java_iotwrap.Common.{
  ℕ, ◌≤◌, ◌≡◌, refl, sym, subst, ◌∙◌, inl, inr, true, List, Option, none, some, Succeeds,
  Succeeds-mono, Succeeds-bind, arith, Option-cases, Bytes, length, c_str,
}
use java_iotwrap.StdMap.{StdMap, find, modify}
use java_iotwrap.Service.Calls.{Call}
use java_iotwrap.Shadow.{
  AttrType, int32, string, other, Attr, AttrCallback, no_callback, default_property,
  report_period_property, DsAttr, Shadow, set_report, local_report_period, update_report_period,
}
use java_iotwrap.Shadow.Value.{read_int32}
use java_iotwrap.Shadow.Total.{read_int32-Ends}
use java_iotwrap.Shadow.Room.{Roomy, nul_after, Roomy-length}
use java_iotwrap.Shadow.Cloud.{
  Hal, value_text, tell_clients, default_property_cb, report_period_property_cb, run_callback,
  attr_changed,
}
use java_iotwrap.Shadow.Fit.{modify-keys, AttrsFit, Keeps, find-EntryFits, modify-AttrsFit}

Roomy-word : (t : AttrType) (p : Bytes) → Roomy t p → 4 ≤ length p
Roomy-word int32 p h = h
Roomy-word string p h = omega (arith, Roomy-length p h)
Roomy-word (other n) p h = h

module _ (type_of : Bytes → AttrType) where
  -- An attribute with new memory of its type's size fits, whatever its report flag is.
  fresh-AttrsFit :
      (k : Bytes) (a : Attr) (m : StdMap DsAttr)
      → (a.name ≡ k) × (a.attr_type ≡ type_of k) × Succeeds (Roomy a.attr_type) a.mem
      → AttrsFit type_of m
      → AttrsFit type_of (modify k (λ e'. record e' { attr = a }) m)
  fresh-AttrsFit k a m f h = modify-AttrsFit type_of k (λ e'. record e' { attr = a }) m (λ e g. f) h

  update_report_period-Keeps :
      (d : Shadow) (w : ℕ) → AttrsFit type_of d.attrs → Keeps type_of d (update_report_period d w)
  unfolding update_report_period
  update_report_period-Keeps d w h = elim (Option-cases (find local_report_period d.attrs)) [
    | inl q ↦ rw (q, update_report_period) (refl, refl, refl, h)
    | inr (e, q) ↦
        rw (q, update_report_period)
          (
            refl,
            refl,
            modify-keys local_report_period (set_report true) d.attrs,
            modify-AttrsFit type_of local_report_period (set_report true) d.attrs (λ e g. g) h,
          )
  ]

  value_text-ends :
      (hal : Hal) (t : AttrType) (p : Bytes) → Roomy t p → Succeeds (λ _. Unit) (value_text hal t p)
  unfolding value_text
  value_text-ends hal int32 p h =
      Succeeds-bind (λ _. Unit) (λ _. Unit) (read_int32 p) _ (λ w _. tt) (read_int32-Ends p h)
  value_text-ends hal string p h =
      Succeeds-bind (λ _. Unit) (λ _. Unit) (c_str p) _ (λ s _. tt) (nul_after 9 p h)
  value_text-ends hal (other n) p h = tt

  tell_clients-Keeps :
      (d : Shadow) (key : Bytes) (v : Option Bytes)
      → AttrsFit type_of d.attrs
      → let (d', calls) = tell_clients d key v in Keeps type_of d d'
  unfolding tell_clients
  tell_clients-Keeps d key none h = (refl, refl, refl, h)
  tell_clients-Keeps d key (some value) h = (refl, refl, refl, h)

  run_callback-Keeps :
      (hal : Hal) (cb : AttrCallback) (d : Shadow) (a : Attr)
      → Succeeds (Roomy a.attr_type) a.mem
      → AttrsFit type_of d.attrs
      → Succeeds
          (λ ((d', calls) : Shadow × List Call). Keeps type_of d d')
          (run_callback hal cb d a)
  unfolding run_callback default_property_cb report_period_property_cb
  run_callback-Keeps hal no_callback d a r h = (refl, refl, refl, h)
  run_callback-Keeps hal default_property d a r h =
      Succeeds-bind (Roomy a.attr_type) _ a.mem _
        (λ p room.
          Succeeds-bind (λ _. Unit) _ (value_text hal a.attr_type p) _
            (λ v _. tell_clients-Keeps d a.name v h) (value_text-ends hal a.attr_type p room))
        r
  run_callback-Keeps hal report_period_property d a r h =
      Succeeds-bind (Roomy a.attr_type) _ a.mem _
        (λ p room.
          Succeeds-bind (λ _. Unit) _ (read_int32 p) _
            (λ w _. update_report_period-Keeps (record d { force_report = true }) w h)
            (read_int32-Ends p (Roomy-word a.attr_type p room)))
        r

  -- A change of an attribute by the cloud, with bytes that its type has room for.
  pub attr_changed-Keeps :
      (hal : Hal) (d : Shadow) (key p : Bytes)
      → Roomy (type_of key) p
      → AttrsFit type_of d.attrs
      → Succeeds
          (λ ((d', calls) : Shadow × List Call). Keeps type_of d d')
          (attr_changed hal d key p)
  unfolding attr_changed
  attr_changed-Keeps hal d key p room h = elim (Option-cases (find key d.attrs)) [
    | inl q ↦ rw (q, attr_changed) (refl, refl, refl, h)
    | inr (e, q) ↦
        let f = find-EntryFits type_of key e d.attrs q h in
        let a : Attr = record e.attr { mem = some p } in
        let r : Roomy a.attr_type p = subst (λ t. Roomy t p) (sym f.1) room in
        let d1 : Shadow = record d { attrs = modify key (λ e'. record e' { attr = a }) d.attrs } in
        rw (q, attr_changed)
          (Succeeds-mono (λ ((d', calls) : Shadow × List Call). Keeps type_of d1 d') _
            (run_callback hal a.callback d1 a)
            (λ (d', calls) k.
              (k.0, k.1, k.2 ∙ modify-keys key (λ e'. record e' { attr = a }) d.attrs, k.3))
            (run_callback-Keeps hal a.callback d1 a r
              (fresh-AttrsFit key a d.attrs (f.0, f.1, r) h)))
  ]
