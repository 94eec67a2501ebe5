-- ===== src/Shadow/Preserved.antt =====
-- Every operation of jni/server/IOT_DeviceShadow.cpp on the attributes keeps their invariant, so every
-- history does.
use java_iotwrap.Common.{
  ℕ, ◌≡◌, refl, ap, sym, ◌∙◌, inl, inr, Bool, true, List, Option, none, some, Ensures, Ensures-bind,
  Ensures-any, Ensures-some, Bool-cases, Option-cases, ◌||◌, Bytes, ℤ,
}
use mathlib.Core.Option.{some-injective}
use java_iotwrap.StdMap.{find, modify}
use java_iotwrap.Service.Calls.{Call}
use java_iotwrap.Shadow.{
  int32, AttrCallback, no_callback, default_property, report_period_property, Attr, DsAttr, Sdk,
  Shadow, Alloc, new_shadow, set_report, update_report_period, local_report_period,
}
use java_iotwrap.Shadow.Report.{do_add_property, do_report_property}
use java_iotwrap.Shadow.Push.{push_properties}
use java_iotwrap.Shadow.PushLaws.{push_properties_lem}
use java_iotwrap.Shadow.Update.{update_properties}
use java_iotwrap.Shadow.UpdateLaws.{update_properties_lem}
use java_iotwrap.Shadow.Invariant.{
  SameKind, modify-MapIsValid, none_due-MapIsValid, AreRefreshed-MapIsValid,
}
use java_iotwrap.Shadow.Kept.{
  IsValid, add_entry-IsValid, Kept, do_add_property-IsValid, do_report_property-IsValid,
}
use java_iotwrap.Shadow.Cloud.{
  Hal, value_text, tell_clients, default_property_cb, report_period_property_cb, run_callback,
  attr_changed,
}
use java_iotwrap.Shadow.Value.{read_int32}

update_report_period-IsValid : (d : Shadow) (t : ℕ) → IsValid d → IsValid (update_report_period d t)
unfolding update_report_period
update_report_period-IsValid d t v = go (find local_report_period d.attrs)
  where
    go :
        (o : Option DsAttr)
        → IsValid (elim o [
          | none ↦ d
          | some e ↦ record d {
            report_period = t;
            attrs = modify local_report_period (set_report true) d.attrs;
          }
        ])
    go none = v
    go (some e) =
        modify-MapIsValid local_report_period (set_report true) d.attrs (λ e' _. (refl, refl)) v

module _ (hal : Hal) where
  tell_clients-IsValid :
      (d : Shadow) (key : Bytes) (v : Option Bytes) → IsValid d → IsValid (tell_clients d key v).0
  unfolding tell_clients
  tell_clients-IsValid d key none h = h
  tell_clients-IsValid d key (some value) h = h

  run_callback-IsValid :
      (cb : AttrCallback) (d : Shadow) (a : Attr)
      → IsValid d
      → Ensures (λ ((d', calls) : Shadow × List Call). IsValid d') (run_callback hal cb d a)
  unfolding run_callback default_property_cb report_period_property_cb
  run_callback-IsValid no_callback d a v = v
  run_callback-IsValid default_property d a v =
      Ensures-bind (λ _. Unit) _ a.mem _
        (λ p _.
          Ensures-bind (λ _. Unit) _ (value_text hal a.attr_type p) _
            (λ t _. tell_clients-IsValid d a.name t v) (Ensures-any (value_text hal a.attr_type p)))
        (Ensures-any a.mem)
  run_callback-IsValid report_period_property d a v =
      Ensures-bind (λ _. Unit) _ a.mem _
        (λ p _.
          Ensures-bind (λ _. Unit) _ (read_int32 p) _
            (λ w _. update_report_period-IsValid (record d { force_report = true }) w v)
            (Ensures-any (read_int32 p)))
        (Ensures-any a.mem)

  pub attr_changed-IsValid :
      (d : Shadow) (key p : Bytes)
      → IsValid d
      → Ensures (λ ((d', calls) : Shadow × List Call). IsValid d') (attr_changed hal d key p)
  unfolding attr_changed
  attr_changed-IsValid d key p v = elim (Option-cases (find key d.attrs)) [
    | inl q ↦ rw (q, attr_changed) v
    | inr (e, q) ↦
        let a : Attr = record e.attr { mem = some p } in
        let put : DsAttr → DsAttr = λ e'. record e' { attr = a } in
        let same_entry : (e' : DsAttr) → find key d.attrs ≡ some e' → SameKind e' (put e') =
          λ e' q'.
            let w : e ≡ e' = some-injective _ _ (sym q ∙ q') in
            (ap (λ (x : DsAttr). x.attr.name) w, ap (λ (x : DsAttr). x.attr.attr_type) w) in
        rw (q, attr_changed)
          (run_callback-IsValid a.callback (record d { attrs = modify key put d.attrs }) a
            (modify-MapIsValid key put d.attrs same_entry v))
  ]

module _ (sdk : Sdk) where
  push_properties-IsValid : (d : Shadow) → IsValid d → IsValid (push_properties sdk d).0
  push_properties-IsValid d v = elim (Bool-cases (d.report_flag || d.force_report)) [
    | inl t ↦ rw (push_properties_lem sdk d t).1.0 (none_due-MapIsValid d.attrs v)
    | inr t ↦ unfold push_properties in (rw t v)
  ]

  pub update_properties-IsValid :
      (answer : ℕ → Bytes → Option Bytes) (d : Shadow) {d' : Shadow} {ret : ℤ} {calls : List Call}
      → update_properties answer d ≡ some (d', ret, calls)
      → IsValid d
      → IsValid d'
  update_properties-IsValid answer d {d' = d'} e v =
      AreRefreshed-MapIsValid d'.report_flag d.attrs d'.attrs
        (Ensures-some _ (update_properties answer d) e (update_properties_lem answer d)).1 v

  -- The calls that change the attributes, with what the clients answer and the SDK returns.
  pub data Step (d : Shadow) : Shadow → Type 0 where
    adds :
        (m : Alloc) (k : Option Bytes) (type size : ℤ)
        → Step d (do_add_property sdk m d k type size).0
    reports :
        (k v : Option Bytes) {d' : Shadow} {ret : ℤ}
        → do_report_property sdk d k v ≡ some (d', ret)
        → Step d d'
    pushes : Step d (push_properties sdk d).0
    updates :
        (answer : ℕ → Bytes → Option Bytes) {d' : Shadow} {ret : ℤ} {calls : List Call}
        → update_properties answer d ≡ some (d', ret, calls)
        → Step d d'
    retimes : (t : ℕ) → Step d (update_report_period d t)
    changes :
        (hal : Hal) (k p : Bytes) {d' : Shadow} {calls : List Call}
        → attr_changed hal d k p ≡ some (d', calls)
        → Step d d'

  pub data Reach : Shadow → Type 0 where
    start : (m : Alloc) (flag : Bool) → Reach (new_shadow m flag)
    next : {d d' : Shadow} → Reach d → Step d d' → Reach d'

  pub new_shadow-IsValid : (m : Alloc) (flag : Bool) → IsValid (new_shadow m flag)
  unfolding new_shadow
  new_shadow-IsValid m flag = add_entry-IsValid m _ _ int32 4 _ true (inl refl) (tt, tt)

  Step-IsValid : {d d' : Shadow} → Step d d' → IsValid d → IsValid d'
  Step-IsValid {d} (adds m k type size) v = do_add_property-IsValid sdk m d k type size v
  Step-IsValid {d} (reports k v e) i =
      Ensures-some (Kept sdk) (do_report_property sdk d k v) e
        (do_report_property-IsValid sdk d k v i)
  Step-IsValid {d} pushes v = push_properties-IsValid d v
  Step-IsValid {d} (updates answer e) v = update_properties-IsValid answer d e v
  Step-IsValid {d} (retimes t) v = update_report_period-IsValid d t v
  Step-IsValid {d} (changes hal k p e) v =
      Ensures-some _ (attr_changed hal d k p) e (attr_changed-IsValid hal d k p v)

  -- After any history of doAddProperty, doReportProperty, pushProperties, updateProperties,
  -- updateReportReriod and changes from the cloud the attributes stand in the strict order of their keys, each is named by its
  -- key, and its type is INT32 or STRING.
  pub Reach-MapIsValid : {d : Shadow} → Reach d → IsValid d
  Reach-MapIsValid (start m flag) = new_shadow-IsValid m flag
  Reach-MapIsValid (next r st) = Step-IsValid st (Reach-MapIsValid r)
