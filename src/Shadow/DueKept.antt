-- ===== src/Shadow/DueKept.antt =====
-- Each operation of jni/server/IOT_DeviceShadow.cpp and the reminder of the attributes that wait.
use java_iotwrap.Common.{
  ℕ, ◌≡◌, ◌≢◌, refl, subst, ◌⊎◌, inl, inr, Bool, true, false, List, [], ◌∷◌, Option, none, some,
  Ensures, Ensures-bind, Ensures-any, same, Bool-cases, arith, ◌==◌, ◌||◌, Bytes, ℤ, pos, minus_one,
  is_zero,
}
use mathlib.Core.Option.{some-injective}
use java_iotwrap.StdMap.{StdMap, find, insert}
use java_iotwrap.Shadow.{
  AttrType, int32, string, other, AttrCallback, default_property, Attr, DsAttr, push, SdkCall, Sdk,
  Shadow, Alloc, new_property, add_entry, set_report,
}
use java_iotwrap.Shadow.Report.{
  property_type, positive_size, register_late, do_add_property, urgent_report, stored_report,
  report_attr, do_report_property,
}
use java_iotwrap.Shadow.Value.{store_text}
use java_iotwrap.Shadow.Invariant.{IsKnown, EntriesAreValid, MapIsValid}
use java_iotwrap.Shadow.Due.{any_due, IsRemembered, any_due-put_down, any_due-insert}

-- Nothing new waits, no flag is lowered, and the handle stays.
abbrev pub IsQuiet : Shadow → Shadow → Type 0
IsQuiet d d' =
    (any_due d'.attrs ≡ true → any_due d.attrs ≡ true)
    × (d.report_flag || d.force_report ≡ true → d'.report_flag || d'.force_report ≡ true)
    × (d'.shadow ≡ d.shadow)

pub IsQuiet-IsRemembered : (d d' : Shadow) → IsQuiet d d' → IsRemembered d → IsRemembered d'
IsQuiet-IsRemembered d d' (q, f, s) h t = f (h (q t))

IsQuiet-refl : (d : Shadow) → IsQuiet d d
IsQuiet-refl d = ((λ h. h), (λ h. h), refl)

pub add_entry-IsQuiet :
    (m : Alloc) (d : Shadow) (name : Bytes) (t : AttrType) (n : ℕ) (cb : AttrCallback) (l : Bool)
    → IsQuiet d (add_entry m d name t n cb l).0
unfolding add_entry
add_entry-IsQuiet m d name t n cb l = go (find name d.attrs) (new_property m name t n cb)
  where
    go :
        (o : Option DsAttr) (a : Option Attr)
        → IsQuiet d (
            let r : Shadow × Option Attr = elim o [
              | some e ↦ (d, none)
              | none ↦ elim a [
                | none ↦ (d, none)
                | some a' ↦ (
                  record d {
                    attrs =
                        insert name (record { report = false; is_local = l; attr = a' }) d.attrs;
                  },
                  some a',
                )
              ]
            ] in
            r.0)
    go (some e) a = IsQuiet-refl d
    go none none = IsQuiet-refl d
    go none (some a) = (any_due-insert name _ d.attrs refl, (λ h. h), refl)

module _ (sdk : Sdk) where
  register_late-IsQuiet :
      (d d' : Shadow) (o : Option Attr) → IsQuiet d d' → IsQuiet d (register_late sdk (d', o))
  unfolding register_late
  register_late-IsQuiet d d' none q = q
  register_late-IsQuiet d d' (some a) q = elim (Bool-cases (d'.shadow == 0)) [
    | inl z ↦ rw z q
    | inr z ↦ rw z q
  ]

  pub do_add_property-IsQuiet :
      (m : Alloc) (d : Shadow) (k : Option Bytes) (type size : ℤ)
      → IsQuiet d (do_add_property sdk m d k type size).0
  unfolding do_add_property
  do_add_property-IsQuiet m d none type size = IsQuiet-refl d
  do_add_property-IsQuiet m d (some k) type size = go (positive_size size) (property_type type)
    where
      go :
          (n : Option ℕ) (t : Option AttrType)
          → IsQuiet d (
              let r : Shadow × ℤ = elim n [
                | none ↦ (d, minus_one)
                | some n' ↦ elim t [
                  | none ↦ (d, minus_one)
                  | some t' ↦
                      (register_late sdk (add_entry m d k t' n' default_property false), pos 0)
                ]
              ] in
              r.0)
      go none t = IsQuiet-refl d
      go (some n) none = IsQuiet-refl d
      go (some n) (some t) =
          register_late-IsQuiet d (add_entry m d k t n default_property false).0
            (add_entry m d k t n default_property false).1
            (add_entry-IsQuiet m d k t n default_property false)

  -- Every push is answered with 0.
  abbrev pub PushesSucceed : Type 0
  PushesSucceed =
      (log : List SdkCall) (h : ℕ) (text : Bytes) → is_zero (sdk.result log (push h text)) ≡ true

  -- The flag of a report stays up.
  stored_report-flag :
      (d : Shadow) (k : Bytes) (a : Attr) → (stored_report sdk d k a).0.report_flag ≡ true
  unfolding stored_report urgent_report
  stored_report-flag d k a = ground arith

  -- If its urgent push succeeds, nothing waits that did not before.
  stored_report-IsQuiet :
      (d : Shadow) (k : Bytes) (a : Attr)
      → PushesSucceed
      → d.shadow ≢ 0
      → IsQuiet d (stored_report sdk d k a).0
  unfolding stored_report urgent_report
  stored_report-IsQuiet d k a good up =
      let z : (d.shadow == 0) ≡ false = ground arith in
      rw (z, good d.calls d.shadow _)
        (
          any_due-put_down k (λ e. record e { report = true; attr = a }) (set_report false) d.attrs
              (λ e. refl),
          (λ h. refl),
          refl,
        )

  -- A report in a shadow whose attributes are INT32 or STRING: the property holds of every result.
  report-Ensures :
      (P : Shadow → Type 0) (d : Shadow) (k : Bytes) (a : Attr) (t : AttrType) (val : Bytes)
      → (t ≡ int32) ⊎ (t ≡ string)
      → ((q : Bytes) → P (stored_report sdk d k (record a { mem = some q })).0)
      → Ensures (λ ((d', r) : Shadow × ℤ). P d') (report_attr sdk d k a t val)
  unfolding report_attr
  report-Ensures P d k a int32 val w h =
      Ensures-bind (λ _. Unit) _ a.mem _
        (λ p _.
          Ensures-bind (λ _. Unit) _ (store_text int32 p val) _ (λ q _. h q)
            (Ensures-any (store_text int32 p val)))
        (Ensures-any a.mem)
  report-Ensures P d k a string val w h =
      Ensures-bind (λ _. Unit) _ a.mem _
        (λ p _.
          Ensures-bind (λ _. Unit) _ (store_text string p val) _ (λ q _. h q)
            (Ensures-any (store_text string p val)))
        (Ensures-any a.mem)
  report-Ensures P d k a (other n) val (inl e) h = cc
  report-Ensures P d k a (other n) val (inr e) h = cc

  found-IsKnown :
      (k : Bytes) (m : StdMap DsAttr) (e : DsAttr)
      → EntriesAreValid m
      → find k m ≡ some e
      → IsKnown e.attr.attr_type
  unfolding find
  found-IsKnown k [] e v q = cc
  found-IsKnown k ((j, w) ∷ m) e v q = elim (Bool-cases (same k j)) [
    | inl t ↦
        subst (λ (x : DsAttr). IsKnown x.attr.attr_type) (some-injective w e (rw t at q)) v.0.1
    | inr t ↦ found-IsKnown k m e v.1 (rw t at q)
  ]

  do_report_property-Ensures :
      (P : Shadow → Type 0) (d : Shadow) (k v : Option Bytes)
      → MapIsValid d.attrs
      → P d
      → ((key : Bytes) (a : Attr) → P (stored_report sdk d key a).0)
      → Ensures (λ ((d', r) : Shadow × ℤ). P d') (do_report_property sdk d k v)
  unfolding do_report_property
  do_report_property-Ensures P d none v m p h = p
  do_report_property-Ensures P d (some k) none m p h = p
  do_report_property-Ensures P d (some k) (some v) m p h = go (find k d.attrs) refl
    where
      go :
          (o : Option DsAttr)
          → find k d.attrs ≡ o
          → Ensures
              (λ ((d', r) : Shadow × ℤ). P d')
              (elim o [
                | none ↦ some (d, minus_one)
                | some e ↦ report_attr sdk d k e.attr e.attr.attr_type v
              ])
      go none q = p
      go (some e) q =
          report-Ensures P d k e.attr e.attr.attr_type v (found-IsKnown k d.attrs e m.1 q)
            (λ w. h k (record e.attr { mem = some w }))

  pub do_report_property-IsQuiet :
      (d : Shadow) (k v : Option Bytes)
      → PushesSucceed
      → d.shadow ≢ 0
      → MapIsValid d.attrs
      → Ensures (λ ((d', r) : Shadow × ℤ). IsQuiet d d') (do_report_property sdk d k v)
  do_report_property-IsQuiet d k v good up m =
      do_report_property-Ensures (IsQuiet d) d k v m (IsQuiet-refl d)
        (λ key a. stored_report-IsQuiet d key a good up)

  pub do_report_property-IsRemembered :
      (d : Shadow) (k v : Option Bytes)
      → MapIsValid d.attrs
      → IsRemembered d
      → Ensures (λ ((d', r) : Shadow × ℤ). IsRemembered d') (do_report_property sdk d k v)
  do_report_property-IsRemembered d k v m h =
      do_report_property-Ensures IsRemembered d k v m h
        (λ key a t. rw (stored_report-flag d key a) refl)
