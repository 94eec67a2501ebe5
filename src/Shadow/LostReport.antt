-- ===== src/Shadow/LostReport.antt =====
-- doReportProperty between the push and the reset of the flags in pushProperties
-- (jni/server/IOT_DeviceShadow.cpp).
use mathlib.Core.Option
use java_iotwrap.Common.{
  ℕ, ◌≡◌, ◌≢◌, refl, subst, ◌∙◌, ap, true, false, [], ◌∷◌, ◌++◌, ◌⊎◌, some, Succeeds, arith, ◌==◌,
  Bytes, ℤ, pos, is_zero, same, same_refl, Bool-cases, inl, inr,
}
use java_iotwrap.StdMap.{StdMap, find, modify}
use java_iotwrap.StdMap.Laws.{find-modify}
use java_iotwrap.Shadow.{
  AttrType, int32, string, other, Attr, DsAttr, SdkCall, push, Sdk, Shadow, set_report,
}
use java_iotwrap.Shadow.Value.{store_text}
use java_iotwrap.Shadow.Report.{
  urgent_payload, urgent_report, stored_report, report_attr, do_report_property,
}
use java_iotwrap.Shadow.Push.{send_due, lower_flags, push_properties}
use java_iotwrap.Shadow.PushLaws.{none_due}
use java_iotwrap.Shadow.PushRace.{send_due-attrs}

find-none_due :
    (k : Bytes) (m : StdMap DsAttr) (e : DsAttr)
    → find k m ≡ some e
    → find k (none_due m) ≡ some (set_report false e)
unfolding find
find-none_due k [] e f = cc f
find-none_due k ((j, x) ∷ m) e f = elim (Bool-cases (same k j)) [
  | inl t ↦ rw t (ap (Option.map (set_report false)) (rw t at f))
  | inr t ↦ rw t (find-none_due k m e (rw t at f))
]

-- An attribute with new memory that waits for its report.
abbrev pub waiting_with : DsAttr → Bytes → DsAttr
waiting_with e q = record e { report = true; attr = record e.attr { mem = some q } }

module _ (sdk : Sdk) where
  -- The push that doReportProperty makes for an attribute with new memory.
  abbrev pub own_push : ℕ → DsAttr → Bytes → SdkCall
  own_push h e q = push h (urgent_payload sdk h (record e.attr { mem = some q }))

  -- A report that returns 0 after one push, with the attribute's new memory and its mark.
  abbrev Marked : Shadow → Bytes → DsAttr → Bytes → Shadow × ℤ → Type 0
  Marked d k e q (d', ret) =
      (ret ≡ pos 0)
      × (find k d'.attrs ≡ some (waiting_with e q))
      × (d'.calls ≡ d.calls ++ own_push d.shadow e q ∷ [])

  stored_report-Marked :
      (d : Shadow) (k q : Bytes) (e : DsAttr)
      → d.shadow ≢ 0
      → find k d.attrs ≡ some e
      → is_zero (sdk.result d.calls (own_push d.shadow e q)) ≡ false
      → Marked d k e q (stored_report sdk d k (record e.attr { mem = some q }))
  unfolding stored_report urgent_report
  stored_report-Marked d k q e u f bad =
      let put : DsAttr → DsAttr =
        λ e'. record e' { report = true; attr = record e.attr { mem = some q } } in
      let found : find k (modify k put d.attrs) ≡ some (put e) =
        rw (find-modify k k put d.attrs, same_refl k, f) in
      let z : (d.shadow == 0) ≡ false = ground arith in rw (z, bad) (refl, found, refl)

  -- With a value that is stored, a report of a number or of a text goes on.
  report_attr-stored :
      (d : Shadow) (k v p q : Bytes) (a : Attr) (t : AttrType)
      → (t ≡ int32) ⊎ (t ≡ string)
      → a.mem ≡ some p
      → store_text t p v ≡ some q
      → report_attr sdk d k a t v ≡ some (stored_report sdk d k (record a { mem = some q }))
  unfolding report_attr
  report_attr-stored d k v p q a int32 ty m st = rw (m, st) refl
  report_attr-stored d k v p q a string ty m st = rw (m, st) refl
  report_attr-stored d k v p q a (other n) (inl ty) m st = cc ty
  report_attr-stored d k v p q a (other n) (inr ty) m st = cc ty

  do_report_property-stored :
      (d : Shadow) (k v p q : Bytes) (e : DsAttr)
      → find k d.attrs ≡ some e
      → (e.attr.attr_type ≡ int32) ⊎ (e.attr.attr_type ≡ string)
      → e.attr.mem ≡ some p
      → store_text e.attr.attr_type p v ≡ some q
      → do_report_property sdk d (some k) (some v)
        ≡ some (stored_report sdk d k (record e.attr { mem = some q }))
  unfolding do_report_property
  do_report_property-stored d k v p q e f ty m st =
      let found : do_report_property sdk d (some k) (some v)
          ≡ report_attr sdk d k e.attr e.attr.attr_type v =
        rw (f, do_report_property) refl in
      found ∙ report_attr-stored d k v p q e.attr e.attr.attr_type ty m st

  -- Where, with a handle that is not NULL, another thread reports an INT32 or STRING attribute after the
  -- push of pushProperties and before the reset of the flags, the text is stored in the attribute's
  -- memory, and the one push that the report makes is refused: doReportProperty returns 0 all the same,
  -- and once the flags are reset the attribute has the new value and still waits for its report, but the
  -- next pushProperties asks nothing of the SDK and changes nothing.
  pub report_forgotten :
      (d : Shadow) (k v p q : Bytes) (e : DsAttr)
      → d.shadow ≢ 0
      → find k d.attrs ≡ some e
      → (e.attr.attr_type ≡ int32) ⊎ (e.attr.attr_type ≡ string)
      → e.attr.mem ≡ some p
      → store_text e.attr.attr_type p v ≡ some q
      → is_zero (sdk.result (send_due sdk d).0.calls (own_push d.shadow e q)) ≡ false
      → Succeeds
          (λ ((d', ret) : Shadow × ℤ).
            (ret ≡ pos 0)
            × (d'.calls ≡ (send_due sdk d).0.calls ++ own_push d.shadow e q ∷ [])
            × (find k (lower_flags d').attrs ≡ some (waiting_with e q))
            × (push_properties sdk (lower_flags d') ≡ (lower_flags d', pos 0)))
          (do_report_property sdk (send_due sdk d).0 (some k) (some v))
  unfolding lower_flags push_properties
  report_forgotten d k v p q e u f ty m st bad =
      let sent : Shadow = (send_due sdk d).0 in
      let (attrs, handle) = send_due-attrs sdk d in
      let found : find k sent.attrs ≡ some (set_report false e) =
        rw attrs (find-none_due k d.attrs e f) in
      rw (do_report_property-stored sent k v p q (set_report false e) found ty m st) (
        go (stored_report sdk sent k (record e.attr { mem = some q }))
          (stored_report-Marked sent k q (set_report false e) (rw handle u) found (rw handle bad)))
    where
      go :
          (r : Shadow × ℤ)
          → Marked (send_due sdk d).0 k (set_report false e) q r
          → (r.1 ≡ pos 0)
            × (r.0.calls ≡ (send_due sdk d).0.calls ++ own_push d.shadow e q ∷ [])
            × (find k (lower_flags r.0).attrs ≡ some (waiting_with e q))
            × (push_properties sdk (lower_flags r.0) ≡ (lower_flags r.0, pos 0))
      go r (z, here, c) = (
        z,
        subst (λ h. r.0.calls ≡ (send_due sdk d).0.calls ++ own_push h e q ∷ [])
            (send_due-attrs sdk d).1 c,
        here,
        refl,
      )
