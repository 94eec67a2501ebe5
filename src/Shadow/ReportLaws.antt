-- ===== src/Shadow/ReportLaws.antt =====
-- doReportProperty of jni/server/IOT_DeviceShadow.cpp: what is stored, what is due, and when the
-- store leaves the attribute's memory.
use java_iotwrap.Common.{
  ℕ, ◌≤◌, ◌<◌, ◌≡◌, refl, ap, sym, ◌∙◌, ◌⊎◌, inl, inr, true, false, Bool, not, ◌∷◌, ◌++◌, none,
  some, ◌>>=◌, Succeeds, Bool-cases, arith, ◌==◌, if◌then◌else◌, Bytes, ℤ, pos, is_zero, ◌^◌,
  length, drop, append_assoc, same, same_refl, c_str, c_str-append, NoNul, All-append, All-drop,
  drop-append_le, length-append, Succeeds-mono,
}
use java_iotwrap.StdMap.{find, modify}
use java_iotwrap.StdMap.Laws.{find-modify}
use java_iotwrap.Shadow.{Attr, AttrType, int32, string, DsAttr, push, Sdk, Shadow, set_report}
use java_iotwrap.Shadow.Value.{int32_bytes, read_int32, atoi}
use java_iotwrap.Shadow.Report.{
  urgent_payload, urgent_report, stored_report, report_attr, do_report_property,
}
use java_iotwrap.Shadow.ValueLaws.{
  store_text-string, store_text-string_outside, store_text-int32, store_text-int32_outside,
  read-write_int32,
}

module _ (sdk : Sdk) where
  -- After a report: still due unless the urgent push was made and succeeded.
  abbrev due_after : Shadow → Attr → Bool
  due_after d a =
      if d.shadow == 0
      then true
      else not (is_zero (sdk.result d.calls (push d.shadow (urgent_payload sdk d.shadow a))))

  -- The entry, the flags and the service after the value is stored.
  abbrev pub IsReported : Shadow → Bytes → DsAttr → Bytes → Shadow × ℤ → Type 0
  IsReported d key e q (d', ret) =
      let a : Attr = record e.attr { mem = some q } in
      (ret ≡ pos 0)
      × (find key d'.attrs ≡ some (record e { report = due_after d a; attr = a }))
      × ((j : Bytes) → same j key ≡ false → find j d'.attrs ≡ find j d.attrs)
      × (d'.report_flag ≡ true)

  stored_report-IsReported :
      (d : Shadow) (key : Bytes) (e : DsAttr) (q : Bytes)
      → find key d.attrs ≡ some e
      → IsReported d key e q (stored_report sdk d key (record e.attr { mem = some q }))
  unfolding stored_report urgent_report
  stored_report-IsReported d key e q h = elim (Bool-cases (d.shadow == 0)) [
    | inl z ↦ rw z (refl, once, (λ j n. others j n), refl)
    | inr z ↦ elim (Bool-cases (is_zero answered)) [
      | inl r ↦ rw (z, r) (refl, twice, (λ j n. still j n), refl)
      | inr r ↦ rw (z, r) (refl, once, (λ j n. others j n), refl)
    ]
  ]
    where
      a : Attr
      a = record e.attr { mem = some q }

      answered : ℤ
      answered = sdk.result d.calls (push d.shadow (urgent_payload sdk d.shadow a))

      stored : DsAttr → DsAttr
      stored e' = record e' { report = true; attr = a }

      once : find key (modify key stored d.attrs) ≡ some (stored e)
      once = find-modify key key stored d.attrs ∙ rw (same_refl key, h)

      others :
          (j : Bytes) → same j key ≡ false → find j (modify key stored d.attrs) ≡ find j d.attrs
      others j n = find-modify key j stored d.attrs ∙ rw n

      twice :
          find key (modify key (set_report false) (modify key stored d.attrs))
          ≡ some (record e { report = false; attr = a })
      twice =
          find-modify key key (set_report false) (modify key stored d.attrs)
          ∙ rw (same_refl key, once)

      still :
          (j : Bytes)
          → same j key ≡ false
          → find j (modify key (set_report false) (modify key stored d.attrs)) ≡ find j d.attrs
      still j n =
          find-modify key j (set_report false) (modify key stored d.attrs) ∙ rw n (others j n)

  found :
      (d : Shadow) (key val : Bytes) (e : DsAttr)
      → find key d.attrs ≡ some e
      → do_report_property sdk d (some key) (some val)
        ≡ report_attr sdk d key e.attr e.attr.attr_type val
  unfolding do_report_property
  found d key val e h = rw (h, do_report_property)

  found_typed :
      (d : Shadow) (key val : Bytes) (e : DsAttr) (t : AttrType)
      → find key d.attrs ≡ some e
      → e.attr.attr_type ≡ t
      → do_report_property sdk d (some key) (some val) ≡ report_attr sdk d key e.attr t val
  found_typed d key val e t h q =
      found d key val e h ∙ ap (λ (u : AttrType). report_attr sdk d key e.attr u val) q

  report_attr-string :
      (d : Shadow) (key val p : Bytes) (e : DsAttr)
      → e.attr.mem ≡ some p
      → length val ≤ length p
      → report_attr sdk d key e.attr string val
        ≡ some (stored_report sdk d key (record e.attr { mem = some (val ++ drop (length val) p) }))
  unfolding report_attr
  report_attr-string d key val p e m fits = rw (m, store_text-string p val fits)

  -- A report of a STRING property whose text fits into the attribute's memory returns 0, puts the
  -- text, without a NUL, over the start of the memory, sets m_reportFlag, leaves every other
  -- attribute as it was, and leaves this one due unless the urgent push was made and succeeded.
  pub do_report_property-string :
      (d : Shadow) (key val p : Bytes) (e : DsAttr)
      → find key d.attrs ≡ some e
      → e.attr.attr_type ≡ string
      → e.attr.mem ≡ some p
      → length val ≤ length p
      → Succeeds
          (IsReported d key e (val ++ drop (length val) p))
          (do_report_property sdk d (some key) (some val))
  do_report_property-string d key val p e h t m fits =
      rw (found_typed d key val e string h t, report_attr-string d key val p e m fits)
        (stored_report-IsReported d key e (val ++ drop (length val) p) h)

  report_attr-int32 :
      (d : Shadow) (key val p : Bytes) (e : DsAttr) (w : ℕ)
      → e.attr.mem ≡ some p
      → atoi val ≡ some w
      → w < 2 ^ 32
      → 4 ≤ length p
      → report_attr sdk d key e.attr int32 val
        ≡ some (stored_report sdk d key (record e.attr { mem = some (int32_bytes w ++ drop 4 p) }))
  unfolding report_attr
  report_attr-int32 d key val p e w m a b fits = rw (m, store_text-int32 p val w a b fits)

  -- A report of an INT32 property whose text is a number of an `int`, to memory of four bytes or
  -- more, does the same with the number's bytes, and the number reads back from them.
  pub do_report_property-int32 :
      (d : Shadow) (key val p : Bytes) (e : DsAttr) (w : ℕ)
      → find key d.attrs ≡ some e
      → e.attr.attr_type ≡ int32
      → e.attr.mem ≡ some p
      → atoi val ≡ some w
      → w < 2 ^ 32
      → 4 ≤ length p
      → Succeeds
          (IsReported d key e (int32_bytes w ++ drop 4 p))
          (do_report_property sdk d (some key) (some val))
        × (read_int32 (int32_bytes w ++ drop 4 p) ≡ some w)
  do_report_property-int32 d key val p e w h t m a b fits = (
    rw (found_typed d key val e int32 h t, report_attr-int32 d key val p e w m a b fits)
        (stored_report-IsReported d key e (int32_bytes w ++ drop 4 p) h),
    (read-write_int32 p w fits b).1,
  )

  -- A report leaves the attribute's memory if the text of a STRING property is longer than the
  -- memory, or the memory of an INT32 property is shorter than four bytes, or was never allocated.
  pub do_report_property_overflow :
      (d : Shadow) (key val : Bytes) (e : DsAttr)
      → find key d.attrs ≡ some e
      → ((p : Bytes)
          → e.attr.attr_type ≡ string
          → e.attr.mem ≡ some p
          → length p < length val
          → do_report_property sdk d (some key) (some val) ≡ none)
        × ((p : Bytes)
            → e.attr.attr_type ≡ int32
            → e.attr.mem ≡ some p
            → length p < 4
            → do_report_property sdk d (some key) (some val) ≡ none)
        × (e.attr.mem ≡ none
            → (e.attr.attr_type ≡ int32) ⊎ (e.attr.attr_type ≡ string)
            → do_report_property sdk d (some key) (some val) ≡ none)
  unfolding report_attr
  do_report_property_overflow d key val e h = (
    (λ p t m lt. rw (found d key val e h, t, m, store_text-string_outside p val lt)),
    (λ p t m lt. rw (found d key val e h, t, m, store_text-int32_outside p val lt)),
    null,
  )
    where
      null :
          e.attr.mem ≡ none
          → (e.attr.attr_type ≡ int32) ⊎ (e.attr.attr_type ≡ string)
          → do_report_property sdk d (some key) (some val) ≡ none
      null m (inl t) = rw (found d key val e h, t, m)
      null m (inr t) = rw (found d key val e h, t, m)

-- A shorter text leaves the end of the old one: where the memory held the text `old`, what reads back
-- after the report of `val` is `val` with the rest of `old` behind it.
report_shorter :
    (sdk : Sdk) (d : Shadow) (key val old rest : Bytes) (e : DsAttr)
    → find key d.attrs ≡ some e
    → e.attr.attr_type ≡ string
    → e.attr.mem ≡ some (old ++ 0 ∷ rest)
    → NoNul old
    → NoNul val
    → length val ≤ length old
    → Succeeds
        (λ ((d', ret) : Shadow × ℤ).
          Succeeds
            (λ (e' : DsAttr). (e'.attr.mem >>= c_str) ≡ some (val ++ drop (length val) old))
            (find key d'.attrs))
        (do_report_property sdk d (some key) (some val))
report_shorter sdk d key val old rest e h t m ho hv le =
    Succeeds-mono _ _ (do_report_property sdk d (some key) (some val)) reads (
      do_report_property-string sdk d key val (old ++ 0 ∷ rest) e h t m
        (omega (arith, length-append old (0 ∷ rest))))
  where
    stored : Bytes
    stored = val ++ drop (length val) (old ++ 0 ∷ rest)

    shape : stored ≡ (val ++ drop (length val) old) ++ 0 ∷ rest
    shape =
        ap (◌++◌ val) (drop-append_le (length val) old (0 ∷ rest) le)
        ∙ sym (append_assoc val (drop (length val) old) (0 ∷ rest))

    text : c_str stored ≡ some (val ++ drop (length val) old)
    text =
        ap c_str shape
        ∙ c_str-append (val ++ drop (length val) old) rest
            (All-append _ val (drop (length val) old) hv (All-drop _ (length val) old ho))

    reads :
        (r : Shadow × ℤ)
        → IsReported sdk d key e stored r
        → Succeeds
            (λ (e' : DsAttr). (e'.attr.mem >>= c_str) ≡ some (val ++ drop (length val) old))
            (find key r.0.attrs)
    reads (d', ret) (z, there, others, flag) = rw there text
