-- ===== src/Shadow/Kept.antt =====
-- doAddProperty and doReportProperty of jni/server/IOT_DeviceShadow.cpp keep the attributes' invariant.
use java_iotwrap.Common.{
  ℕ, zero, suc, ◌≡◌, refl, ap, sym, subst, ◌∙◌, inl, inr, Bool, true, false, Option, none, some,
  Ensures, Ensures-bind, Ensures-any, Bool-cases, ◌==◌, Bytes, ℤ, pos, negsuc, minus_one, is_zero,
}
use mathlib.Core.Option.{some-injective}
use java_iotwrap.StdMap.{find, insert, modify}
use java_iotwrap.StdMap.Laws.{insert-IsSorted}
use java_iotwrap.Shadow.{
  AttrType, int32, string, other, AttrCallback, default_property, Attr, DsAttr, push, Sdk, Shadow,
  Alloc, new_property, add_entry, set_report,
}
use java_iotwrap.Shadow.Report.{
  property_type, positive_size, register_late, do_add_property, urgent_payload, urgent_report,
  stored_report, report_attr, do_report_property,
}
use java_iotwrap.Shadow.Value.{store_text}
use java_iotwrap.Shadow.Invariant.{
  IsKnown, MapIsValid, SameKind, modify-MapIsValid, insert-EntriesAreValid,
}

abbrev pub IsValid : Shadow → Type 0
IsValid d = MapIsValid d.attrs

new_property-named :
    (m : Alloc) (name : Bytes) (t : AttrType) (n : ℕ) (cb : AttrCallback)
    → Ensures (λ a. (a.name ≡ name) × (a.attr_type ≡ t)) (new_property m name t n cb)
unfolding new_property
new_property-named m name t n cb = elim (Bool-cases m.gives_attr) [
  | inl a ↦ elim (Bool-cases m.gives_name) [ inl b ↦ rw (a, b) (refl, refl) | inr b ↦ rw (a, b) tt ]
  | inr a ↦ rw a tt
]

pub add_entry-IsValid :
    (m : Alloc) (d : Shadow) (name : Bytes) (t : AttrType) (n : ℕ) (cb : AttrCallback) (l : Bool)
    → IsKnown t
    → IsValid d
    → IsValid (add_entry m d name t n cb l).0
unfolding add_entry
add_entry-IsValid m d name t n cb l k v =
    go (find name d.attrs) (new_property m name t n cb) (new_property-named m name t n cb)
  where
    go :
        (o : Option DsAttr) (a : Option Attr)
        → Ensures (λ a'. (a'.name ≡ name) × (a'.attr_type ≡ t)) a
        → IsValid (
            let r : Shadow × Option Attr = elim o [
              | some e ↦ (d, none)
              | none ↦ elim a [
                | none ↦ (d, none)
                | some a' ↦ (
                  record d {
                    attrs =
                        insert name (record { report = false; is_local = l; attr = a' }) d.attrs;
                  },
                  some a',
                )
              ]
            ] in
            r.0)
    go (some e) a h = v
    go none none h = v
    go none (some a) h = (
      insert-IsSorted name _ d.attrs v.0,
      insert-EntriesAreValid name _ d.attrs (h.0, subst IsKnown (sym h.1) k) v.1,
    )

property_type-IsKnown : (type : ℤ) (t : AttrType) → property_type type ≡ some t → IsKnown t
property_type-IsKnown (pos zero) t h = cc
property_type-IsKnown (pos (suc zero)) t h = inl (sym (some-injective _ _ h))
property_type-IsKnown (pos (suc (suc zero))) t h = inr (sym (some-injective _ _ h))
property_type-IsKnown (pos (suc (suc (suc n)))) t h = cc
property_type-IsKnown (negsuc n) t h = cc

module _ (sdk : Sdk) where
  register_late-IsValid :
      (d : Shadow) (o : Option Attr) → IsValid d → IsValid (register_late sdk (d, o))
  unfolding register_late
  register_late-IsValid d none v = v
  register_late-IsValid d (some a) v = elim (Bool-cases (d.shadow == 0)) [
    | inl z ↦ rw z v
    | inr z ↦ rw z v
  ]

  pub do_add_property-IsValid :
      (m : Alloc) (d : Shadow) (k : Option Bytes) (type size : ℤ)
      → IsValid d
      → IsValid (do_add_property sdk m d k type size).0
  unfolding do_add_property
  do_add_property-IsValid m d none type size v = v
  do_add_property-IsValid m d (some k) type size v =
      go (positive_size size) (property_type type) (property_type-IsKnown type)
    where
      go :
          (n : Option ℕ) (t : Option AttrType)
          → ((u : AttrType) → t ≡ some u → IsKnown u)
          → IsValid (
              let r : Shadow × ℤ = elim n [
                | none ↦ (d, minus_one)
                | some n' ↦ elim t [
                  | none ↦ (d, minus_one)
                  | some t' ↦
                      (register_late sdk (add_entry m d k t' n' default_property false), pos 0)
                ]
              ] in
              r.0)
      go none t h = v
      go (some n) none h = v
      go (some n) (some t) h =
          register_late-IsValid (add_entry m d k t n default_property false).0
            (add_entry m d k t n default_property false).1
            (add_entry-IsValid m d k t n default_property false (h t refl) v)

  stored_report-IsValid :
      (d : Shadow) (k : Bytes) (a : Attr) (e : DsAttr)
      → find k d.attrs ≡ some e
      → a.name ≡ e.attr.name
      → a.attr_type ≡ e.attr.attr_type
      → IsValid d
      → IsValid (stored_report sdk d k a).0
  unfolding stored_report urgent_report
  stored_report-IsValid d k a e h n t v = elim (Bool-cases (d.shadow == 0)) [
    | inl z ↦ rw z stored
    | inr z ↦ rw z (elim (Bool-cases (is_zero answered)) [
      | inl r ↦ rw r (modify-MapIsValid k (set_report false) _ (λ e' _. (refl, refl)) stored)
      | inr r ↦ rw r stored
    ])
  ]
    where
      answered : ℤ
      answered = sdk.result d.calls (push d.shadow (urgent_payload sdk d.shadow a))

      put : DsAttr → DsAttr
      put e' = record e' { report = true; attr = a }

      same_entry : (e' : DsAttr) → find k d.attrs ≡ some e' → SameKind e' (put e')
      same_entry e' h' =
          let q : e ≡ e' = some-injective _ _ (sym h ∙ h') in
          (n ∙ ap (λ x. x.attr.name) q, t ∙ ap (λ x. x.attr.attr_type) q)

      stored : MapIsValid (modify k put d.attrs)
      stored = modify-MapIsValid k put d.attrs same_entry v

  abbrev pub Kept : Shadow × ℤ → Type 0
  Kept (d', r) = IsValid d'

  report_attr-IsValid :
      (d : Shadow) (k val : Bytes) (e : DsAttr) (t : AttrType)
      → find k d.attrs ≡ some e
      → IsValid d
      → Ensures Kept (report_attr sdk d k e.attr t val)
  unfolding report_attr
  report_attr-IsValid d k val e int32 h v =
      Ensures-bind (λ _. Unit) Kept e.attr.mem _
        (λ p _.
          Ensures-bind (λ _. Unit) Kept (store_text int32 p val) _
            (λ q _. stored_report-IsValid d k (record e.attr { mem = some q }) e h refl refl v)
            (Ensures-any (store_text int32 p val)))
        (Ensures-any e.attr.mem)
  report_attr-IsValid d k val e string h v =
      Ensures-bind (λ _. Unit) Kept e.attr.mem _
        (λ p _.
          Ensures-bind (λ _. Unit) Kept (store_text string p val) _
            (λ q _. stored_report-IsValid d k (record e.attr { mem = some q }) e h refl refl v)
            (Ensures-any (store_text string p val)))
        (Ensures-any e.attr.mem)
  report_attr-IsValid d k val e (other n) h v =
      modify-MapIsValid k (set_report true) d.attrs (λ e' _. (refl, refl)) v

  pub do_report_property-IsValid :
      (d : Shadow) (k v : Option Bytes) → IsValid d → Ensures Kept (do_report_property sdk d k v)
  unfolding do_report_property
  do_report_property-IsValid d none v i = i
  do_report_property-IsValid d (some k) none i = i
  do_report_property-IsValid d (some k) (some v) i = go (find k d.attrs) refl
    where
      go :
          (o : Option DsAttr)
          → find k d.attrs ≡ o
          → Ensures Kept (elim o [
            | none ↦ some (d, minus_one)
            | some e ↦ report_attr sdk d k e.attr e.attr.attr_type v
          ])
      go none h = i
      go (some e) h = report_attr-IsValid d k v e e.attr.attr_type h i
