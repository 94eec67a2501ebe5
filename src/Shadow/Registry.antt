-- ===== src/Shadow/Registry.antt =====
-- doAddProperty of jni/server/IOT_DeviceShadow.cpp on every outcome of its tests and allocations.
use java_iotwrap.Common.{
  ℕ, ◌≡◌, ◌≢◌, refl, ◌∙◌, inl, inr, true, false, [], ◌∷◌, ◌++◌, Option, none, some, Bool-cases,
  Option-cases, arith, ◌==◌, if◌then◌else◌, Bytes, ℤ, pos, replicate, same, same_refl,
}
use java_iotwrap.StdMap.{find, insert}
use java_iotwrap.StdMap.Laws.{find-insert_new}
use java_iotwrap.Shadow.{
  AttrType, Attr, default_property, DsAttr, register_attribute, Sdk, Shadow, Alloc, new_property,
  add_entry,
}
use java_iotwrap.Shadow.Report.{property_type, positive_size, register_late, do_add_property}

abbrev pub new_attr : Bytes → AttrType → ℕ → Attr
new_attr name t n = record {
  name = name;
  mem = some (replicate n 0);
  attr_type = t;
  callback = default_property;
}

abbrev pub HasMemory : Alloc → Type 0
HasMemory m = (m.gives_attr ≡ true) × (m.gives_name ≡ true) × (m.gives_data ≡ true)

new_property_given :
    (m : Alloc) (name : Bytes) (t : AttrType) (n : ℕ)
    → HasMemory m
    → new_property m name t n default_property ≡ some (new_attr name t n)
unfolding new_property
new_property_given m name t n h = ground arith

new_property_refused :
    (m : Alloc) (name : Bytes) (t : AttrType) (n : ℕ)
    → m.gives_attr ≡ false
    → new_property m name t n default_property ≡ none
unfolding new_property
new_property_refused m name t n h = ground arith

add_entry_new :
    (m : Alloc) (d : Shadow) (name : Bytes) (t : AttrType) (n : ℕ) (o : Option Attr)
    → find name d.attrs ≡ none
    → new_property m name t n default_property ≡ o
    → add_entry m d name t n default_property false ≡ (elim o [
      | none ↦ (d, none)
      | some a ↦ (
        record d {
          attrs = insert name (record { report = false; is_local = false; attr = a }) d.attrs;
        },
        some a,
      )
    ])
unfolding add_entry
add_entry_new m d name t n o h e = rw (h, add_entry, e)

add_entry_old :
    (m : Alloc) (d : Shadow) (name : Bytes) (t : AttrType) (n : ℕ) (e : DsAttr)
    → find name d.attrs ≡ some e
    → add_entry m d name t n default_property false ≡ (d, none)
unfolding add_entry
add_entry_old m d name t n e h = rw (h, add_entry)

module _ (sdk : Sdk) (m : Alloc) where
  accepted :
      (d : Shadow) (name : Bytes) (type size : ℤ) (t : AttrType) (n : ℕ)
      → property_type type ≡ some t
      → positive_size size ≡ some n
      → do_add_property sdk m d (some name) type size
        ≡ (register_late sdk (add_entry m d name t n default_property false), pos 0)
  unfolding do_add_property
  accepted d name type size t n ht hn = rw (hn, do_add_property, ht)

  -- A property of a known type and a positive size is added with zeroed memory of that size if its
  -- name is new and there is memory, is given to the SDK if the shadow is up, and leaves every other
  -- attribute as it was. A name that is there keeps its attribute, and nothing is asked of the SDK.
  -- Either way the result is 0.
  pub do_add_property_lem :
      (d : Shadow) (name : Bytes) (type size : ℤ) (t : AttrType) (n : ℕ)
      → property_type type ≡ some t
      → positive_size size ≡ some n
      → HasMemory m
      → let (d', ret) = do_add_property sdk m d (some name) type size in
        (ret ≡ pos 0)
        × (find name d.attrs ≡ none
            → (find name d'.attrs
                ≡ some (record { report = false; is_local = false; attr = new_attr name t n }))
              × ((j : Bytes) → same j name ≡ false → find j d'.attrs ≡ find j d.attrs)
              × (d'.calls ≡ (
                  if d.shadow == 0
                  then d.calls
                  else d.calls ++ register_attribute d.shadow name ∷ [])))
        × (find name d.attrs ≢ none → d' ≡ d)
  unfolding register_late
  do_add_property_lem d name type size t n ht hn hm =
      rw (accepted d name type size t n ht hn) (refl, fresh, known)
    where
      added : Shadow
      added = record d {
        attrs =
            insert name (record { report = false; is_local = false; attr = new_attr name t n })
              d.attrs;
      }

      here :
          find name d.attrs ≡ none
          → find name added.attrs
            ≡ some (record { report = false; is_local = false; attr = new_attr name t n })
      here h =
          find-insert_new name name
            (record { report = false; is_local = false; attr = new_attr name t n }) d.attrs h
          ∙ rw (same_refl name)

      there :
          find name d.attrs ≡ none
          → (j : Bytes) → same j name ≡ false
          → find j added.attrs ≡ find j d.attrs
      there h j k = find-insert_new name j _ d.attrs h ∙ rw k

      fresh :
          find name d.attrs ≡ none
          → let d' = register_late sdk (add_entry m d name t n default_property false) in
            (find name d'.attrs
              ≡ some (record { report = false; is_local = false; attr = new_attr name t n }))
            × ((j : Bytes) → same j name ≡ false → find j d'.attrs ≡ find j d.attrs)
            × (d'.calls ≡ (
                if d.shadow == 0
                then d.calls
                else d.calls ++ register_attribute d.shadow name ∷ []))
      fresh h =
          rw (add_entry_new m d name t n _ h (new_property_given m name t n hm))
            (elim (Bool-cases (d.shadow == 0)) [
              | inl z ↦ rw z (here h, (λ j k. there h j k), refl)
              | inr z ↦ rw z (here h, (λ j k. there h j k), refl)
            ])

      known :
          find name d.attrs ≢ none
          → register_late sdk (add_entry m d name t n default_property false) ≡ d
      known h = elim (Option-cases (find name d.attrs)) [
        | inl e ↦ absurd (h e)
        | inr (e', e) ↦ rw (add_entry_old m d name t n e' e)
      ]

  -- The result is 0 also where an allocation failed and there is no such attribute.
  do_add_property_no_memory :
      (d : Shadow) (name : Bytes) (type size : ℤ) (t : AttrType) (n : ℕ)
      → property_type type ≡ some t
      → positive_size size ≡ some n
      → m.gives_attr ≡ false
      → find name d.attrs ≡ none
      → do_add_property sdk m d (some name) type size ≡ (d, pos 0)
  unfolding register_late
  do_add_property_no_memory d name type size t n ht hn hm h = rw (
    accepted d name type size t n ht hn,
    add_entry_new m d name t n none h (new_property_refused m name t n hm),
  )
