-- ===== src/Java/Globals.antt =====
-- The global references of jni/client/IOT_PropertyCB.cpp and IOT_CommandCB.cpp: the constructors make
-- them and the destructors release them.
use java_iotwrap.Common.{
  ℕ, ◌+◌, ◌-◌, ◌≡◌, ap, ◌∙◌, inl, inr, true, arith, ◌==◌, if◌then◌else◌, Bool-cases, Bytes, codes,
}
use java_iotwrap.Java.{
  Jni, new_property_cb, new_command_cb, drop_refs, drop_property_cb, drop_command_cb,
}

-- The number of global references; the release of NULL does nothing.
pub record CountsGlobals {J : Type 0} (jni : Jni J) : Type 0 where
  pub globals : J → ℕ
  pub globals-new_global_ref :
      (j : J) (o : ℕ)
      → globals (jni.new_global_ref j o).0
        ≡ (if (jni.new_global_ref j o).1 == 0 then globals j else globals j + 1)
  pub globals-delete_global_ref :
      (j : J) (o : ℕ)
      → globals (jni.delete_global_ref j o) ≡ (if o == 0 then globals j else globals j - 1)
  pub globals-get_static_method_id :
      (j : J) (c : ℕ) (name signature : Bytes)
      → globals (jni.get_static_method_id j c name signature).0 ≡ globals j

module _ {J : Type 0} (jni : Jni J) (L : CountsGlobals jni) where
  open L use {globals}

  -- The references that two members hold.
  abbrev held : ℕ → ℕ → ℕ
  held object class = (if object == 0 then 0 else 1) + (if class == 0 then 0 else 1)

  drop_refs_lem :
      (object class : ℕ) (j : J) (n : ℕ)
      → globals j ≡ n + held object class
      → globals (drop_refs jni true object class j) ≡ n
  unfolding drop_refs
  drop_refs_lem object class j n h =
      let first = L.globals-delete_global_ref j object in
      let second = L.globals-delete_global_ref (jni.delete_global_ref j object) class in
      ground (arith, first, second, h)

  made_two :
      (j : J) (clazz thiz : ℕ)
      → let (j1, c) = jni.new_global_ref j clazz in
        let (j2, o) = jni.new_global_ref j1 thiz in globals j2 ≡ globals j + held o c
  made_two j clazz thiz =
      let j1 = (jni.new_global_ref j clazz).0 in
      ground (arith, L.globals-new_global_ref j clazz, L.globals-new_global_ref j1 thiz)

  new_property_cb-held :
      (j : J) (clazz thiz : ℕ)
      → let (j', cb) = new_property_cb jni j clazz thiz in
        globals j' ≡ globals j + held cb.object cb.class
  unfolding new_property_cb
  new_property_cb-held j clazz thiz =
      let get_text = codes "(Ljava/lang/Object;Ljava/lang/String;)Ljava/lang/String;" in
      let set_text = codes "(Ljava/lang/Object;Ljava/lang/String;Ljava/lang/String;)V" in
      let (j1, get_id) = jni.get_static_method_id j clazz (codes "_iotPropertyGet") get_text in
      let (j2, set_id) = jni.get_static_method_id j1 clazz (codes "_iotPropertySet") set_text in
      let first = L.globals-get_static_method_id j clazz (codes "_iotPropertyGet") get_text in
      let second = L.globals-get_static_method_id j1 clazz (codes "_iotPropertySet") set_text in
      elim (Bool-cases (get_id == 0)) [
        | inl t ↦ rw t (omega (arith, first))
        | inr t ↦ elim (Bool-cases (set_id == 0)) [
          | inl u ↦ rw (t, u) (omega (arith, first, second))
          | inr u ↦
              let (j3, c) = jni.new_global_ref j2 clazz in
              let o = (jni.new_global_ref j3 thiz).1 in
              rw (t, u) (made_two j2 clazz thiz ∙ ap (λ n. n + held o c) (second ∙ first))
        ]
      ]

  new_command_cb-held :
      (j : J) (clazz thiz : ℕ)
      → let (j', cb) = new_command_cb jni j clazz thiz in
        globals j' ≡ globals j + held cb.object cb.class
  unfolding new_command_cb
  new_command_cb-held j clazz thiz =
      let text = codes "(Ljava/lang/Object;Ljava/lang/String;Ljava/lang/String;)V" in
      let (j1, id) = jni.get_static_method_id j clazz (codes "_iotCommandCallback") text in
      let first = L.globals-get_static_method_id j clazz (codes "_iotCommandCallback") text in
      elim (Bool-cases (id == 0)) [
        | inl t ↦ rw t (omega (arith, first))
        | inr t ↦
            let (j2, c) = jni.new_global_ref j1 clazz in
            let o = (jni.new_global_ref j2 thiz).1 in
            rw t (made_two j1 clazz thiz ∙ ap (λ n. n + held o c) first)
      ]

  -- A callback object that is destroyed on an attached thread leaves as many global references as there
  -- were before its constructor, if there are as many as after its constructor when it is destroyed,
  -- whether or not the methods are found and the references can be made.
  pub callbacks_freed :
      (j k k' : J) (clazz thiz : ℕ)
      → globals k ≡ globals (new_property_cb jni j clazz thiz).0
      → globals k' ≡ globals (new_command_cb jni j clazz thiz).0
      → (globals (drop_property_cb jni true (new_property_cb jni j clazz thiz).1 k) ≡ globals j)
        × (globals (drop_command_cb jni true (new_command_cb jni j clazz thiz).1 k') ≡ globals j)
  unfolding drop_property_cb drop_command_cb
  callbacks_freed j k k' clazz thiz e e' = (
    drop_refs_lem _ _ k (globals j) (e ∙ new_property_cb-held j clazz thiz),
    drop_refs_lem _ _ k' (globals j) (e' ∙ new_command_cb-held j clazz thiz),
  )
