-- ===== src/Java/Answers.antt =====
-- From the Java method that gives a property's value to the service: jni/client/IOT_PropertyCB.cpp
-- behind jni/binder/IIOTPropertyCB.cpp.
use java_iotwrap.Common.{
  ◌≡◌, ◌≢◌, refl, ap, true, false, none, some, arith, ◌==◌, ◌||◌, Bytes, [], ℤ, pos, minus_one,
  Succeeds,
}
use java_iotwrap.Java.{
  Jni, PropertyCb, CommandCb, jstring_to_string8, get_with, property_get, java_callbacks,
}
use java_iotwrap.Binder.{Parcels, IsLawful, Transact}
use java_iotwrap.Binder.Callbacks.{Callbacks, bn_command_cb, bn_property_cb, binder_callbacks}
use java_iotwrap.Binder.CallbackCalls.{binder_callbacks_lem}

abbrev pub Got : {J : Type 0} → ℤ → Bytes → J × ℤ × Bytes → Type 0
Got ret s (j', ret', s') = (ret' ≡ ret) × (s' ≡ s)

module _ (P : Parcels) (L : IsLawful P) {J : Type 0} (jni : Jni J) (base : Transact P J) where
  -- The client's callbacks through the binder, on a thread that is attached to Java.
  abbrev pub remote_callbacks : PropertyCb → CommandCb → Callbacks J
  remote_callbacks p c =
      let m = java_callbacks jni true p c in
      binder_callbacks P (bn_command_cb P m base) (bn_property_cb P m base)

  -- Where a parcel gives back the items that were written to it, in their order, transactions reach the
  -- other process, the binder thread that answers is attached to the Java machine, and neither the
  -- client's class nor its method is NULL: the service's `get` on that client, for a key that can be made
  -- a string of Java, replaces the text it is called with and gives 0. The new text is the one that the Java
  -- method returns, and it is empty if the method returns null or its text cannot be read. If the key
  -- cannot be made a string, the text is empty too, and the result is -1.
  pub remote_get_lem :
      (p : PropertyCb) (c : CommandCb) (j : J) (key old : Bytes)
      → p.class ≢ 0
      → p.property_get ≢ 0
      → let (j1, jkey) = jni.new_string_utf j key in
        let (j2, jval) = jni.call_get j1 p.class p.property_get p.object jkey in
        let answer = (remote_callbacks p c).get j key old in
        (jkey ≡ 0 → Succeeds (Got minus_one []) answer)
        × (jkey ≢ 0 → jval ≡ 0 → Succeeds (Got (pos 0) []) answer)
        × (jkey ≢ 0
            → jval ≢ 0
            → (jni.get_string_utf_chars j2 jval).1 ≡ none
            → Succeeds (Got (pos 0) []) answer)
        × ((s : Bytes)
            → jkey ≢ 0
            → jval ≢ 0
            → (jni.get_string_utf_chars j2 jval).1 ≡ some s
            → Succeeds (Got (pos 0) s) answer)
  unfolding java_callbacks property_get get_with jstring_to_string8
  remote_get_lem p c j key old n m =
      let (j1, jkey) = jni.new_string_utf j key in
      let (j2, jval) = jni.call_get j1 p.class p.property_get p.object jkey in
      let bound : (p.class == 0 || p.property_get == 0) ≡ false = ground arith in
      let e : (remote_callbacks p c).get ≡ (λ j key val. property_get jni true p j key []) =
        ap (λ (k : Callbacks J). k.get)
          (binder_callbacks_lem P L (java_callbacks jni true p c) base) in
      rw e (
        (λ a. let z : (jkey == 0) ≡ true = ground arith in rw z (refl, refl)),
        (λ a b.
            let z : (jkey == 0) ≡ false = ground arith in
            let y : (jval == 0) ≡ true = ground arith in rw (z, bound, y) (refl, refl)),
        (λ a b h.
            let z : (jkey == 0) ≡ false = ground arith in
            let y : (jval == 0) ≡ false = ground arith in
            rw (z, bound, y, h, jstring_to_string8) (refl, refl)),
        (λ s a b h.
            let z : (jkey == 0) ≡ false = ground arith in
            let y : (jval == 0) ≡ false = ground arith in
            rw (z, bound, y, h, jstring_to_string8) (refl, refl)),
      )
