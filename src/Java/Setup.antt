-- ===== src/Java/Setup.antt =====
-- The set-up of jni/IOT_JNI.cpp and the constructors of jni/client: what the callbacks need is there
-- after them, or is not.
use java_iotwrap.Common.{ℕ, ◌≡◌, ◌≢◌, refl, true, false, none, arith, ◌==◌, ==_iff, Bytes, codes}
use java_iotwrap.ClientJni.{init}
use java_iotwrap.Java.{
  Jni, PropertyCb, CommandCb, jstring_to_string8, new_property_cb, new_command_cb, property_get,
  get_with,
}
use java_iotwrap.Java.Natives.{Process, setup}

-- The class has the three static methods, and global references can be made.
pub record HasMethods {J : Type 0} (jni : Jni J) (clazz : ℕ) : Type 0 where
  pub has_get :
      (j : J)
      → (jni.get_static_method_id j clazz
          (codes "_iotPropertyGet")
          (codes "(Ljava/lang/Object;Ljava/lang/String;)Ljava/lang/String;")).1
        ≢ 0
  pub has_set :
      (j : J)
      → (jni.get_static_method_id j clazz
          (codes "_iotPropertySet")
          (codes "(Ljava/lang/Object;Ljava/lang/String;Ljava/lang/String;)V")).1
        ≢ 0
  pub has_callback :
      (j : J)
      → (jni.get_static_method_id j clazz
          (codes "_iotCommandCallback")
          (codes "(Ljava/lang/Object;Ljava/lang/String;Ljava/lang/String;)V")).1
        ≢ 0
  pub has_room : (j : J) (o : ℕ) → (jni.new_global_ref j o).1 ≢ 0

is_null : (n : ℕ) → n ≢ 0 → (n == 0) ≡ false
is_null n h = ground arith

module _ {J : Type 0} (jni : Jni J) where
  -- The members that the callbacks' calls use.
  abbrev pub IsBound : PropertyCb → CommandCb → Type 0
  IsBound p c =
      (p.class ≢ 0)
      × (p.property_get ≢ 0)
      × (p.property_set ≢ 0)
      × (c.class ≢ 0)
      × (c.control_cb ≢ 0)

  property_cb_bound :
      (j : J) (clazz thiz : ℕ)
      → HasMethods jni clazz
      → let cb = (new_property_cb jni j clazz thiz).1 in
        (cb.class ≢ 0) × (cb.property_get ≢ 0) × (cb.property_set ≢ 0)
  unfolding new_property_cb
  property_cb_bound j clazz thiz h =
      let j1 =
        (jni.get_static_method_id j clazz (codes "_iotPropertyGet")
          (codes "(Ljava/lang/Object;Ljava/lang/String;)Ljava/lang/String;")).0 in
      let j2 =
        (jni.get_static_method_id j1 clazz (codes "_iotPropertySet")
          (codes "(Ljava/lang/Object;Ljava/lang/String;Ljava/lang/String;)V")).0 in
      rw (is_null _ (h.has_get j), is_null _ (h.has_set j1))
        (h.has_room j2 clazz, h.has_get j, h.has_set j1)

  command_cb_bound :
      (j : J) (clazz thiz : ℕ)
      → HasMethods jni clazz
      → let cb = (new_command_cb jni j clazz thiz).1 in (cb.class ≢ 0) × (cb.control_cb ≢ 0)
  unfolding new_command_cb
  command_cb_bound j clazz thiz h =
      let j1 =
        (jni.get_static_method_id j clazz (codes "_iotCommandCallback")
          (codes "(Ljava/lang/Object;Ljava/lang/String;Ljava/lang/String;)V")).0 in
      rw (is_null _ (h.has_callback j)) (h.has_room j1 clazz, h.has_callback j)

  -- __native_setup of an object whose class has the three static methods, where global references can
  -- be made, gives the library its callbacks, and each of their calls has its class and its method.
  pub setup_binds :
      (s : Process J) (clazz ref_obj client_id p c : ℕ)
      → clazz ≢ 0
      → HasMethods jni clazz
      → let s' = setup jni s clazz ref_obj client_id p c in
        (s'.library.property_cb ≡ p) × (s'.library.command_cb ≡ c) × IsBound s'.property s'.command
  unfolding setup
  setup_binds s clazz ref_obj client_id p c n h =
      let j1 = (jstring_to_string8 jni s.java client_id).0 in
      let j2 = (new_property_cb jni j1 clazz ref_obj).0 in
      let (a, b, e) = property_cb_bound j1 clazz ref_obj h in
      let (f, g) = command_cb_bound j2 clazz ref_obj h in
      rw (is_null clazz n) (unfold init in refl, unfold init in refl, (a, b, e, f, g))

  -- If only _iotPropertySet is missing, the constructor keeps the method for `get` but not the class,
  -- and `get` then calls a method of a NULL class as soon as its key is a string of Java.
  missing_set :
      (j k : J) (clazz thiz : ℕ) (key val : Bytes)
      → ((i : J)
          → (jni.get_static_method_id i clazz
              (codes "_iotPropertyGet")
              (codes "(Ljava/lang/Object;Ljava/lang/String;)Ljava/lang/String;")).1
            ≢ 0)
      → ((i : J)
          → (jni.get_static_method_id i clazz
              (codes "_iotPropertySet")
              (codes "(Ljava/lang/Object;Ljava/lang/String;Ljava/lang/String;)V")).1
            ≡ 0)
      → (jni.new_string_utf k key).1 ≢ 0
      → property_get jni true (new_property_cb jni j clazz thiz).1 k key val ≡ none
  unfolding new_property_cb property_get get_with
  missing_set j k clazz thiz key val h m n =
      let j1 =
        (jni.get_static_method_id j clazz (codes "_iotPropertyGet")
          (codes "(Ljava/lang/Object;Ljava/lang/String;)Ljava/lang/String;")).0 in
      let gone : ((jni.get_static_method_id j1 clazz (codes "_iotPropertySet")
              (codes "(Ljava/lang/Object;Ljava/lang/String;Ljava/lang/String;)V")).1
            == 0)
          ≡ true =
        (==_iff _ 0).1 (m j1) in
      rw (is_null _ (h j), gone, is_null _ n) refl
