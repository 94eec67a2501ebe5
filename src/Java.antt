-- ===== src/Java.antt =====
-- jni/client/IOT_Helper.cpp, IOT_PropertyCB.cpp and IOT_CommandCB.cpp: the callbacks of a client's
-- process, which call its Java methods.
pub mod Natives
pub mod References
pub mod Answers
pub mod Setup
pub mod Globals
pub mod Journey
pub mod Reports
use java_iotwrap.Common.{
  ℕ, Bool, true, false, Option, none, some, ◌==◌, ◌||◌, if◌then◌else◌, Bytes, codes, [], ℤ, pos,
  minus_one,
}
use java_iotwrap.Binder.Callbacks.{Callbacks}

-- The Java runtime that the thread is attached to, over its state `J`. Strings, classes, methods and
-- objects are references, 0 being NULL.
pub record Jni (J : Type 0) : Type 0 where
  pub new_string_utf : J → Bytes → J × ℕ
  pub get_string_utf_chars : J → ℕ → J × Option Bytes
  pub release_string_utf_chars : J → ℕ → J
  pub delete_local_ref : J → ℕ → J
  pub new_global_ref : J → ℕ → J × ℕ
  pub delete_global_ref : J → ℕ → J
  pub get_static_method_id : J → ℕ → Bytes → Bytes → J × ℕ
  -- CallStaticObjectMethod with one string, and CallStaticVoidMethod with two, on a class, a method
  -- and the object that is handed on.
  pub call_get : J → ℕ → ℕ → ℕ → ℕ → J × ℕ
  pub call_void : J → ℕ → ℕ → ℕ → ℕ → ℕ → J

-- IOTPropertyCB and IOTCommandCB.
pub record PropertyCb : Type 0 where
  pub class : ℕ
  pub object : ℕ
  pub property_get : ℕ
  pub property_set : ℕ

pub record CommandCb : Type 0 where
  pub class : ℕ
  pub object : ℕ
  pub control_cb : ℕ

module _ {J : Type 0} (jni : Jni J) where
  open jni use {
    new_string_utf, get_string_utf_chars, release_string_utf_chars, delete_local_ref,
    new_global_ref, delete_global_ref, get_static_method_id, call_get, call_void,
  }

  -- JStringToString8 on a thread with an environment.
  unfoldable pub jstring_to_string8 : J → ℕ → J × Bytes
  jstring_to_string8 j jstr =
      let (j1, chars) = get_string_utf_chars j jstr in
      elim chars [ none ↦ (j1, []) | some s ↦ (release_string_utf_chars j1 jstr, s) ]

  -- The constructors. A method that is not found leaves the rest of the members NULL.
  unfoldable pub new_property_cb : J → ℕ → ℕ → J × PropertyCb
  new_property_cb j clazz thiz =
      let (j1, get_id) =
        get_static_method_id j clazz (codes "_iotPropertyGet")
          (codes "(Ljava/lang/Object;Ljava/lang/String;)Ljava/lang/String;") in
      if get_id == 0
      then (j1, record { class = 0; object = 0; property_get = 0; property_set = 0 })
      else (let (j2, set_id) =
            get_static_method_id j1 clazz (codes "_iotPropertySet")
              (codes "(Ljava/lang/Object;Ljava/lang/String;Ljava/lang/String;)V") in
          if set_id == 0
          then (j2, record { class = 0; object = 0; property_get = get_id; property_set = 0 })
          else (let (j3, c) = new_global_ref j2 clazz in
              let (j4, o) = new_global_ref j3 thiz in
              (j4, record { class = c; object = o; property_get = get_id; property_set = set_id })))

  unfoldable pub new_command_cb : J → ℕ → ℕ → J × CommandCb
  new_command_cb j clazz thiz =
      let (j1, id) =
        get_static_method_id j clazz (codes "_iotCommandCallback")
          (codes "(Ljava/lang/Object;Ljava/lang/String;Ljava/lang/String;)V") in
      if id == 0
      then (j1, record { class = 0; object = 0; control_cb = 0 })
      else (let (j2, c) = new_global_ref j1 clazz in
          let (j3, o) = new_global_ref j2 thiz in
          (j3, record { class = c; object = o; control_cb = id }))

  -- The destructors' common body, on the members m_object and m_class.
  unfoldable pub drop_refs : Bool → ℕ → ℕ → J → J
  drop_refs attached object class j =
      if attached then delete_global_ref (delete_global_ref j object) class else j

  unfoldable pub drop_property_cb : Bool → PropertyCb → J → J
  unfolding drop_refs
  drop_property_cb attached cb = drop_refs attached cb.object cb.class

  unfoldable pub drop_command_cb : Bool → CommandCb → J → J
  unfolding drop_refs
  drop_command_cb attached cb = drop_refs attached cb.object cb.class

  -- The branch of IOTPropertyCB::get with a string; a call without a class or a method is undefined.
  unfoldable pub get_with : PropertyCb → J → ℕ → Bytes → Option (J × ℤ × Bytes)
  unfolding jstring_to_string8
  get_with cb j jkey val =
      if cb.class == 0 || cb.property_get == 0
      then none
      else (let (j1, jval) = call_get j cb.class cb.property_get cb.object jkey in
          if jval == 0
          then some (delete_local_ref j1 jkey, pos 0, val)
          else (let (j2, s) = jstring_to_string8 j1 jval in
              some (delete_local_ref (delete_local_ref j2 jval) jkey, pos 0, s)))

  -- IOTPropertyCB::get. `attached` is whether getJNIEnv gives an environment: it is used before it is
  -- tested.
  unfoldable pub property_get : Bool → PropertyCb → J → Bytes → Bytes → Option (J × ℤ × Bytes)
  unfolding get_with
  property_get attached cb j key val =
      if attached
      then (let (j1, jkey) = new_string_utf j key in
          if jkey == 0 then some (j1, minus_one, val) else get_with cb j1 jkey val)
      else none

  -- The common branch of IOTPropertyCB::set and IOTCommandCB::callback, with two strings.
  unfoldable pub call_two : ℕ → ℕ → ℕ → J → ℕ → ℕ → Option (J × ℤ)
  call_two class method object j ja jb =
      if class == 0 || method == 0
      then none
      else some
          (delete_local_ref (delete_local_ref (call_void j class method object ja jb) ja) jb, pos 0)

  -- Both texts as strings of Java, and the call if there are both.
  unfoldable pub with_two : Bool → ℕ → ℕ → ℕ → J → Bytes → Bytes → Option (J × ℤ)
  unfolding call_two
  with_two attached class method object j a b =
      if attached
      then (let (j1, ja) = new_string_utf j a in
          let (j2, jb) = new_string_utf j1 b in
          if ja == 0 || jb == 0
          then some (j2, minus_one)
          else call_two class method object j2 ja jb)
      else none

  -- IOTPropertyCB::set and IOTCommandCB::callback.
  unfoldable pub property_set : Bool → PropertyCb → J → Bytes → Bytes → Option (J × ℤ)
  unfolding with_two
  property_set attached cb = with_two attached cb.class cb.property_set cb.object

  unfoldable pub command_callback : Bool → CommandCb → J → Bytes → Bytes → Option (J × ℤ)
  unfolding with_two
  command_callback attached cb = with_two attached cb.class cb.control_cb cb.object

  -- The callbacks of a client's process as its stubs call them.
  unfoldable pub java_callbacks : Bool → PropertyCb → CommandCb → Callbacks J
  java_callbacks attached p c = record {
    callback = command_callback attached c;
    get = property_get attached p;
    set = property_set attached p;
  }
