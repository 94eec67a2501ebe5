-- ===== src/Java/Natives.antt =====
-- jni/IOT_JNI.cpp: the native methods of the Java class DeviceShadow, and their registration.
use java_iotwrap.Common.{
  ℕ, Bool, List, [], ◌∷◌, Option, some, ◌>>=◌, ◌==◌, if◌then◌else◌, Bytes, codes, ℤ, minus_one,
}
use java_iotwrap.ClientJni.{
  Remote, Tries, ClientJni, init, is_empty, follow_property, follow_command, conn_service,
  report_event, report_property,
}
use java_iotwrap.Java.{
  Jni, PropertyCb, CommandCb, jstring_to_string8, new_property_cb, new_command_cb,
}

-- The seven native methods.
pub data Native : Type 0 where
  native_init native_setup native_conn_service native_follow_property native_follow_command
        native_report_event native_report_property :
      Native

-- gMethods: the Java name, the signature, and the function.
abbrev pub methods : List (Bytes × Bytes × Native)
methods =
    (codes "native_init", codes "()V", native_init)
    ∷ (codes "native_setup", codes "(Ljava/lang/Object;Ljava/lang/String;)V", native_setup)
    ∷ (codes "native_connService", codes "(I)I", native_conn_service)
    ∷ (codes "native_followProperty", codes "(Ljava/lang/String;II)I", native_follow_property)
    ∷ (codes "native_followCommand", codes "(Ljava/lang/String;)I", native_follow_command)
    ∷ (codes "native_reportEvent", codes "(Ljava/lang/String;)I", native_report_event)
    ∷ (
      codes "native_reportProperty",
      codes "(Ljava/lang/String;Ljava/lang/String;)I",
      native_report_property,
    )
    ∷ []

abbrev pub class_path_name : Bytes
class_path_name = codes "com/android/leiot/DeviceShadow"

-- What the virtual machine does in JNI_OnLoad: whether it gives an environment, FindClass, and
-- RegisterNatives.
pub record Vm (J : Type 0) : Type 0 where
  pub gives_env : Bool
  pub find_class : J → Bytes → J × ℕ
  pub register_natives : J → ℕ → List (Bytes × Bytes × Native) → J
  pub version : ℤ

-- JNI_OnLoad; JNI_ERR is -1.
unfoldable pub on_load : {J : Type 0} → Vm J → J → J × ℤ
on_load vm j =
    if vm.gives_env
    then (let (j1, clazz) = vm.find_class j class_path_name in
        if clazz == 0 then (j1, minus_one) else (vm.register_natives j1 clazz methods, vm.version))
    else (j, minus_one)

-- The state of a client's process: the library, its callbacks, and Java.
pub record Process (J : Type 0) : Type 0 where
  pub library : ClientJni
  pub property : PropertyCb
  pub command : CommandCb
  pub java : J

module _ {J : Type 0} (jni : Jni J) where
  -- __native_setup; `clazz` is what GetObjectClass gives, and `p` and `c` are the addresses of the
  -- callbacks that IOTClientJNI::init makes.
  unfoldable pub setup : Process J → ℕ → ℕ → ℕ → ℕ → ℕ → Process J
  unfolding init
  setup s clazz ref_obj client_id p c =
      if clazz == 0
      then s
      else (let (j1, id) = jstring_to_string8 jni s.java client_id in
          let (j2, property) = new_property_cb jni j1 clazz ref_obj in
          let (j3, command) = new_command_cb jni j2 clazz ref_obj in
          record {
            library = (init s.library id p c).0;
            property = property;
            command = command;
            java = j3;
          })

  -- __native_followProperty and __native_followCommand.
  unfoldable pub jni_follow_property : Process J → ℕ → ℤ → ℤ → Process J × ℤ
  jni_follow_property s property type size =
      let (j1, key) = jstring_to_string8 jni s.java property in
      let (l, ret) = follow_property s.library key type size in
      (record s { library = l; java = j1 }, ret)

  unfoldable pub jni_follow_command : Process J → ℕ → Process J × ℤ
  jni_follow_command s cmd =
      let (j1, text) = jstring_to_string8 jni s.java cmd in
      let (l, ret) = follow_command s.library text in (record s { library = l; java = j1 }, ret)

  module _ {D : Type 0} (r : Remote D) where
    -- __native_connService.
    unfoldable pub jni_conn_service : Tries → Process J → D → ℤ → Option (Process J × D × ℤ)
    jni_conn_service t s d timeout = conn_service r t s.library d timeout >>= λ (l, d', ret).
        some (record s { library = l }, d', ret)

    -- __native_reportEvent and __native_reportProperty: without a proxy the strings are not read.
    unfoldable pub jni_report_event : Process J → D → ℕ → Option (Process J × D × ℤ)
    jni_report_event s d msg =
        let (j1, text) = jstring_to_string8 jni s.java msg in
        let s' = if s.library.proxy == 0 then s else record s { java = j1 } in
        report_event r s.library d text >>= λ (d', ret). some (s', d', ret)

    unfoldable pub jni_report_property : Process J → D → ℕ → ℕ → Option (Process J × D × ℤ)
    jni_report_property s d key val =
        let (j1, k) = jstring_to_string8 jni s.java key in
        let (j2, v) = jstring_to_string8 jni j1 val in
        let j' = if is_empty k then j1 else j2 in
        let s' = if s.library.proxy == 0 then s else record s { java = j' } in
        report_property r s.library d k v >>= λ (d', ret). some (s', d', ret)
