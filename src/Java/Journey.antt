-- ===== src/Java/Journey.antt =====
-- From Java to the service: native_setup, native_followProperty and native_connService of
-- jni/IOT_JNI.cpp, with jni/client, jni/binder and jni/server behind them.
use java_iotwrap.Common.{
  ℕ, ◌≡◌, ◌≢◌, refl, ap, sym, subst, ◌∙◌, inl, inr, true, false, List, [], ◌∷◌, ◌++◌, some,
  Succeeds, Succeeds-bind, ◌==◌, Bool-cases, Bytes, ℤ, pos, All, Has, same, same_iff,
}
use java_iotwrap.Service.{follow_property, may_create}
use java_iotwrap.Service.Invariant.{IsValid}
use java_iotwrap.Service.Session.{Backend}
use java_iotwrap.ClientJni
use java_iotwrap.ClientJni.{
  Remote, Tries, PropertyInfo, ClientJni, init, has_key, is_empty, try_count, conn_service,
}
use java_iotwrap.ClientJni.Connect.{Answers}
use java_iotwrap.ClientJni.Grows.{Follows}
use java_iotwrap.ClientJni.Replay.{service_remote}
use java_iotwrap.Binder.{Parcels, IsLawful, Transact}
use java_iotwrap.Binder.Remoting.{through_binder, conn_service_over_binder}
use java_iotwrap.Java.{Jni, jstring_to_string8}
use java_iotwrap.Java.Natives.{Process, setup, jni_follow_property, jni_conn_service}
use java_iotwrap.Java.Setup.{HasMethods, IsBound, setup_binds}

has_key-All :
    (Q : Bytes → Type 0) (key : Bytes) (is : List PropertyInfo)
    → has_key key is ≡ true
    → All (λ (i : PropertyInfo). Q i.key) is
    → Q key
unfolding has_key
has_key-All Q key [] h a = cc
has_key-All Q key (i ∷ is) h a = elim (Bool-cases (same key i.key)) [
  | inl t ↦ subst Q (sym ((same_iff key i.key).0 t)) a.0
  | inr t ↦ has_key-All Q key is (rw t at h) a.1
]

All-last :
    (Q : Bytes → Type 0) (is : List PropertyInfo) (i : PropertyInfo)
    → All (λ (k : PropertyInfo). Q k.key) (is ++ i ∷ [])
    → Q i.key
All-last Q [] i a = a.0
All-last Q (k ∷ is) i a = All-last Q is i a.1

-- A text that is not empty is a key of the list after followProperty.
follow_property-listed :
    (Q : Bytes → Type 0) (j : ClientJni) (key : Bytes) (type size : ℤ)
    → is_empty key ≡ false
    → All
        (λ (i : PropertyInfo). Q i.key)
        (ClientJni.follow_property j key type size).0.property_list
    → Q key
unfolding ClientJni.follow_property
follow_property-listed Q j key type size n a = elim (Bool-cases (has_key key j.property_list)) [
  | inl t ↦ has_key-All Q key j.property_list t (rw (n, t) at a)
  | inr t ↦
      All-last Q j.property_list (record { key = key; type = type; size = size }) (rw (n, t) at a)
]

follow_property-members :
    (j : ClientJni) (key : Bytes) (type size : ℤ)
    → let j' = (ClientJni.follow_property j key type size).0 in
      (j'.proxy ≡ j.proxy) × (j'.property_cb ≡ j.property_cb)
unfolding ClientJni.follow_property
follow_property-members j key type size = elim (Bool-cases (is_empty key)) [
  | inl e ↦ rw e (refl, refl)
  | inr e ↦ elim (Bool-cases (has_key key j.property_list)) [
    | inl t ↦ rw (e, t) (refl, refl)
    | inr t ↦ rw (e, t) (refl, refl)
  ]
]

setup-proxy :
    {J : Type 0} (jni : Jni J) (s : Process J) (clazz ref_obj client_id p c : ℕ)
    → (setup jni s clazz ref_obj client_id p c).library.proxy ≡ s.library.proxy
unfolding setup init
setup-proxy jni s clazz ref_obj client_id p c = elim (Bool-cases (clazz == 0)) [
  | inl z ↦ rw z refl
  | inr z ↦ rw z refl
]

jstring_text :
    {J : Type 0} (jni : Jni J) (j : J) (o : ℕ) (s : Bytes)
    → (jni.get_string_utf_chars j o).1 ≡ some s
    → (jstring_to_string8 jni j o).1 ≡ s
unfolding jstring_to_string8
jstring_text jni j o s e = rw (e, jstring_to_string8) refl

module _ (P : Parcels) (L : IsLawful P) {J D : Type 0} (jni : Jni J) (b : Backend D)
    (base : Transact P D) (t : Tries) where
  -- What native_connService gives a client that follows the key.
  abbrev pub Serves : Bytes → Process J × D × ℤ → Type 0
  Serves key (s, d, ret) =
      (ret ≡ pos 0)
      × (s.library.proxy ≢ 0)
      × Has s.library.proxy (b.service d).clients
      × Follows s.library.proxy (b.service d) follow_property key
      × IsBound jni s.property s.command

  jni_conn_service-Serves :
      (s : Process J) (d : D) (timeout : ℤ) (n : ℕ) (key : Bytes)
      → s.library.proxy ≡ 0
      → s.library.property_cb ≢ 0
      → IsBound jni s.property s.command
      → ((Q : Bytes → Type 0) → All (λ (i : PropertyInfo). Q i.key) s.library.property_list → Q key)
      → try_count timeout ≡ some n
      → Answers t n 0 false
      → may_create (b.service d) ≡ true
      → IsValid (b.service d)
      → Succeeds
          (Serves key)
          (jni_conn_service jni (through_binder P (service_remote b) true base) t s d timeout)
  unfolding jni_conn_service
  jni_conn_service-Serves s d timeout n key z m bound listed e a room v =
      Succeeds-bind _ (Serves key)
        (conn_service (through_binder P (service_remote b) true base) t s.library d timeout) _
        (λ (j', d', ret) (r, p, h, f, g).
          (r, p, h, listed (λ k. Follows j'.proxy (b.service d') follow_property k) f, bound))
        (conn_service_over_binder P L b base t s.library d timeout n z m e a room v)

  -- A Java object that sets a library without a proxy up, follows a property and connects: if its class
  -- has the three static methods, global references can be made, the property's name can be read and is
  -- not empty, the service meets its invariant, answers within the time-out and has room for a client, parcels are read in the order in which they were written, and the service's
  -- compiler evaluates arguments from left to right, then native_connService ends and returns
  -- ERR_NOERROR; the library's client is connected and follows the property, and the callbacks have
  -- their class and their methods.
  pub native_follow_lem :
      (s : Process J) (clazz ref_obj client_id p c name : ℕ) (key : Bytes) (type size : ℤ) (d : D)
      (timeout : ℤ) (n : ℕ)
      → clazz ≢ 0
      → p ≢ 0
      → HasMethods jni clazz
      → s.library.proxy ≡ 0
      → is_empty key ≡ false
      → ((i : J) → (jni.get_string_utf_chars i name).1 ≡ some key)
      → try_count timeout ≡ some n
      → Answers t n 0 false
      → may_create (b.service d) ≡ true
      → IsValid (b.service d)
      → let s1 = setup jni s clazz ref_obj client_id p c in
        let s2 = (jni_follow_property jni s1 name type size).0 in
        Succeeds
          (Serves key)
          (jni_conn_service jni (through_binder P (service_remote b) true base) t s2 d timeout)
  unfolding jni_follow_property
  native_follow_lem s clazz ref_obj client_id p c name key type size d timeout n cz pz methods z ne
        text e a room v =
      let s1 = setup jni s clazz ref_obj client_id p c in
      let s2 = (jni_follow_property jni s1 name type size).0 in
      let (pcb, ccb, bound) = setup_binds jni s clazz ref_obj client_id p c cz methods in
      let k = (jstring_to_string8 jni s1.java name).1 in
      let k_is : k ≡ key = jstring_text jni s1.java name key (text s1.java) in
      let kept = follow_property-members s1.library k type size in
      jni_conn_service-Serves s2 d timeout n key
        (kept.0 ∙ setup-proxy jni s clazz ref_obj client_id p c ∙ z)
        (λ q. pz (sym pcb ∙ sym kept.1 ∙ q)) bound
        (λ Q h.
          subst Q k_is (follow_property-listed Q s1.library k type size (ap is_empty k_is ∙ ne) h))
        e a room v
