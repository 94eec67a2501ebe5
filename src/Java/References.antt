-- ===== src/Java/References.antt =====
-- The local references that the callbacks of jni/client/IOT_PropertyCB.cpp and IOT_CommandCB.cpp make:
-- the binder's threads are native, and such a reference is freed only by DeleteLocalRef.
use java_iotwrap.Common.{
  ℕ, ◌+◌, ◌-◌, ◌≡◌, ◌≢◌, refl, ◌∙◌, inl, inr, true, false, Succeeds, arith, ◌==◌, ◌||◌, Bool-cases,
  Option-cases, if◌then◌else◌, Bytes, ℤ, pos, minus_one,
}
use java_iotwrap.Java.{java_callbacks, property_set, command_callback, CommandCb}
use java_iotwrap.Java.{
  Jni, PropertyCb, jstring_to_string8, get_with, property_get, call_two, with_two,
}

-- The number of local references: a call that gives a reference makes one.
pub record IsCounted {J : Type 0} (jni : Jni J) : Type 0 where
  pub refs : J → ℕ
  pub refs-new_string_utf :
      (j : J) (s : Bytes)
      → refs (jni.new_string_utf j s).0
        ≡ (if (jni.new_string_utf j s).1 == 0 then refs j else refs j + 1)
  pub refs-call_get :
      (j : J) (c m o a : ℕ)
      → refs (jni.call_get j c m o a).0
        ≡ (if (jni.call_get j c m o a).1 == 0 then refs j else refs j + 1)
  pub refs-call_void : (j : J) (c m o a b : ℕ) → refs (jni.call_void j c m o a b) ≡ refs j
  pub refs-get_string_utf_chars : (j : J) (o : ℕ) → refs (jni.get_string_utf_chars j o).0 ≡ refs j
  pub refs-release_string_utf_chars :
      (j : J) (o : ℕ) → refs (jni.release_string_utf_chars j o) ≡ refs j
  pub refs-delete_local_ref : (j : J) (o : ℕ) → o ≢ 0 → refs (jni.delete_local_ref j o) ≡ refs j - 1

ne_zero : (n : ℕ) → (n == 0) ≡ false → n ≢ 0
ne_zero n h e = ground arith

module _ {J : Type 0} (jni : Jni J) (L : IsCounted jni) where
  open L use {refs}

  refs-jstring_to_string8 : (j : J) (o : ℕ) → refs (jstring_to_string8 jni j o).0 ≡ refs j
  unfolding jstring_to_string8
  refs-jstring_to_string8 j o =
      let (j1, chars) = jni.get_string_utf_chars j o in
      let kept = L.refs-get_string_utf_chars j o in
      elim (Option-cases (jni.get_string_utf_chars j o).1) [
        | inl e ↦ rw (e, jstring_to_string8) kept
        | inr (s, e) ↦ rw (e, jstring_to_string8) (L.refs-release_string_utf_chars j1 o ∙ kept)
      ]

  abbrev Balanced : ℕ → J × ℤ × Bytes → Type 0
  Balanced n (j', ret, val) = refs j' ≡ n

  get_with-Balanced :
      (cb : PropertyCb) (j : J) (jkey : ℕ) (val : Bytes) (n : ℕ)
      → cb.class ≢ 0
      → cb.property_get ≢ 0
      → jkey ≢ 0
      → refs j ≡ n + 1
      → Succeeds (Balanced n) (get_with jni cb j jkey val)
  unfolding get_with
  get_with-Balanced cb j jkey val n c m k h =
      let bound : (cb.class == 0 || cb.property_get == 0) ≡ false = ground arith in
      let (j1, jval) = jni.call_get j cb.class cb.property_get cb.object jkey in
      let made = L.refs-call_get j cb.class cb.property_get cb.object jkey in
      elim (Bool-cases (jval == 0)) [
        | inl z ↦ rw (bound, z) (omega (arith, L.refs-delete_local_ref j1 jkey k, rw z at made, h))
        | inr z ↦
            let j2 = (jstring_to_string8 jni j1 jval).0 in
            rw (bound, z)
              (omega (
                arith,
                L.refs-delete_local_ref (jni.delete_local_ref j2 jval) jkey k,
                L.refs-delete_local_ref j2 jval (ne_zero jval z),
                refs-jstring_to_string8 j1 jval,
                rw z at made,
                h,
              ))
      ]

  -- IOTPropertyCB::get on an attached thread, with its class and its method, returns, and leaves no
  -- local reference, whether or not the strings can be made and the Java method gives one.
  property_get-balanced :
      (cb : PropertyCb) (j : J) (key val : Bytes)
      → cb.class ≢ 0
      → cb.property_get ≢ 0
      → Succeeds
          (λ ((j', ret, s) : J × ℤ × Bytes). refs j' ≡ refs j)
          (property_get jni true cb j key val)
  unfolding property_get
  property_get-balanced cb j key val c m =
      let (j1, jkey) = jni.new_string_utf j key in
      let made = L.refs-new_string_utf j key in
      elim (Bool-cases (jkey == 0)) [
        | inl z ↦ rw z (rw z at made)
        | inr z ↦
            rw z (get_with-Balanced cb j1 jkey val (refs j) c m (ne_zero jkey z) (rw z at made))
      ]

  -- What a call with two texts leaves: one reference if only one of the strings could be made.
  abbrev Left : J → Bytes → Bytes → J × ℤ → Type 0
  Left j a b (j', ret) =
      let (j1, ja) = jni.new_string_utf j a in
      let (j2, jb) = jni.new_string_utf j1 b in
      let left : ℕ = if ja == 0 then if jb == 0 then 0 else 1 else if jb == 0 then 1 else 0 in
      (refs j' ≡ refs j + left) × (ret ≡ (if ja == 0 || jb == 0 then minus_one else pos 0))

  -- IOTPropertyCB::set and IOTCommandCB::callback, on an attached thread with a class and a method,
  -- return. They leave no local reference if both texts, or neither, could be made strings of Java; if
  -- only one of them could, the result is -1 and that string's reference is never freed.
  with_two-references :
      (class method object : ℕ) (j : J) (a b : Bytes)
      → class ≢ 0
      → method ≢ 0
      → let (j1, ja) = jni.new_string_utf j a in
        let (j2, jb) = jni.new_string_utf j1 b in
        let left : ℕ = if ja == 0 then if jb == 0 then 0 else 1 else if jb == 0 then 1 else 0 in
        Succeeds
          (λ ((j', ret) : J × ℤ).
            (refs j' ≡ refs j + left) × (ret ≡ (if ja == 0 || jb == 0 then minus_one else pos 0)))
          (with_two jni true class method object j a b)
  unfolding with_two call_two
  with_two-references class method object j a b c m =
      let (j1, ja) = jni.new_string_utf j a in
      let (j2, jb) = jni.new_string_utf j1 b in
      let bound : (class == 0 || method == 0) ≡ false = ground arith in
      let first = L.refs-new_string_utf j a in
      let second = L.refs-new_string_utf j1 b in
      elim (Bool-cases (ja == 0)) [
        | inl z ↦ elim (Bool-cases (jb == 0)) [
          | inl y ↦ rw (z, y) (omega (arith, rw z at first, rw y at second), refl)
          | inr y ↦ rw (z, y) (omega (arith, rw z at first, rw y at second), refl)
        ]
        | inr z ↦ elim (Bool-cases (jb == 0)) [
          | inl y ↦ rw (z, y) (omega (arith, rw z at first, rw y at second), refl)
          | inr y ↦
              let j3 = jni.call_void j2 class method object ja jb in
              rw (z, y, bound)
                (
                  omega (
                    arith,
                    L.refs-delete_local_ref (jni.delete_local_ref j3 ja) jb (ne_zero jb y),
                    L.refs-delete_local_ref j3 ja (ne_zero ja z),
                    L.refs-call_void j2 class method object ja jb,
                    rw z at first,
                    rw y at second,
                  ),
                  refl,
                )
        ]
      ]

  -- On an attached thread, with their classes and their methods, each of the three callbacks returns.
  -- `get` leaves no local reference, whether or not the strings can be made and the Java method gives
  -- one. `set` and `callback` return 0 and leave none if both strings can be made, return -1 and leave
  -- the reference of the other one if only one can be made, and return -1 and leave none if neither can.
  pub callbacks-references :
      (p : PropertyCb) (c : CommandCb) (j : J) (a b : Bytes)
      → p.class ≢ 0
      → p.property_get ≢ 0
      → p.property_set ≢ 0
      → c.class ≢ 0
      → c.control_cb ≢ 0
      → let m = java_callbacks jni true p c in
        Succeeds (λ ((j', ret, s) : J × ℤ × Bytes). refs j' ≡ refs j) (m.get j a b)
        × Succeeds (Left j a b) (m.set j a b)
        × Succeeds (Left j a b) (m.callback j a b)
  unfolding java_callbacks property_set command_callback
  callbacks-references p c j a b pc pg ps cc' cm = (
    property_get-balanced p j a b pc pg,
    with_two-references p.class p.property_set p.object j a b pc ps,
    with_two-references c.class c.control_cb c.object j a b cc' cm,
  )
