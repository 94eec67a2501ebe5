-- ===== src/Binder/CallbackCalls.antt =====
-- jni/binder/IIOTCommandCB.cpp and IIOTPropertyCB.cpp: a callback through its proxy is the client's own
-- callback.
use java_iotwrap.Common.{
  ◌≡◌, refl, ap, ◌∙◌, true, false, [], ◌∷◌, Option, none, some, ◌>>=◌, arith, ◌==◌, ==_iff,
  if◌then◌else◌, Bytes, ℤ, is_zero,
}
use mathlib.Core.Path.{ap₂, fun_ext}
use java_iotwrap.Binder.{
  token, text, number, Parcels, IsLawful, Transact, request, write_ret, command_pack, property_pack,
  no_error,
}
use java_iotwrap.Binder.Queue.{items-request, put_text, put_number, checked_own, reply-ret}
use java_iotwrap.Binder.Callbacks.{
  Callbacks, act_command_callback, act_get_property, act_set_property, bp_callback, bp_get, bp_set,
  bn_command_cb, bn_property_cb, binder_callbacks,
}

module _ (P : Parcels) (L : IsLawful P) {J : Type 0} (m : Callbacks J) (base : Transact P J) where
  open P use {Parcel, empty, write_string8, write_int32, read_string8, read_int32, check_interface}
  open L use {items}

  -- A parcel with a token and two texts, and what a stub reads from it.
  two_texts :
      (pack a b : Bytes)
      → items (write_string8 (write_string8 (request P pack) a) b)
        ≡ token pack ∷ text a ∷ text b ∷ []
  two_texts pack a b =
      put_text P L (write_string8 (request P pack) a) b (token pack ∷ text a ∷ [])
        (put_text P L (request P pack) a (token pack ∷ []) (items-request P L pack))

  reads_two :
      (f : Bytes → Bytes → Option (J × ℤ)) (p : Parcel) (a b : Bytes)
      → items p ≡ text a ∷ text b ∷ []
      → f (read_string8 p).0 (read_string8 (read_string8 p).1).0 ≡ f a b
  reads_two f p a b e =
      let (first, left) = L.read_string8_lem p a (text b ∷ []) e in
      ap₂ f first (L.read_string8_lem _ b [] left).0

  bp_callback_lem :
      (j : J) (cmd msg : Bytes)
      → bp_callback P (bn_command_cb P m base) j cmd msg ≡ m.callback j cmd msg
  unfolding bp_callback bn_command_cb
  bp_callback_lem j cmd msg =
      let p = write_string8 (write_string8 (request P command_pack) cmd) msg in
      let body = λ (rest : Parcel).
        m.callback j (read_string8 rest).0 (read_string8 (read_string8 rest).1).0 >>= λ x.
        some (write_ret P x) in
      let (passes, left) =
        checked_own P L j command_pack p (text cmd ∷ text msg ∷ []) body
          (two_texts command_pack cmd msg) in
      let this : (act_command_callback P == act_command_callback P) ≡ true =
        (==_iff (act_command_callback P) (act_command_callback P)).1 refl in
      rw (this, passes)
        (reply-ret P L _ ∙ reads_two (m.callback j) (check_interface p command_pack).1 cmd msg left)

  bp_set_lem :
      (j : J) (key val : Bytes) → bp_set P (bn_property_cb P m base) j key val ≡ m.set j key val
  unfolding bp_set bn_property_cb
  bp_set_lem j key val =
      let p = write_string8 (write_string8 (request P property_pack) key) val in
      let body = λ (rest : Parcel).
        m.set j (read_string8 rest).0 (read_string8 (read_string8 rest).1).0 >>= λ x.
        some (write_ret P x) in
      let (passes, left) =
        checked_own P L j property_pack p (text key ∷ text val ∷ []) body
          (two_texts property_pack key val) in
      let other : (act_set_property P == act_get_property P) ≡ false = ground arith in
      let this : (act_set_property P == act_set_property P) ≡ true =
        (==_iff (act_set_property P) (act_set_property P)).1 refl in
      rw (other, this, passes)
        (reply-ret P L _ ∙ reads_two (m.set j) (check_interface p property_pack).1 key val left)

  get_arrives :
      (o : Option (J × ℤ × Bytes)) (old : Bytes)
      → ((o >>= λ (j', ret, val). some (j', no_error, write_int32 (write_string8 empty val) ret))
          >>= λ (j', status, reply).
              (let (s, rest) = read_string8 reply in
                if is_zero status
                then some (j', (read_int32 rest).0, s)
                else some (j', status, old)))
        ≡ o
  get_arrives none old = refl
  get_arrives (some (j', ret, val)) old =
      let (first, left) =
        L.read_string8_lem (write_int32 (write_string8 empty val) ret) val (number ret ∷ []) (
          put_number P L (write_string8 empty val) ret (text val ∷ [])
            (put_text P L empty val [] L.items-empty)) in
      ap₂ (λ z s. some (j', z, s)) (L.read_int32_lem _ ret [] left).0 first

  bp_get_lem :
      (j : J) (key val : Bytes) → bp_get P (bn_property_cb P m base) j key val ≡ m.get j key []
  unfolding bp_get bn_property_cb
  bp_get_lem j key val =
      let p = write_string8 (request P property_pack) key in
      let body = λ (rest : Parcel). m.get j (read_string8 rest).0 [] >>= λ (j', ret, v).
      some (j', no_error, write_int32 (write_string8 empty v) ret) in
      let (passes, left) = checked_own P L j property_pack p (text key ∷ []) body (
        put_text P L (request P property_pack) key (token property_pack ∷ [])
          (items-request P L property_pack)) in
      let this : (act_get_property P == act_get_property P) ≡ true =
        (==_iff (act_get_property P) (act_get_property P)).1 refl in
      rw (this, passes)
        (get_arrives _ val ∙ ap (λ k. m.get j k []) (L.read_string8_lem _ key [] left).0)

  -- Where parcels are read in the order in which they were written and the transactions reach the
  -- stubs, the callbacks through the proxies are the client's own, but that `get` forgets the text
  -- that `val` held: the caller's text is replaced also where the client's `get` gives none.
  pub binder_callbacks_lem :
      binder_callbacks P (bn_command_cb P m base) (bn_property_cb P m base)
      ≡ record m { get = λ j key val. m.get j key [] }
  unfolding binder_callbacks
  binder_callbacks_lem i = record {
    callback = fun_ext (λ j. fun_ext (λ cmd. fun_ext (bp_callback_lem j cmd))) i;
    get = fun_ext (λ j. fun_ext (λ key. fun_ext (bp_get_lem j key))) i;
    set = fun_ext (λ j. fun_ext (λ key. fun_ext (bp_set_lem j key))) i;
  }
