-- ===== src/Binder/Callbacks.antt =====
-- jni/binder/IIOTCommandCB.cpp and IIOTPropertyCB.cpp: BpIOTCommandCB, BnIOTCommandCB, BpIOTPropertyCB
-- and BnIOTPropertyCB. Here the client's process is the one that answers.
use java_iotwrap.Common.{ℕ, ◌+◌, Option, some, ◌>>=◌, ◌==◌, if◌then◌else◌, Bytes, [], ℤ, is_zero}
use java_iotwrap.Binder.{
  Parcels, Transact, request, int32_reply, write_ret, checked, command_pack, property_pack,
  no_error,
}

-- IIOTCommandCB and IIOTPropertyCB over the state of the client's process. `get` takes the text that
-- `val` holds before the call and gives the one after it. `none` is an access through NULL.
pub record Callbacks (J : Type 0) : Type 0 where
  pub callback : J → Bytes → Bytes → Option (J × ℤ)
  pub get : J → Bytes → Bytes → Option (J × ℤ × Bytes)
  pub set : J → Bytes → Bytes → Option (J × ℤ)

module _ (P : Parcels) where
  open P use {Parcel, empty, write_string8, write_int32, read_string8, read_int32, first_call}

  -- IOTACTION_COMMAND_CALLBACK; IOTACTION_GET_PROPERTY and IOTACTION_SET_PROPERTY.
  abbrev pub act_command_callback : ℕ
  act_command_callback = first_call

  abbrev pub act_get_property : ℕ
  act_get_property = first_call

  abbrev pub act_set_property : ℕ
  act_set_property = first_call + 1

  module _ {J : Type 0} (transact : Transact P J) where
    -- BpIOTCommandCB.
    unfoldable pub bp_callback : J → Bytes → Bytes → Option (J × ℤ)
    unfolding request int32_reply
    bp_callback j cmd msg =
        transact j act_command_callback
          (write_string8 (write_string8 (request P command_pack) cmd) msg)
        >>= λ r. some (int32_reply P r)

    -- BpIOTPropertyCB: a failed transaction leaves `val` as it was.
    unfoldable pub bp_get : J → Bytes → Bytes → Option (J × ℤ × Bytes)
    unfolding request
    bp_get j key val =
        transact j act_get_property (write_string8 (request P property_pack) key)
        >>= λ (j', status, reply).
            let (text, rest) = read_string8 reply in
            if is_zero status then some (j', (read_int32 rest).0, text) else some (j', status, val)

    unfoldable pub bp_set : J → Bytes → Bytes → Option (J × ℤ)
    unfolding request int32_reply
    bp_set j key val =
        transact j act_set_property
          (write_string8 (write_string8 (request P property_pack) key) val)
        >>= λ r. some (int32_reply P r)

  module _ {J : Type 0} (m : Callbacks J) (base : Transact P J) where
    -- BnIOTCommandCB::onTransact.
    unfoldable pub bn_command_cb : Transact P J
    unfolding checked write_ret
    bn_command_cb j code p =
        if code == act_command_callback
        then checked P j command_pack p (λ rest.
          let (cmd, rest') = read_string8 rest in
          m.callback j cmd (read_string8 rest').0 >>= λ x. some (write_ret P x))
        else base j code p

    -- BnIOTPropertyCB::onTransact; `get` starts from the empty String8.
    unfoldable pub bn_property_cb : Transact P J
    unfolding checked write_ret
    bn_property_cb j code p =
        if code == act_get_property
        then checked P j property_pack p (λ rest.
          m.get j (read_string8 rest).0 [] >>= λ (j', ret, val).
          some (j', no_error, write_int32 (write_string8 empty val) ret))
        else if code == act_set_property
        then checked P j property_pack p (λ rest.
          let (key, rest') = read_string8 rest in
          m.set j key (read_string8 rest').0 >>= λ x. some (write_ret P x))
        else base j code p

  -- The callbacks as the service sees them.
  unfoldable pub binder_callbacks : {J : Type 0} → Transact P J → Transact P J → Callbacks J
  binder_callbacks command property = record {
    callback = bp_callback command;
    get = bp_get property;
    set = bp_set property;
  }
