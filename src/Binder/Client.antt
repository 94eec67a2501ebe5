-- ===== src/Binder/Client.antt =====
-- jni/binder/IIOTClient.cpp: BpIOTClient and BnIOTClient.
use java_iotwrap.Common.{ℕ, ◌+◌, Bool, Option, none, some, ◌>>=◌, ◌==◌, if◌then◌else◌, Bytes, ℤ}
use java_iotwrap.ClientJni.{Remote}
use java_iotwrap.Binder.{Parcels, Transact, request, int32_reply, write_ret, checked, client_pack}

module _ (P : Parcels) where
  open P use {
    Parcel, write_string8, write_int32, write_strong_binder, read_string8, read_int32,
    read_strong_binder, first_call,
  }

  -- IOTACTION_FOLLOW_PROPERTY and the codes that follow it.
  abbrev pub act_follow_property : ℕ
  act_follow_property = first_call

  abbrev pub act_follow_command : ℕ
  act_follow_command = first_call + 1

  abbrev pub act_report_event : ℕ
  act_report_event = first_call + 2

  abbrev pub act_report_property : ℕ
  act_report_property = first_call + 3

  abbrev pub act_regist_command_cb : ℕ
  act_regist_command_cb = first_call + 4

  abbrev pub act_regist_property_cb : ℕ
  act_regist_property_cb = first_call + 5

  module _ {D : Type 0} (transact : Transact P D) where
    -- BpIOTClient.
    unfoldable pub bp_follow_property : D → Bytes → ℤ → ℤ → Option (D × ℤ)
    unfolding request int32_reply
    bp_follow_property d key type size =
        transact d act_follow_property
          (write_int32 (write_int32 (write_string8 (request P client_pack) key) type) size)
        >>= λ r. some (int32_reply P r)

    unfoldable pub bp_follow_command : D → Bytes → Option (D × ℤ)
    unfolding request int32_reply
    bp_follow_command d cmd =
        transact d act_follow_command (write_string8 (request P client_pack) cmd) >>= λ r.
        some (int32_reply P r)

    unfoldable pub bp_report_event : D → Bytes → Option (D × ℤ)
    unfolding request int32_reply
    bp_report_event d msg =
        transact d act_report_event (write_string8 (request P client_pack) msg) >>= λ r.
        some (int32_reply P r)

    unfoldable pub bp_report_property : D → Bytes → Bytes → Option (D × ℤ)
    unfolding request int32_reply
    bp_report_property d key val =
        transact d act_report_property
          (write_string8 (write_string8 (request P client_pack) key) val)
        >>= λ r. some (int32_reply P r)

    unfoldable pub bp_regist_command_cb : D → ℕ → Option (D × ℤ)
    unfolding request int32_reply
    bp_regist_command_cb d cb =
        transact d act_regist_command_cb (write_strong_binder (request P client_pack) cb) >>= λ r.
        some (int32_reply P r)

    unfoldable pub bp_regist_property_cb : D → ℕ → Option (D × ℤ)
    unfolding request int32_reply
    bp_regist_property_cb d cb =
        transact d act_regist_property_cb (write_strong_binder (request P client_pack) cb) >>= λ r.
        some (int32_reply P r)

  -- The methods of the client at address `c`. `left_first` says in which order the compiler evaluates
  -- the arguments of a call, and `base` is BBinder::onTransact.
  module _ {D : Type 0} (r : Remote D) (left_first : Bool) (base : Transact P D) (c : ℕ) where
    -- `followProperty(key, data.readInt32(), data.readInt32())`.
    unfoldable pub on_follow_property : D → Parcel → Option (D × ℤ)
    on_follow_property d p =
        let (key, p1) = read_string8 p in
        let (first, p2) = read_int32 p1 in
        let second = (read_int32 p2).0 in
        if left_first
        then r.follow_property d c key first second
        else r.follow_property d c key second first

    unfoldable pub on_report_property : D → Parcel → Option (D × ℤ)
    on_report_property d p =
        let (key, p1) = read_string8 p in r.report_property d c key (read_string8 p1).0

    -- The method that a transaction's code asks for, on what follows the token.
    unfoldable pub on_code : ℕ → Option (D → Parcel → Option (D × ℤ))
    unfolding on_follow_property on_report_property
    on_code code =
        if code == act_follow_property
        then some on_follow_property
        else if code == act_follow_command
        then some (λ d p. r.follow_command d c (read_string8 p).0)
        else if code == act_report_event
        then some (λ d p. r.report_event d c (read_string8 p).0)
        else if code == act_report_property
        then some on_report_property
        else if code == act_regist_command_cb
        then some (λ d p. r.regist_command_cb d c (read_strong_binder p).0)
        else if code == act_regist_property_cb
        then some (λ d p. r.regist_property_cb d c (read_strong_binder p).0)
        else none

    -- BnIOTClient::onTransact.
    unfoldable pub bn_client : Transact P D
    unfolding on_code checked write_ret
    bn_client d code p = elim (on_code code) [
      | none ↦ base d code p
      | some method ↦
          checked P d client_pack p (λ rest. method d rest >>= λ x. some (write_ret P x))
    ]
