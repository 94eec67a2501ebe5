-- ===== src/Binder/Calls.antt =====
-- jni/binder/IIOTClient.cpp and IIOTService.cpp: a proxy's method whose transactions reach the stub is
-- the method of the object.
use java_iotwrap.Common.{
  ℕ, ◌≡◌, refl, ap, ◌∙◌, Bool, true, false, List, [], ◌∷◌, Option, none, some, ◌>>=◌, arith, ◌==◌,
  ==_iff, if◌then◌else◌, Bytes, ℤ, is_zero, minus_one,
}
use mathlib.Core.Path.{ap₂}
use java_iotwrap.ClientJni.{Remote}
use java_iotwrap.Binder.{
  Item, token, text, number, object, Parcels, IsLawful, Transact, request, int32_reply, write_ret,
  client_pack, service_descriptor, no_error,
}
use java_iotwrap.Binder.Queue.{
  items-request, put_text, put_number, put_object, checked_own, reply-ret,
}
use java_iotwrap.Binder.Client.{
  act_follow_property, act_follow_command, act_report_event, act_report_property,
  act_regist_command_cb, act_regist_property_cb, bp_follow_property, bp_follow_command,
  bp_report_event, bp_report_property, bp_regist_command_cb, bp_regist_property_cb,
  on_follow_property, on_report_property, on_code, bn_client,
}
use java_iotwrap.Binder.Service.{
  act_create_client, act_service_status, bp_create_client, bp_get_service_status, bn_service,
}

module _ (P : Parcels) (L : IsLawful P) {D : Type 0} (r : Remote D) (base : Transact P D) where
  open P use {
    Parcel, write_string8, write_int32, write_strong_binder, read_string8, read_int32,
    read_strong_binder, check_interface,
  }
  open L use {items}

  module _ (left_first : Bool) (c : ℕ) where
    -- A transaction with a known code and the client's token.
    call :
        (d : D) (code : ℕ) (p : Parcel) (args : List Item) (method : D → Parcel → Option (D × ℤ))
        → on_code P r left_first base c code ≡ some method
        → items p ≡ token client_pack ∷ args
        → ((bn_client P r left_first base c d code p >>= λ x. some (int32_reply P x))
            ≡ method d (check_interface p client_pack).1)
          × (items (check_interface p client_pack).1 ≡ args)
    unfolding bn_client
    call d code p args method e own =
        let body = λ (rest : Parcel). method d rest >>= λ x. some (write_ret P x) in
        let (passes, left) = checked_own P L d client_pack p args body own in
        (
          rw (e, bn_client, passes) (reply-ret P L (method d (check_interface p client_pack).1)),
          left,
        )

    opened : items (request P client_pack) ≡ token client_pack ∷ []
    opened = items-request P L client_pack

    pub bp_follow_command_lem :
        (d : D) (cmd : Bytes)
        → bp_follow_command P (bn_client P r left_first base c) d cmd ≡ r.follow_command d c cmd
    unfolding bp_follow_command on_code
    bp_follow_command_lem d cmd =
        let (e, left) =
          call d (act_follow_command P) (write_string8 (request P client_pack) cmd) (text cmd ∷ [])
            (λ d p. r.follow_command d c (read_string8 p).0) (ground arith)
            (put_text P L (request P client_pack) cmd (token client_pack ∷ []) opened) in
        e ∙ ap (r.follow_command d c) (L.read_string8_lem _ cmd [] left).0

    pub bp_report_event_lem :
        (d : D) (msg : Bytes)
        → bp_report_event P (bn_client P r left_first base c) d msg ≡ r.report_event d c msg
    unfolding bp_report_event on_code
    bp_report_event_lem d msg =
        let (e, left) =
          call d (act_report_event P) (write_string8 (request P client_pack) msg) (text msg ∷ [])
            (λ d p. r.report_event d c (read_string8 p).0) (ground arith)
            (put_text P L (request P client_pack) msg (token client_pack ∷ []) opened) in
        e ∙ ap (r.report_event d c) (L.read_string8_lem _ msg [] left).0

    pub bp_regist_command_cb_lem :
        (d : D) (cb : ℕ)
        → bp_regist_command_cb P (bn_client P r left_first base c) d cb ≡ r.regist_command_cb d c cb
    unfolding bp_regist_command_cb on_code
    bp_regist_command_cb_lem d cb =
        let (e, left) =
          call d (act_regist_command_cb P) (write_strong_binder (request P client_pack) cb)
            (object cb ∷ []) (λ d p. r.regist_command_cb d c (read_strong_binder p).0)
            (ground arith)
            (put_object P L (request P client_pack) cb (token client_pack ∷ []) opened) in
        e ∙ ap (r.regist_command_cb d c) (L.read_strong_binder_lem _ cb [] left).0

    pub bp_regist_property_cb_lem :
        (d : D) (cb : ℕ)
        → bp_regist_property_cb P (bn_client P r left_first base c) d cb
          ≡ r.regist_property_cb d c cb
    unfolding bp_regist_property_cb on_code
    bp_regist_property_cb_lem d cb =
        let (e, left) =
          call d (act_regist_property_cb P) (write_strong_binder (request P client_pack) cb)
            (object cb ∷ []) (λ d p. r.regist_property_cb d c (read_strong_binder p).0)
            (ground arith)
            (put_object P L (request P client_pack) cb (token client_pack ∷ []) opened) in
        e ∙ ap (r.regist_property_cb d c) (L.read_strong_binder_lem _ cb [] left).0

    pub bp_report_property_lem :
        (d : D) (key val : Bytes)
        → bp_report_property P (bn_client P r left_first base c) d key val
          ≡ r.report_property d c key val
    unfolding bp_report_property on_code on_report_property
    bp_report_property_lem d key val =
        let p1 = write_string8 (request P client_pack) key in
        let (e, left) =
          call d (act_report_property P) (write_string8 p1 val) (text key ∷ text val ∷ [])
            (on_report_property P r left_first base c) (ground arith)
            (put_text P L p1 val (token client_pack ∷ text key ∷ [])
              (put_text P L (request P client_pack) key (token client_pack ∷ []) opened)) in
        let (first, left') = L.read_string8_lem _ key (text val ∷ []) left in
        let second = (L.read_string8_lem _ val [] left').0 in
        e ∙ ap₂ (r.report_property d c) first second

    -- The arguments are swapped where the compiler evaluates them from right to left.
    pub bp_follow_property_lem :
        (d : D) (key : Bytes) (type size : ℤ)
        → bp_follow_property P (bn_client P r left_first base c) d key type size ≡ (
            if left_first
            then r.follow_property d c key type size
            else r.follow_property d c key size type)
    unfolding bp_follow_property on_code on_follow_property
    bp_follow_property_lem d key type size =
        let p1 = write_string8 (request P client_pack) key in
        let p2 = write_int32 p1 type in
        let (e, left) =
          call d (act_follow_property P) (write_int32 p2 size)
            (text key ∷ number type ∷ number size ∷ []) (on_follow_property P r left_first base c)
            (ground arith)
            (put_number P L p2 size (token client_pack ∷ text key ∷ number type ∷ []) (
              put_number P L p1 type (token client_pack ∷ text key ∷ [])
                (put_text P L (request P client_pack) key (token client_pack ∷ []) opened))) in
        let (first, left1) = L.read_string8_lem _ key (number type ∷ number size ∷ []) left in
        let (second, left2) = L.read_int32_lem _ type (number size ∷ []) left1 in
        let third = (L.read_int32_lem _ size [] left2).0 in e ∙ rw (first, second, third) refl

  service_opened : items (request P service_descriptor) ≡ token service_descriptor ∷ []
  service_opened = items-request P L service_descriptor

  pub bp_create_client_lem :
      (d : D) (name : Bytes)
      → bp_create_client P (bn_service P r base) d name ≡ r.create_client d name
  unfolding bp_create_client bn_service
  bp_create_client_lem d name =
      let p = write_string8 (request P service_descriptor) name in
      let body = λ (rest : Parcel). r.create_client d (read_string8 rest).0 >>= λ (d', c).
      some (d', no_error, write_strong_binder P.empty c) in
      let (passes, left) = checked_own P L d service_descriptor p (text name ∷ []) body (
        put_text P L (request P service_descriptor) name (token service_descriptor ∷ [])
          service_opened) in
      let same_code : (act_create_client P == act_create_client P) ≡ true =
        (==_iff (act_create_client P) (act_create_client P)).1 refl in
      rw (same_code, passes, (L.read_string8_lem _ name [] left).0)
        (arrives (r.create_client d name))
    where
      arrives :
          (m : Option (D × ℕ))
          → ((m >>= λ (d', c). some (d', no_error, write_strong_binder P.empty c))
              >>= λ (d', status, reply).
                  some (d', if is_zero status then (read_strong_binder reply).0 else 0))
            ≡ m
      arrives none = refl
      arrives (some (d', c)) =
          ap (λ k. some (d', k))
            (L.read_strong_binder_lem (write_strong_binder P.empty c) c []
              (put_object P L P.empty c [] L.items-empty)).0

  pub bp_get_service_status_lem :
      (d : D) → bp_get_service_status P (bn_service P r base) d ≡ r.get_service_status d
  unfolding bp_get_service_status bn_service write_ret
  bp_get_service_status_lem d =
      let body = λ (rest : Parcel). r.get_service_status d >>= λ x. some (write_ret P x) in
      let (passes, left) =
        checked_own P L d service_descriptor (request P service_descriptor) [] body
          service_opened in
      let other : (act_service_status P == act_create_client P) ≡ false = ground arith in
      let this : (act_service_status P == act_service_status P) ≡ true = ground arith in
      rw (other, this, passes) (arrives (r.get_service_status d))
    where
      arrives :
          (m : Option (D × ℤ))
          → ((m >>= λ x. some (write_ret P x)) >>= λ (d', status, reply).
              some (d', if is_zero status then (read_int32 reply).0 else minus_one))
            ≡ m
      arrives none = refl
      arrives (some (d', z)) =
          ap (λ k. some (d', k))
            (L.read_int32_lem (write_int32 P.empty z) z []
              (put_number P L P.empty z [] L.items-empty)).0
