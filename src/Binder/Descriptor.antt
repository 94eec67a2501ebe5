-- ===== src/Binder/Descriptor.antt =====
-- jni/binder: transactions that fail, and transactions on the wrong object. IIOTService is declared with
-- the descriptor of IIOTClient.
use java_iotwrap.Common.{
  ℕ, ◌+◌, ◌<◌, ◌≤◌, ◌≡◌, ◌≢◌, refl, Bool, true, false, List, [], ◌∷◌, Option, none, some, ◌>>=◌,
  arith, ◌==◌, ==_iff, Bytes, ℤ, is_zero, minus_one, same,
}
use java_iotwrap.ClientJni.{Remote}
use java_iotwrap.Binder.{
  Item, token, text, number, Parcels, IsLawful, Transact, request, int32_reply, write_ret,
  client_pack, service_descriptor, no_error,
}
use java_iotwrap.Binder.Queue.{items-request, put_text, put_number, checked_own, checked_other}
use java_iotwrap.Binder.Client.{
  act_follow_property, bp_follow_property, bp_follow_command, bp_report_event, bp_report_property,
  bp_regist_command_cb, bp_regist_property_cb, bn_client, on_code,
}
use java_iotwrap.Binder.Service.{
  act_create_client, bp_create_client, bp_get_service_status, bn_service,
}
use java_iotwrap.Binder.Remoting.{binder_remote}

module _ (P : Parcels) {D : Type 0} where
  -- Where every transaction fails with a status that is not 0, as with an object whose process is
  -- gone, each method of IIOTClient gives that status, createClient gives NULL, and getServiceStatus
  -- gives DS_STATUS_INVALID.
  binder_remote_dead :
      (service : Transact P D) (client : ℕ → Transact P D) (status : ℤ) (reply : P.Parcel) (d : D)
      (c cb : ℕ) (key val : Bytes) (type size : ℤ)
      → is_zero status ≡ false
      → ((code : ℕ) (p : P.Parcel) → service d code p ≡ some (d, status, reply))
      → ((code : ℕ) (p : P.Parcel) → client c d code p ≡ some (d, status, reply))
      → let r = binder_remote P service client in
        (r.create_client d key ≡ some (d, 0))
        × (r.get_service_status d ≡ some (d, minus_one))
        × (r.follow_property d c key type size ≡ some (d, status))
        × (r.follow_command d c key ≡ some (d, status))
        × (r.regist_command_cb d c cb ≡ some (d, status))
        × (r.regist_property_cb d c cb ≡ some (d, status))
        × (r.report_event d c val ≡ some (d, status))
        × (r.report_property d c key val ≡ some (d, status))
  unfolding binder_remote bp_create_client bp_get_service_status bp_follow_property
      bp_follow_command bp_regist_command_cb bp_regist_property_cb bp_report_event
      bp_report_property int32_reply
  binder_remote_dead service client status reply d c cb key val type size z s h = (
    rw (s _ _, z) refl,
    rw (s _ _, z) refl,
    rw (h _ _, z) refl,
    rw (h _ _, z) refl,
    rw (h _ _, z) refl,
    rw (h _ _, z) refl,
    rw (h _ _, z) refl,
    rw (h _ _, z) refl,
  )

  module _ (L : IsLawful P) (r : Remote D) (base : Transact P D) where
    open L use {items}

    -- A followProperty that is sent to the service's own object passes the check of its token and
    -- creates a client with the property's key for its name.
    service_takes_follow_property :
        (d : D) (key : Bytes) (type size : ℤ)
        → bn_service P r base d
            (act_follow_property P)
            (P.write_int32 (P.write_int32 (P.write_string8 (request P client_pack) key) type) size)
          ≡ (r.create_client d key >>= λ (d', c).
              some (d', no_error, P.write_strong_binder P.empty c))
    unfolding bn_service
    service_takes_follow_property d key type size =
        let p1 = P.write_string8 (request P client_pack) key in
        let p2 = P.write_int32 p1 type in
        let args : List Item = text key ∷ number type ∷ number size ∷ [] in
        let body = λ (rest : P.Parcel). r.create_client d (P.read_string8 rest).0 >>= λ (d', c).
        some (d', no_error, P.write_strong_binder P.empty c) in
        let (passes, left) =
          checked_own P L d service_descriptor (P.write_int32 p2 size) args body (
            put_number P L p2 size (token client_pack ∷ text key ∷ number type ∷ []) (
              put_number P L p1 type (token client_pack ∷ text key ∷ []) (
                put_text P L (request P client_pack) key (token client_pack ∷ [])
                  (items-request P L client_pack)))) in
        let this : (act_follow_property P == act_create_client P) ≡ true =
          (==_iff (act_follow_property P) (act_create_client P)).1 refl in
        rw (this, passes, (L.read_string8_lem _ key (number type ∷ number size ∷ []) left).0) refl

    on_code_range :
        (left_first : Bool) (c code : ℕ)
        → (P.first_call ≤ code
            → code < P.first_call + 6
            → on_code P r left_first base c code ≢ none)
          × (code < P.first_call → on_code P r left_first base c code ≡ none)
          × (P.first_call + 6 ≤ code → on_code P r left_first base c code ≡ none)
    unfolding on_code
    on_code_range left_first c code =
        ((λ h k. ground arith), (λ h. ground arith), (λ h. ground arith))

    -- The client's stub refuses each of its six transactions with PERMISSION_DENIED, and changes
    -- nothing, if the parcel starts with another token than its own; any other code goes to
    -- BBinder::onTransact.
    pub bn_client_guards :
        (left_first : Bool) (c code : ℕ) (d : D) (p : P.Parcel) (t : Bytes) (args : List Item)
        → items p ≡ token t ∷ args
        → (P.first_call ≤ code
            → code < P.first_call + 6
            → same t client_pack ≡ false
            → bn_client P r left_first base c d code p ≡ some (d, P.permission_denied, P.empty))
          × (code < P.first_call → bn_client P r left_first base c d code p ≡ base d code p)
          × (P.first_call + 6 ≤ code → bn_client P r left_first base c d code p ≡ base d code p)
    unfolding bn_client
    bn_client_guards left_first c code d p t args e = (
      (λ h k n.
          refuses (on_code P r left_first base c code) refl
            ((on_code_range left_first c code).0 h k) n),
      (λ h. rw ((on_code_range left_first c code).1 h, bn_client) refl),
      (λ h. rw ((on_code_range left_first c code).2 h, bn_client) refl),
    )
      where
        refuses :
            (o : Option (D → P.Parcel → Option (D × ℤ)))
            → on_code P r left_first base c code ≡ o
            → o ≢ none
            → same t client_pack ≡ false
            → bn_client P r left_first base c d code p ≡ some (d, P.permission_denied, P.empty)
        refuses none q k n = absurd (k refl)
        refuses (some method) q k n =
            rw (q, bn_client)
              (checked_other P L d client_pack t p args
                (λ rest. method d rest >>= λ x. some (write_ret P x)) e n)
