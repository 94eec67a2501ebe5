-- ===== src/Binder/Service.antt =====
-- jni/binder/IIOTService.cpp: BpIOTService and BnIOTService.
use java_iotwrap.Common.{
  ℕ, ◌+◌, Option, some, ◌>>=◌, ◌==◌, if◌then◌else◌, Bytes, ℤ, minus_one, is_zero,
}
use java_iotwrap.ClientJni.{Remote}
use java_iotwrap.Binder.{
  Parcels, Transact, request, write_ret, checked, service_descriptor, no_error,
}

module _ (P : Parcels) where
  open P use {
    Parcel, empty, write_string8, write_strong_binder, read_string8, read_int32, read_strong_binder,
    first_call,
  }

  -- IOTACTION_CREATE_CLIENT and IOTACTION_SERVICE_STATUS.
  abbrev pub act_create_client : ℕ
  act_create_client = first_call

  abbrev pub act_service_status : ℕ
  act_service_status = first_call + 1

  module _ {D : Type 0} (transact : Transact P D) where
    -- BpIOTService. A failed transaction gives NULL, and DS_STATUS_INVALID.
    unfoldable pub bp_create_client : D → Bytes → Option (D × ℕ)
    unfolding request
    bp_create_client d name =
        transact d act_create_client (write_string8 (request P service_descriptor) name)
        >>= λ (d', status, reply).
            some (d', if is_zero status then (read_strong_binder reply).0 else 0)

    unfoldable pub bp_get_service_status : D → Option (D × ℤ)
    unfolding request
    bp_get_service_status d =
        transact d act_service_status (request P service_descriptor) >>= λ (d', status, reply).
        some (d', if is_zero status then (read_int32 reply).0 else minus_one)

  -- BnIOTService::onTransact.
  unfoldable pub bn_service : {D : Type 0} → Remote D → Transact P D → Transact P D
  unfolding checked write_ret
  bn_service r base d code p =
      if code == act_create_client
      then checked P d service_descriptor p (λ rest.
        r.create_client d (read_string8 rest).0 >>= λ (d', c).
        some (d', no_error, write_strong_binder empty c))
      else if code == act_service_status
      then checked P d service_descriptor p
          (λ rest. r.get_service_status d >>= λ x. some (write_ret P x))
      else base d code p
