-- ===== src/Service/Session.antt =====
-- jni/server/IOT_Service.cpp: the methods of IOTClient, the object that a client's proxy calls.
-- `Backend` is what IOTService leaves to its subclass: getServiceStatus, doAddProperty, doReportEvent
-- and doReportProperty, over a state that holds the service.
use java_iotwrap.Common.{
  ℕ, ◌≡◌, Option, none, some, ◌==◌, if◌then◌else◌, Bytes, ℤ, pos, minus_one, is_zero, length,
}
use java_iotwrap.Service.{
  Service, follow_property, follow_command, store, add_following, remove_client, client_active,
}

-- `none` as the result of a method is an access outside an object or through NULL.
pub record Backend (D : Type 0) : Type 0 where
  pub service : D → Service
  pub with_service : D → Service → D
  pub get_service_status : D → ℤ
  pub do_add_property : D → Option Bytes → ℤ → ℤ → D × ℤ
  pub do_report_event : D → Option Bytes → ℕ → D × ℤ
  pub do_report_property : D → Option Bytes → Option Bytes → Option (D × ℤ)
  -- None of them touches the tables of clients.
  pub service-with_service : (d : D) (s : Service) → service (with_service d s) ≡ s
  pub service-do_add_property :
      (d : D) (k : Option Bytes) (t n : ℤ) → service (do_add_property d k t n).0 ≡ service d
  pub service-do_report_event :
      (d : D) (m : Option Bytes) (n : ℕ) → service (do_report_event d m n).0 ≡ service d
  pub service-do_report_property :
      (d : D) (k v : Option Bytes) {d' : D} {r : ℤ}
      → do_report_property d k v ≡ some (d', r)
      → service d' ≡ service d

-- IOTClient::registCommandCB, on the client at address `c`.
unfoldable pub regist_command_cb : Service → ℕ → ℕ → Service × ℤ
regist_command_cb s c cb =
    let o = s.objects c in
    if o.command == 0
    then (record s { objects = store s.objects c (record o { command = cb }) }, pos 0)
    else (s, minus_one)

-- IOTClient::registPropertyCB: with a NULL callback `linkToDeath` is called through NULL.
unfoldable pub regist_property_cb : Service → ℕ → ℕ → Option (Service × ℤ)
regist_property_cb s c cb =
    let o = s.objects c in
    if o.property == 0
    then if cb == 0
      then none
      else some (
        client_active (record s { objects = store s.objects c (record o { property = cb }) }),
        pos 0,
      )
    else some (s, minus_one)

-- IOTClient::binderDied.
unfoldable pub binder_died : Service → ℕ → Service
binder_died s c = (remove_client s c).0

module _ {D : Type 0} (b : Backend D) where
  open b use {service, with_service, do_add_property, do_report_event, do_report_property}

  -- IOTClient::followProperty.
  unfoldable pub client_follow_property : D → ℕ → Bytes → ℤ → ℤ → D × ℤ
  client_follow_property d c key type size =
      let (s, ret) = add_following (service d) follow_property (some key) c in
      let d' = with_service d s in
      if is_zero ret then do_add_property d' (some key) type size else (d', minus_one)

  -- IOTClient::followCommand.
  unfoldable pub client_follow_command : D → ℕ → Bytes → D × ℤ
  client_follow_command d c cmd =
      let (s, ret) = add_following (service d) follow_command (some cmd) c in
      (with_service d s, if is_zero ret then pos 0 else minus_one)

  -- IOTClient::reportEvent and reportProperty.
  unfoldable pub client_report_event : D → Bytes → D × ℤ
  client_report_event d msg = do_report_event d (some msg) (length msg)

  unfoldable pub client_report_property : D → Bytes → Bytes → Option (D × ℤ)
  client_report_property d key val = do_report_property d (some key) (some val)
