-- ===== src/Binder/Remoting.antt =====
-- jni/binder between jni/client and jni/server: the service as the client library sees it, through the
-- proxies of IIOTService and IIOTClient.
use java_iotwrap.Common.{
  ℕ, ◌≡◌, ◌≢◌, sym, subst, Bool, true, false, some, Succeeds, if◌then◌else◌, ℤ, pos, All, Has,
}
use mathlib.Core.Path.{fun_ext}
use java_iotwrap.ClientJni.{Remote, Tries, PropertyInfo, ClientJni, try_count, conn_service}
use java_iotwrap.ClientJni.Connect.{Answers}
use java_iotwrap.ClientJni.Grows.{Follows}
use java_iotwrap.ClientJni.Replay.{service_remote}
use java_iotwrap.ClientJni.Restore.{conn_service_restores}
use java_iotwrap.Service.{follow_property, follow_command, may_create}
use java_iotwrap.Service.Invariant.{IsValid}
use java_iotwrap.Service.Session.{Backend}
use java_iotwrap.Binder.{Parcels, IsLawful, Transact}
use java_iotwrap.Binder.Client.{
  bp_follow_property, bp_follow_command, bp_report_event, bp_report_property, bp_regist_command_cb,
  bp_regist_property_cb, bn_client,
}
use java_iotwrap.Binder.Service.{bp_create_client, bp_get_service_status, bn_service}
use java_iotwrap.Binder.Calls.{
  bp_follow_property_lem, bp_follow_command_lem, bp_report_event_lem, bp_report_property_lem,
  bp_regist_command_cb_lem, bp_regist_property_cb_lem, bp_create_client_lem,
  bp_get_service_status_lem,
}

module _ (P : Parcels) {D : Type 0} where
  -- The methods through the proxies: `service` is `transact` on the service's object, and `client` on
  -- the client's object at an address.
  unfoldable pub binder_remote : Transact P D → (ℕ → Transact P D) → Remote D
  binder_remote service client = record {
    create_client = bp_create_client P service;
    get_service_status = bp_get_service_status P service;
    follow_property = λ d c. bp_follow_property P (client c) d;
    follow_command = λ d c. bp_follow_command P (client c) d;
    regist_command_cb = λ d c. bp_regist_command_cb P (client c) d;
    regist_property_cb = λ d c. bp_regist_property_cb P (client c) d;
    report_event = λ d c. bp_report_event P (client c) d;
    report_property = λ d c. bp_report_property P (client c) d;
  }

  -- Through the binder: each transaction reaches the stub of its object.
  abbrev pub through_binder : Remote D → Bool → Transact P D → Remote D
  through_binder r left_first base =
      binder_remote (bn_service P r base) (bn_client P r left_first base)

  -- followProperty with its two numbers exchanged.
  abbrev pub swapped : Remote D → Remote D
  swapped r = record r {
    follow_property = λ d c key type size. r.follow_property d c key size type;
  }

  -- Where parcels are read in the order in which they were written and the transactions reach the
  -- stubs, the proxies are the methods of the service and of its clients, if the service's compiler
  -- evaluates arguments from left to right. If it evaluates them from right to left, followProperty
  -- takes the size for the type and the type for the size, and the other methods are the same.
  pub through_binder_lem :
      (L : IsLawful P) (r : Remote D) (base : Transact P D)
      → (through_binder r true base ≡ r) × (through_binder r false base ≡ swapped r)
  unfolding binder_remote
  through_binder_lem L r base = (all true, all false)
    where
      all :
          (left_first : Bool)
          → through_binder r left_first base ≡ record r {
            follow_property = λ d c key type size.
                if left_first
                then r.follow_property d c key type size
                else r.follow_property d c key size type;
          }
      all left_first i = record {
        create_client = fun_ext (λ d. fun_ext (bp_create_client_lem P L r base d)) i;
        get_service_status = fun_ext (bp_get_service_status_lem P L r base) i;
        follow_property =
            fun_ext
              (λ d. fun_ext (λ c. fun_ext (λ key. fun_ext (λ type.
                fun_ext (λ size. bp_follow_property_lem P L r base left_first c d key type size)))))
              i;
        follow_command =
            fun_ext (λ d. fun_ext (λ c. fun_ext (bp_follow_command_lem P L r base left_first c d)))
              i;
        regist_command_cb =
            fun_ext
              (λ d. fun_ext (λ c. fun_ext (bp_regist_command_cb_lem P L r base left_first c d))) i;
        regist_property_cb =
            fun_ext
              (λ d. fun_ext (λ c. fun_ext (bp_regist_property_cb_lem P L r base left_first c d))) i;
        report_event =
            fun_ext (λ d. fun_ext (λ c. fun_ext (bp_report_event_lem P L r base left_first c d))) i;
        report_property =
            fun_ext
              (λ d. fun_ext (λ c.
                fun_ext (λ key. fun_ext (bp_report_property_lem P L r base left_first c d key))))
              i;
      }

-- From the client library to the service over the binder, where parcels are read in the order in which
-- they were written and the service's compiler evaluates arguments from left to right: a library
-- with a property callback and without a proxy connects once the service, which meets its invariant,
-- answers within the time-out and has room for a client.
-- connService ends and returns ERR_NOERROR, the library has a proxy, whose client is connected, and that
-- client follows every property and every command of the library's lists.
pub conn_service_over_binder :
    (P : Parcels) (L : IsLawful P) {D : Type 0} (b : Backend D) (base : Transact P D) (t : Tries)
    (j : ClientJni) (d : D) (timeout : ℤ) (n : ℕ)
    → j.proxy ≡ 0
    → j.property_cb ≢ 0
    → try_count timeout ≡ some n
    → Answers t n 0 false
    → may_create (b.service d) ≡ true
    → IsValid (b.service d)
    → Succeeds
        (λ ((j', d', ret) : ClientJni × D × ℤ).
          (ret ≡ pos 0)
          × (j'.proxy ≢ 0)
          × Has j'.proxy (b.service d').clients
          × All
              (λ (i : PropertyInfo). Follows j'.proxy (b.service d') follow_property i.key)
              j.property_list
          × All (λ x. Follows j'.proxy (b.service d') follow_command x) j.command_list)
        (conn_service (through_binder P (service_remote b) true base) t j d timeout)
conn_service_over_binder P L {D} b base t j d timeout n z m e a room v =
    subst
      (λ (r : Remote D).
        Succeeds
          (λ ((j', d', ret) : ClientJni × D × ℤ).
            (ret ≡ pos 0)
            × (j'.proxy ≢ 0)
            × Has j'.proxy (b.service d').clients
            × All (λ (i : PropertyInfo). Follows j'.proxy (b.service d') follow_property i.key)
                j.property_list
            × All (λ x. Follows j'.proxy (b.service d') follow_command x) j.command_list)
          (conn_service r t j d timeout))
      (sym (through_binder_lem P L (service_remote b) base).0)
      (conn_service_restores b t j d timeout n z m e a room v)
