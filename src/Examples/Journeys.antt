-- ===== src/Examples/Journeys.antt =====
-- From Java to the service: a Java object follows the property "21" and connects.
use java_iotwrap.Common.{
  ℕ, ◌≡◌, refl, true, false, some, ◌==◌, if◌then◌else◌, Succeeds, arith, codes, pos,
}
use java_iotwrap.ClientJni.{new_client_jni}
use java_iotwrap.Shadow.Subclass.{shadow_backend}
use java_iotwrap.Binder.Remoting.{through_binder}
use java_iotwrap.Java.Natives.{
  Process, setup, jni_follow_property, jni_conn_service, jni_report_event, jni_report_property,
}
use java_iotwrap.ClientJni.Replay.{service_remote}
use java_iotwrap.Shadow.Report.{do_report_event, do_report_property}
use java_iotwrap.Java.{Jni}
use java_iotwrap.Java.Reports.{outcome, native_report_lem}
use java_iotwrap.Java.Journey.{Serves, native_follow_lem}
use java_iotwrap.Examples.Data.{temp, demo-IsValid, names_sdk, all_memory, demo_shadow}
use java_iotwrap.Examples.Clients.{remote, tries, answers, may_create_runs, try_count_runs}
use java_iotwrap.Examples.Parcel.{item_list, item_list-IsLawful, refuse}
use java_iotwrap.Examples.Javas.{java, java-HasMethods}

abbrev process : Process ℕ
process = record {
  library = new_client_jni;
  property = record { class = 0; object = 0; property_get = 0; property_set = 0 };
  command = record { class = 0; object = 0; control_cb = 0 };
  java = 0;
}

native_follow_lem_example :
    let s1 = setup java process 8 9 10 32 31 in
    let s2 = (jni_follow_property java s1 6 (pos 1) (pos 4)).0 in
    Succeeds
      (Serves item_list item_list-IsLawful java
        (shadow_backend (names_sdk true) all_memory)
        refuse
        tries
        (codes "21"))
      (jni_conn_service java
        (through_binder item_list remote true refuse)
        tries
        s2
        demo_shadow
        (pos 250))
unfolding shadow_backend new_client_jni
native_follow_lem_example =
    native_follow_lem item_list item_list-IsLawful java (shadow_backend (names_sdk true) all_memory)
      refuse tries process 8 9 10 32 31 6 (codes "21") (pos 1) (pos 4) demo_shadow (pos 250) 3
      (λ e. omega (arith, e)) (λ e. omega (arith, e)) java-HasMethods refl refl (λ i. refl)
      try_count_runs answers may_create_runs demo-IsValid

-- Java strings 6 and 7 are the property's name and its value.
abbrev texts : Jni ℕ
texts = record java { get_string_utf_chars = λ j o. (j, some (if o == 6 then temp else codes "5")) }

native_report_lem_example :
    let s = record process { library = record new_client_jni { proxy = 1 } } in
    let server =
      through_binder item_list
        (service_remote (shadow_backend (names_sdk true) all_memory))
        false
        refuse in
    (outcome texts server (jni_report_property texts server s demo_shadow 6 7)
      ≡ do_report_property (names_sdk true) demo_shadow (some temp) (some (codes "5")))
    × (outcome texts server (jni_report_event texts server s demo_shadow 7)
        ≡ some (do_report_event (names_sdk true) demo_shadow (some (codes "5")) 1))
unfolding new_client_jni
native_report_lem_example =
    native_report_lem item_list item_list-IsLawful (names_sdk true) all_memory refuse false texts
      (record process { library = record new_client_jni { proxy = 1 } }) demo_shadow 6 7 temp
      (codes "5") (λ j. refl) (λ j. refl)
