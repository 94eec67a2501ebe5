-- ===== src/Shadow/Subclass.antt =====
-- DeviceShadow of jni/server/IOT_DeviceShadow.cpp as the subclass of IOTService that its clients see.
use java_iotwrap.Common.{
  ℕ, ◌≡◌, refl, Option, none, some, Ensures, Ensures-bind, Ensures-any, Ensures-some, arith, Bytes,
  ℤ, minus_one,
}
use java_iotwrap.StdMap.{find}
use java_iotwrap.Service.Session.{Backend}
use java_iotwrap.Shadow.{
  get_service_status, AttrType, int32, string, other, Attr, DsAttr, Sdk, Shadow, Alloc, add_entry,
}
use java_iotwrap.Shadow.Value.{store_text}
use java_iotwrap.Shadow.Report.{
  register_late, do_add_property, do_report_event, urgent_report, stored_report, report_attr,
  do_report_property,
}

module _ (sdk : Sdk) (m : Alloc) where
  -- The parts leave the service as it is.
  service-register_late :
      (d : Shadow) (o : Option Attr) → (register_late sdk (d, o)).service ≡ d.service
  unfolding register_late
  service-register_late d none = refl
  service-register_late d (some a) = ground arith

  pub service-do_add_property :
      (d : Shadow) (k : Option Bytes) (t n : ℤ)
      → (do_add_property sdk m d k t n).0.service ≡ d.service
  unfolding do_add_property add_entry register_late
  service-do_add_property d k t n = ground arith

  pub service-do_report_event :
      (d : Shadow) (k : Option Bytes) (n : ℕ) → (do_report_event sdk d k n).0.service ≡ d.service
  unfolding do_report_event
  service-do_report_event d k n = ground arith

  service-stored_report :
      (d : Shadow) (k : Bytes) (a : Attr) → (stored_report sdk d k a).0.service ≡ d.service
  unfolding stored_report urgent_report
  service-stored_report d k a = ground arith

  abbrev KeepsService : Shadow → Shadow × ℤ → Type 0
  KeepsService d (d', r) = d'.service ≡ d.service

  service-report_attr :
      (d : Shadow) (k : Bytes) (a : Attr) (t : AttrType) (v : Bytes)
      → Ensures (KeepsService d) (report_attr sdk d k a t v)
  unfolding report_attr
  service-report_attr d k a int32 v =
      Ensures-bind (λ _. Unit) (KeepsService d) a.mem _
        (λ p _.
          Ensures-bind (λ _. Unit) (KeepsService d) (store_text int32 p v) _
            (λ q _. service-stored_report d k _) (Ensures-any (store_text int32 p v)))
        (Ensures-any a.mem)
  service-report_attr d k a string v =
      Ensures-bind (λ _. Unit) (KeepsService d) a.mem _
        (λ p _.
          Ensures-bind (λ _. Unit) (KeepsService d) (store_text string p v) _
            (λ q _. service-stored_report d k _) (Ensures-any (store_text string p v)))
        (Ensures-any a.mem)
  service-report_attr d k a (other n) v = refl

  pub service-do_report_property :
      (d : Shadow) (k v : Option Bytes) → Ensures (KeepsService d) (do_report_property sdk d k v)
  unfolding do_report_property
  service-do_report_property d none v = refl
  service-do_report_property d (some k) none = refl
  service-do_report_property d (some k) (some v) = go (find k d.attrs)
    where
      go :
          (o : Option DsAttr)
          → Ensures (KeepsService d) (elim o [
            | none ↦ some (d, minus_one)
            | some e ↦ report_attr sdk d k e.attr e.attr.attr_type v
          ])
      go none = refl
      go (some e) = service-report_attr d k e.attr e.attr.attr_type v

  -- DeviceShadow as the subclass of IOTService.
  unfoldable pub shadow_backend : Backend Shadow
  shadow_backend = record {
    service = λ d. d.service;
    with_service = λ d s. record d { service = s };
    get_service_status = get_service_status;
    do_add_property = do_add_property sdk m;
    do_report_event = do_report_event sdk;
    do_report_property = do_report_property sdk;
    service-with_service = λ d s. refl;
    service-do_add_property = service-do_add_property;
    service-do_report_event = service-do_report_event;
    service-do_report_property = λ d k v e.
        Ensures-some (KeepsService d) (do_report_property sdk d k v) e
          (service-do_report_property d k v);
  }
