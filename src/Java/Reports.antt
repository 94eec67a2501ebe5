-- ===== src/Java/Reports.antt =====
-- What a Java object reports: native_reportEvent and native_reportProperty of jni/IOT_JNI.cpp, with
-- jni/client, jni/binder and jni/server behind them.
use java_iotwrap.Common.{
  ℕ, ◌≡◌, refl, ap, ◌∙◌, inl, inr, Bool, Option, none, some, ◌>>=◌, ◌==◌, ◌||◌, if◌then◌else◌,
  Bool-cases, Bytes, ℤ, length, arith,
}
use java_iotwrap.ClientJni.{
  Remote, is_empty, err_proxy_null, err_param_invalid, report_event, report_property,
}
use java_iotwrap.ClientJni.Replay.{service_remote}
use java_iotwrap.Service.Session.{client_report_event, client_report_property}
use java_iotwrap.Shadow.{Sdk, Shadow, Alloc}
use java_iotwrap.Shadow.Report.{do_report_event, do_report_property}
use java_iotwrap.Shadow.Subclass.{shadow_backend}
use java_iotwrap.Binder.{Parcels, IsLawful, Transact}
use java_iotwrap.Binder.Remoting.{through_binder, through_binder_lem}
use java_iotwrap.Java.{Jni, jstring_to_string8}
use java_iotwrap.Java.Natives.{Process, jni_report_event, jni_report_property}

module _ {J : Type 0} (jni : Jni J) where
  jstring_is :
      (j : J) (o : ℕ) (text : Bytes)
      → (jni.get_string_utf_chars j o).1 ≡ some text
      → (jstring_to_string8 jni j o).1 ≡ text
  unfolding jstring_to_string8
  jstring_is j o text e = rw (e, jstring_to_string8) refl

  module _ {D : Type 0} (r : Remote D) where
    -- What a native method leaves of the server, with its result.
    abbrev pub outcome : Option (Process J × D × ℤ) → Option (D × ℤ)
    outcome none = none
    outcome (some (s, d, ret)) = some (d, ret)

    outcome-bind :
        (s : Process J) (o : Option (D × ℤ)) → outcome (o >>= λ (d, ret). some (s, d, ret)) ≡ o
    outcome-bind s none = refl
    outcome-bind s (some (d, ret)) = refl

    jni_report_property-outcome :
        (s : Process J) (d : D) (name value : ℕ) (key val : Bytes)
        → ((j : J) → (jni.get_string_utf_chars j name).1 ≡ some key)
        → ((j : J) → (jni.get_string_utf_chars j value).1 ≡ some val)
        → outcome (jni_report_property jni r s d name value) ≡ report_property r s.library d key val
    unfolding jni_report_property
    jni_report_property-outcome s d name value key val k v =
        let (j1, t) = jstring_to_string8 jni s.java name in
        outcome-bind _ _
        ∙ ap (λ x. report_property r s.library d x (jstring_to_string8 jni j1 value).1)
            (jstring_is s.java name key (k s.java))
        ∙ ap (λ x. report_property r s.library d key x) (jstring_is j1 value val (v j1))

    jni_report_event-outcome :
        (s : Process J) (d : D) (text : ℕ) (msg : Bytes)
        → ((j : J) → (jni.get_string_utf_chars j text).1 ≡ some msg)
        → outcome (jni_report_event jni r s d text) ≡ report_event r s.library d msg
    unfolding jni_report_event
    jni_report_event-outcome s d text msg e =
        outcome-bind _ _
        ∙ ap (λ x. report_event r s.library d x) (jstring_is s.java text msg (e s.java))

module _ (P : Parcels) (L : IsLawful P) (sdk : Sdk) (m : Alloc) (base : Transact P Shadow)
    (left_first : Bool) where
  -- The server behind the binder.
  abbrev server : Remote Shadow
  server = through_binder P (service_remote (shadow_backend sdk m)) left_first base

  server_reports :
      (server.report_property ≡ (λ d c key val. do_report_property sdk d (some key) (some val)))
      × (server.report_event ≡ (λ d c msg. some (do_report_event sdk d (some msg) (length msg))))
  unfolding service_remote shadow_backend client_report_property client_report_event
  server_reports = elim (Bool-cases left_first) [
    | inl t ↦
        let e = through_binder_lem P L (service_remote (shadow_backend sdk m)) base in
        rw t (
          ap (λ (r : Remote Shadow). r.report_property) e.0,
          ap (λ (r : Remote Shadow). r.report_event) e.0,
        )
    | inr t ↦
        let e = through_binder_lem P L (service_remote (shadow_backend sdk m)) base in
        rw t (
          ap (λ (r : Remote Shadow). r.report_property) e.1,
          ap (λ (r : Remote Shadow). r.report_event) e.1,
        )
  ]

  -- Where parcels are read in the order in which they were written, in whichever order the service's
  -- compiler evaluates arguments, and the strings of Java can be read: native_reportProperty and
  -- native_reportEvent do to the shadow, and return, what doReportProperty and doReportEvent do and
  -- return for the texts; without a proxy they return ERR_PROXY_NULL and for an empty text
  -- ERR_PARAM_INVALID, and leave the server alone.
  pub native_report_lem :
      {J : Type 0} (jni : Jni J) (s : Process J) (d : Shadow) (name value : ℕ) (key val : Bytes)
      → ((j : J) → (jni.get_string_utf_chars j name).1 ≡ some key)
      → ((j : J) → (jni.get_string_utf_chars j value).1 ≡ some val)
      → (outcome jni server (jni_report_property jni server s d name value) ≡ (
          if s.library.proxy == 0
          then some (d, err_proxy_null)
          else if is_empty key || is_empty val
          then some (d, err_param_invalid)
          else do_report_property sdk d (some key) (some val)))
        × (outcome jni server (jni_report_event jni server s d value) ≡ (
            if s.library.proxy == 0
            then some (d, err_proxy_null)
            else if is_empty val
            then some (d, err_param_invalid)
            else some (do_report_event sdk d (some val) (length val))))
  unfolding report_property report_event
  native_report_lem jni s d name value key val k v = (
    jni_report_property-outcome jni server s d name value key val k v ∙ property,
    jni_report_event-outcome jni server s d value val v
        ∙ ap
            (λ (f : Shadow → ℕ → Bytes → Option (Shadow × ℤ)).
              if s.library.proxy == 0
              then some (d, err_proxy_null)
              else if is_empty val
              then some (d, err_param_invalid)
              else f d s.library.proxy val)
            server_reports.1,
  )
    where
      property : report_property server s.library d key val ≡ (
          if s.library.proxy == 0
          then some (d, err_proxy_null)
          else if is_empty key || is_empty val
          then some (d, err_param_invalid)
          else do_report_property sdk d (some key) (some val))
      property = rw (server_reports.0) (ground arith)
