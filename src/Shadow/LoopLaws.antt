-- ===== src/Shadow/LoopLaws.antt =====
-- The life of the shadow's thread in jni/server/IOT_DeviceShadow.cpp: the start ends and makes the
-- service connected, the attributes are given to the SDK in order, and a round clears the flags.
use java_iotwrap.Common.{
  ℕ, zero, suc, ◌+◌, ◌<◌, ◌≡◌, ◌≢◌, refl, ap, sym, ◌∙◌, inl, inr, true, false, List, [], ◌∷◌, ◌++◌,
  append_assoc, append-nil, Option, some, Ensures, Succeeds, Succeeds-bind, ◌≤◌, length, Bool-cases,
  arith, ◌==◌, ◌||◌, Bytes, pos,
}
use java_iotwrap.StdMap.{StdMap}
use java_iotwrap.Service.Calls.{Call}
use java_iotwrap.Shadow.{
  DsAttr, SdkCall, register_attribute, delete_attribute, control_register, pull, destroy, Sdk,
  Shadow, ask_sdk, get_service_status,
}
use java_iotwrap.Shadow.Push.{send_due, lower_flags, push_due, push_properties}
use java_iotwrap.Shadow.Update.{update_properties}
use java_iotwrap.Shadow.Total.{HaveRoom, update_properties_total}
use java_iotwrap.Shadow.Loop.{
  construct, setup_shadow, for_attrs, register_shadow, post_shadow, is_due, round,
}

construct_first :
    (handle : ℕ → ℕ) (k fuel i : ℕ)
    → ((j : ℕ) → j < k → handle (i + j) ≡ 0)
    → handle (i + k) ≢ 0
    → k < fuel
    → construct handle fuel i ≡ some (handle (i + k))
unfolding construct
construct_first handle k zero i h n lt = absurd (omega arith)
construct_first handle zero (suc fuel) i h n lt =
    let e : i ≡ i + 0 = omega arith in
    let e' : (handle i == 0) ≡ false = ground (arith, ap handle e) in rw e' (ap some (ap handle e))
construct_first handle (suc k) (suc fuel) i h n lt =
    let e : i + 0 ≡ i = omega arith in
    let e' : handle i ≡ 0 = ap handle (sym e) ∙ h 0 (omega arith) in
    let t : (handle i == 0) ≡ true = ground (arith, e') in
    let step : i + suc k ≡ i + 1 + k = omega arith in
    rw t (
      construct_first handle k fuel (i + 1)
        (λ j l.
          let shift : i + 1 + j ≡ i + suc j = omega arith in
          ap handle shift ∙ h (suc j) (omega arith))
        (λ z. n (ap handle step ∙ z)) (omega arith)
      ∙ ap some (ap handle (sym step)))

-- If the connection data can be set up and some call of IOT_Shadow_Construct gives a handle, then
-- setupShadow ends after the first such call and returns 0, and from then on the status is
-- DS_STATUS_CONNECTED; the attributes and the clients are as they were.
pub setup_shadow_connects :
    (handle : ℕ → ℕ) (k fuel : ℕ) (d : Shadow)
    → ((j : ℕ) → j < k → handle j ≡ 0)
    → handle k ≢ 0
    → k < fuel
    → (setup_shadow handle fuel (pos 0) d ≡ some (record d { shadow = handle k }, pos 0))
      × (get_service_status (record d { shadow = handle k }) ≡ pos 0)
unfolding setup_shadow get_service_status
setup_shadow_connects handle k fuel d h n lt =
    let e : 0 + k ≡ k = omega arith in
    let made =
      construct_first handle k fuel 0
        (λ j l. let s : 0 + j ≡ j = omega arith in ap handle s ∙ h j l)
        (λ q. n (ap handle (sym e) ∙ q)) lt
      ∙ ap some (ap handle e) in
    (rw made, ground arith)

-- One call of the SDK for each attribute, by its name.
abbrev pub calls_for : (Bytes → SdkCall) → StdMap DsAttr → List SdkCall
calls_for f [] = []
calls_for f ((k, e) ∷ m) = f e.attr.name ∷ calls_for f m

for_attrs_lem :
    (sdk : Sdk) (f : Bytes → SdkCall) (m : StdMap DsAttr) (d : Shadow)
    → for_attrs sdk f m d ≡ record d { calls = d.calls ++ calls_for f m }
unfolding for_attrs
for_attrs_lem sdk f [] d = ap (λ c. record d { calls = c }) (sym (append-nil d.calls))
for_attrs_lem sdk f ((k, e) ∷ m) d =
    for_attrs_lem sdk f m (ask_sdk sdk d (f e.attr.name)).0
    ∙ ap (λ c. record d { calls = c }) (append_assoc d.calls (f e.attr.name ∷ []) (calls_for f m))

pub register_shadow_lem :
    (sdk : Sdk) (d : Shadow)
    → register_shadow sdk d ≡ record d {
      calls =
          d.calls
          ++ (calls_for (register_attribute d.shadow) d.attrs
              ++ control_register d.shadow ∷ pull d.shadow ∷ []);
    }
unfolding register_shadow ask_sdk
register_shadow_lem sdk d =
    rw (for_attrs_lem sdk (register_attribute d.shadow) d.attrs d)
      (ap (λ c. record d { calls = c }) (simp append_assoc refl))

pub post_shadow_lem :
    (sdk : Sdk) (d : Shadow)
    → post_shadow sdk d ≡ record d {
      calls = d.calls ++ (calls_for (delete_attribute d.shadow) d.attrs ++ destroy d.shadow ∷ []);
      shadow = 0;
    }
unfolding post_shadow ask_sdk
post_shadow_lem sdk d =
    rw (for_attrs_lem sdk (delete_attribute d.shadow) d.attrs d)
      (ap (λ c. record d { calls = c; shadow = 0 }) (simp append_assoc refl))

flags_down :
    (sdk : Sdk) (d : Shadow)
    → ((push_properties sdk d).0.report_flag ≡ false)
      × ((push_properties sdk d).0.force_report ≡ false)
unfolding push_properties push_due send_due lower_flags
flags_down sdk d = elim (Bool-cases (d.report_flag || d.force_report)) [
  | inl t ↦ rw t (refl, refl)
  | inr t ↦ rw t (ground arith)
]

-- A round of the thread's loop, where no client answers more than nine bytes and the attributes have
-- room for that, ends; afterwards no report is asked for or forced. The clients are asked for their
-- values, and the time is taken anew, only when more than the report period has passed.
round_lem :
    (sdk : Sdk) (answer : ℕ → Bytes → Option Bytes) (now later : ℕ) (d : Shadow) (started : ℕ)
    → ((cb : ℕ) (key : Bytes) → Ensures (λ t. length t ≤ 9) (answer cb key))
    → HaveRoom d.attrs
    → Succeeds
        (λ ((d', started', calls) : Shadow × ℕ × List Call).
          (d'.report_flag ≡ false)
          × (d'.force_report ≡ false)
          × (is_due d.report_period now started ≡ false → (calls ≡ []) × (started' ≡ started))
          × (is_due d.report_period now started ≡ true → started' ≡ later))
        (round sdk answer now later d started)
unfolding round
round_lem sdk answer now later d started short room =
    elim (Bool-cases (is_due d.report_period now started)) [
      | inl t ↦ rw t (
          Succeeds-bind _ _ (update_properties answer d) _
            (λ (d', ret, calls) _.
              ((flags_down sdk d').0, (flags_down sdk d').1, (λ q. cc q), (λ _. refl)))
            (update_properties_total answer short d room))
      | inr t ↦ rw t ((flags_down sdk d).0, (flags_down sdk d).1, (λ _. (refl, refl)), (λ q. cc q))
    ]
