-- ===== src/Examples/Javas.antt =====
-- The callbacks into Java at work. The state of this Java is its number of local references: it gives
-- a string only while there are less than five, its method answers "21", and no handle is NULL.
use java_iotwrap.Common.{
  ℕ, ◌+◌, ◌-◌, ◌≡◌, ◌≢◌, refl, inl, inr, Bool-cases, true, [], some, none, Succeeds, arith, Bytes,
  codes, ℤ, pos, minus_one, ltb, ◌==◌, if◌then◌else◌,
}
use java_iotwrap.Java.{
  Jni, PropertyCb, CommandCb, property_get, property_set, command_callback, java_callbacks,
  new_property_cb, new_command_cb, drop_property_cb, drop_command_cb,
}
use java_iotwrap.Java.Globals.{CountsGlobals, callbacks_freed}
use java_iotwrap.Java.Answers.{Got, remote_callbacks, remote_get_lem}
use java_iotwrap.Java.References.{IsCounted, callbacks-references}
use java_iotwrap.Java.Setup.{HasMethods}
use java_iotwrap.Examples.Data.{temp}
use java_iotwrap.Examples.Parcel.{item_list, item_list-IsLawful, refuse}

abbrev pub java : Jni ℕ
java = record {
  new_string_utf = λ j s. if ltb j 5 then (j + 1, 5) else (j, 0);
  get_string_utf_chars = λ j o. (j, some (codes "21"));
  release_string_utf_chars = λ j o. j;
  delete_local_ref = λ j o. j - 1;
  new_global_ref = λ j o. (j, o + 100);
  delete_global_ref = λ j o. j;
  get_static_method_id = λ j c name signature. (j, 3);
  call_get = λ j c m o a. (j + 1, 7);
  call_void = λ j c m o a b. j;
}

new_string_counted :
    (j : ℕ)
    → (java.new_string_utf j []).0 ≡ (if (java.new_string_utf j []).1 == 0 then j else j + 1)
new_string_counted j = elim (Bool-cases (ltb j 5)) [ inl t ↦ rw t refl | inr t ↦ rw t refl ]

java-IsCounted : IsCounted java
java-IsCounted = record {
  refs = λ j. j;
  refs-new_string_utf = λ j s. new_string_counted j;
  refs-call_get = λ j c m o a. refl;
  refs-call_void = λ j c m o a b. refl;
  refs-get_string_utf_chars = λ j o. refl;
  refs-release_string_utf_chars = λ j o. refl;
  refs-delete_local_ref = λ j o n. refl;
}

pub java-HasMethods : HasMethods java 8
java-HasMethods = record {
  has_get = λ j e. omega (arith, e);
  has_set = λ j e. omega (arith, e);
  has_callback = λ j e. omega (arith, e);
  has_room = λ j o e. omega (arith, e);
}

abbrev property : PropertyCb
property = record { class = 108; object = 109; property_get = 3; property_set = 3 }

abbrev command : CommandCb
command = record { class = 108; object = 109; control_cb = 3 }

remote_get_lem_example :
    let answer =
      (remote_callbacks item_list item_list-IsLawful java refuse property command).get 0 temp
        (codes "old") in
    (◌≡◌ {A = ℕ} 5 0 → Succeeds (Got minus_one []) answer)
    × (◌≢◌ {A = ℕ} 5 0 → ◌≡◌ {A = ℕ} 7 0 → Succeeds (Got (pos 0) []) answer)
    × (◌≢◌ {A = ℕ} 5 0
        → ◌≢◌ {A = ℕ} 7 0
        → some (codes "21") ≡ none
        → Succeeds (Got (pos 0) []) answer)
    × ((s : Bytes)
        → ◌≢◌ {A = ℕ} 5 0
        → ◌≢◌ {A = ℕ} 7 0
        → some (codes "21") ≡ some s
        → Succeeds (Got (pos 0) s) answer)
remote_get_lem_example =
    remote_get_lem item_list item_list-IsLawful java refuse property command 0 temp (codes "old")
      (λ e. omega (arith, e)) (λ e. omega (arith, e))

-- With four references there is room for one string only, and it stays.
callbacks-references_example :
    Succeeds (λ ((j', ret, s) : ℕ × ℤ × Bytes). j' ≡ 4) (property_get java true property 4 temp [])
    × Succeeds
        (λ ((j', ret) : ℕ × ℤ). (j' ≡ 5) × (ret ≡ minus_one))
        (property_set java true property 4 temp [])
    × Succeeds
        (λ ((j', ret) : ℕ × ℤ). (j' ≡ 5) × (ret ≡ minus_one))
        (command_callback java true command 4 temp [])
unfolding java-IsCounted java_callbacks
callbacks-references_example =
    callbacks-references java java-IsCounted property command 4 temp [] (λ e. omega (arith, e))
      (λ e. omega (arith, e)) (λ e. omega (arith, e)) (λ e. omega (arith, e))
      (λ e. omega (arith, e))

-- Here the state is the number of global references.
abbrev with_globals : Jni ℕ
with_globals = record java {
  new_global_ref = λ j o. (j + 1, o + 100);
  delete_global_ref = λ j o. if o == 0 then j else j - 1;
}

with_globals-CountsGlobals : CountsGlobals with_globals
with_globals-CountsGlobals = record {
  globals = λ j. j;
  globals-new_global_ref = λ j o. ground arith;
  globals-delete_global_ref = λ j o. refl;
  globals-get_static_method_id = λ j c name signature. refl;
}

callbacks_freed_example :
    (drop_property_cb with_globals true (new_property_cb with_globals 2 8 9).1 4 ≡ 2)
    × (drop_command_cb with_globals true (new_command_cb with_globals 2 8 9).1 4 ≡ 2)
unfolding with_globals-CountsGlobals new_property_cb new_command_cb
callbacks_freed_example =
    callbacks_freed with_globals with_globals-CountsGlobals 2 4 4 8 9 refl refl
