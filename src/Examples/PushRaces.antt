-- ===== src/Examples/PushRaces.antt =====
-- pushProperties among the clients' threads: a run in which every push succeeds, and a report that is
-- forgotten because its push fails.
use java_iotwrap.Common.{
  ◌≡◌, refl, true, false, some, none, codes, pos, ℤ, Option, Succeeds, inl, [], ◌∷◌, ◌++◌, arith,
  same, memcpy,
}
use java_iotwrap.Shadow.{
  Shadow, new_shadow, add_entry, new_property, local_report_period, update_report_period,
}
use java_iotwrap.StdMap.{before, find, insert, modify}
use java_iotwrap.Shadow.Value.{store_text, read_int32}
use java_iotwrap.Shadow.Report.{do_add_property, do_report_property}
use java_iotwrap.Shadow.Push.{send_due, lower_flags, push_properties}
use java_iotwrap.Shadow.PushLaws.{PushedOnce, due_attrs}
use java_iotwrap.Shadow.Cloud.{attr_changed}
use java_iotwrap.Shadow.Due.{any_due}
use java_iotwrap.Shadow.PushRace.{
  start, next, adds, reports, sets_up, begins, finishes, changes, Reach, waiting_is_pushed,
}
use java_iotwrap.Shadow.LostReport.{waiting_with, own_push, report_forgotten}
use java_iotwrap.Examples.Data.{temp, temp_entry, names_sdk, all_memory, demo_hal, demo_shadow}

-- What a call leaves.
abbrev kept {ℓ} : {A : Type ℓ} → Option (Shadow × A) → Shadow → Shadow
kept none d = d
kept (some (d', a)) d = d'

abbrev base : Shadow
base = new_shadow all_memory true

abbrev with_temp : Shadow
with_temp = (do_add_property (names_sdk true) all_memory base (some temp) (pos 1) (pos 4)).0

abbrev sent : Shadow
sent = (send_due (names_sdk true) (record with_temp { shadow = 9 })).0

abbrev reported : Shadow
reported = kept (do_report_property (names_sdk true) sent (some temp) (some (codes "5"))) sent

reports_runs :
    do_report_property (names_sdk true) sent (some temp) (some (codes "5")) ≡ some (reported, pos 0)
unfolding do_report_property do_add_property new_shadow send_due add_entry new_property insert find
    same before store_text memcpy
reports_runs = refl

abbrev retimed : Shadow
retimed =
    kept (attr_changed demo_hal (lower_flags reported) local_report_period (9 ∷ 0 ∷ 0 ∷ 0 ∷ []))
      (lower_flags reported)

retimes_runs :
    attr_changed demo_hal (lower_flags reported) local_report_period (9 ∷ 0 ∷ 0 ∷ 0 ∷ [])
    ≡ some (retimed, [])
unfolding attr_changed do_report_property do_add_property new_shadow send_due add_entry new_property
    insert find same before lower_flags store_text memcpy modify read_int32
retimes_runs = refl

abbrev steps : Reach (names_sdk true) (record { device = retimed; pushing = false })
unfolding do_add_property new_shadow find insert same
steps =
    next
      (next
        (next
          (next
            (next (next (start all_memory true) (adds all_memory (some temp) (pos 1) (pos 4)))
              (sets_up 9 refl))
            (begins refl (omega arith) refl))
          (reports (some temp) (some (codes "5")) reports_runs))
        (finishes refl))
      (changes demo_hal local_report_period (9 ∷ 0 ∷ 0 ∷ 0 ∷ []) refl retimes_runs)

waiting_is_pushed_example :
    PushedOnce
      (names_sdk true)
      retimed
      (due_attrs retimed.force_report retimed.attrs)
      (push_properties (names_sdk true) retimed)
    × (any_due (push_properties (names_sdk true) retimed).0.attrs ≡ false)
unfolding attr_changed do_report_property do_add_property new_shadow send_due add_entry new_property
    insert find same before lower_flags store_text memcpy modify read_int32 update_report_period
waiting_is_pushed_example = waiting_is_pushed (names_sdk true) (λ log h text. refl) steps refl refl

report_forgotten_example :
    Succeeds
      (λ ((d', ret) : Shadow × ℤ).
        (ret ≡ pos 0)
        × (d'.calls
            ≡ (send_due (names_sdk false) demo_shadow).0.calls
              ++ own_push (names_sdk false) 9 temp_entry (5 ∷ 0 ∷ 0 ∷ 0 ∷ []) ∷ [])
        × (find temp (lower_flags d').attrs ≡ some (waiting_with temp_entry (5 ∷ 0 ∷ 0 ∷ 0 ∷ [])))
        × (push_properties (names_sdk false) (lower_flags d') ≡ (lower_flags d', pos 0)))
      (do_report_property
        (names_sdk false)
        (send_due (names_sdk false) demo_shadow).0
        (some temp)
        (some (codes "5")))
unfolding find same store_text memcpy
report_forgotten_example =
    report_forgotten (names_sdk false) demo_shadow temp (codes "5") (7 ∷ 0 ∷ 0 ∷ 0 ∷ [])
      (5 ∷ 0 ∷ 0 ∷ 0 ∷ []) temp_entry (λ e. omega (arith, e)) refl (inl refl) refl refl refl
