-- ===== src/Examples/Histories.antt =====
-- A history of the service: a client connects, follows a property and gives its callback.
use java_iotwrap.Common.{ℕ, ◌≡◌, ◌↔◌, refl, true, some, arith, codes, pos, Has, [], ◌∷◌, Bytes}
use java_iotwrap.Service.{
  Service, new_service, create_client, may_create, add_client, add_following, follow_in,
  ensure_entry, client_active, store, follow_property,
}
use java_iotwrap.Service.Session.{regist_property_cb}
use java_iotwrap.Service.Calls.{property_set}
use java_iotwrap.Service.Invariant.{IsObject}
use java_iotwrap.Service.Reach.{Reach, start, next, creates, follows, regists_property}
use java_iotwrap.Service.Subscriptions.{joined, followed, gave_property, nobody, after, view}
use java_iotwrap.Service.Refines.{deliver, IsTold, Reach-view, deliver-history}
use java_iotwrap.Examples.Data.{temp}

abbrev first : Service
first = (create_client new_service (codes "one")).0

abbrev second : Service
second = (add_following first follow_property (some temp) 1).0

abbrev third : Service
third = client_active (record second {
  objects = store second.objects 1 (record (second.objects 1) { property = 21 });
})

joins : IsObject first 1
unfolding create_client may_create add_client new_service
joins = omega arith

still_there : IsObject second 1
unfolding create_client may_create add_client new_service add_following follow_in ensure_entry
still_there = omega arith

registers : regist_property_cb second 1 21 ≡ some (third, pos 0)
unfolding create_client may_create add_client new_service add_following follow_in ensure_entry
    regist_property_cb client_active
registers = refl

abbrev steps : Reach third
steps =
    next (next (next start (creates (codes "one"))) (follows follow_property (some temp) 1 joins))
      (regists_property 1 21 still_there registers)

Reach-view_example :
    view third ≡ after (gave_property 1 21 ∷ followed follow_property temp 1 ∷ joined 1 ∷ []) nobody
unfolding may_create new_service java_iotwrap.Common.same
Reach-view_example = Reach-view steps

deliver-history_example :
    Has (property_set 21 temp (codes "25")) (deliver follow_property third temp (codes "25"))
    ↔ IsTold follow_property
        (after (gave_property 1 21 ∷ followed follow_property temp 1 ∷ joined 1 ∷ []) nobody)
        temp
        (codes "25")
        (property_set 21 temp (codes "25"))
unfolding may_create new_service java_iotwrap.Common.same
deliver-history_example =
    deliver-history steps follow_property temp (codes "25") (property_set 21 temp (codes "25")) refl
