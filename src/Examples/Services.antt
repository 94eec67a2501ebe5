-- ===== src/Examples/Services.antt =====
-- The service with two clients at work.
use java_iotwrap.Common.{
  ℕ, ◌+◌, ◌≤◌, ◌≡◌, ◌≢◌, ◌↔◌, refl, inl, List, [], ◌∷◌, ◌++◌, none, some, Succeeds, arith, Bytes,
  codes, length, ◌⊎◌, ℤ, pos, take, Has, same, memcpy,
}
use java_iotwrap.StdMap.{find}
use java_iotwrap.Service.{
  Service, FollowType, follow_property, max_clients, new_service, may_create, add_client,
  create_client, add_following, remove_client,
}
use java_iotwrap.Service.Calls.{
  Call, property_set, command_callback, property_get, call_property_set, call_command_cb,
  call_property_get,
}
use java_iotwrap.Service.Invariant.{IsObject, IsValid, FollowersAreValid}
use java_iotwrap.Service.Reach
use java_iotwrap.Service.Reach.{Reach-IsValid, Reach-connected}
use java_iotwrap.Service.Follow.{followers, table, remove_client_lem}
use java_iotwrap.Service.Removal.{removed_not_called}
use java_iotwrap.Service.PropertyGet.{InBounds, call_property_get-InBounds}
use java_iotwrap.Service.LastAnswer.{call_property_get_last, call_property_get_overlay}
use java_iotwrap.Service.Race
use java_iotwrap.Service.Race.{Racing, count, Reach-bound, limit_exceeded}
use java_iotwrap.Examples.Data.{temp, label, reset, demo, demo-IsValid, replies}

-- A client connects and follows a property.
abbrev joined : Service
joined = (create_client new_service temp).0

abbrev followed : Service
followed = (add_following joined follow_property (some label) 1).0

is_object : IsObject joined 1
unfolding create_client may_create add_client new_service
is_object = omega arith

is_connected : Has 1 joined.clients
unfolding create_client may_create add_client new_service
is_connected = inl refl

abbrev follow_steps : Reach.Reach followed
follow_steps =
    Reach.next (Reach.next Reach.start (Reach.Step.creates temp))
      (Reach.Step.follows follow_property (some label) 1 is_object)

Reach-IsValid_example : IsValid followed × (length followed.clients ≤ max_clients)
Reach-IsValid_example = Reach-IsValid follow_steps

Reach-connected_example :
    FollowersAreValid (λ x. Has x followed.clients) followed.key_follow
    × FollowersAreValid (λ x. Has x followed.clients) followed.cmd_follow
Reach-connected_example = Reach-connected follow_steps ((tt, tt), is_connected)

temp_followed : find temp demo.key_follow ≢ none
unfolding find same
temp_followed e = cc e

reset_followed : find reset demo.cmd_follow ≢ none
unfolding find same
reset_followed e = cc e

removed_not_called_example :
    let t = (remove_client demo 1).0 in
    let x = property_set 22 temp label in
    (Has x (call_property_set t (some temp) (some label)).1
      → (d : ℕ) × (Has d demo.clients ⊎ Has d (followers temp demo.key_follow))
        × (d ≢ 1)
        × ((demo.objects d).property ≢ 0)
        × (x ≡ property_set (demo.objects d).property temp label))
    × (Has x (call_command_cb t (some temp) (some label)).1
        → (d : ℕ) × (Has d demo.clients ⊎ Has d (followers temp demo.cmd_follow))
          × (d ≢ 1)
          × ((demo.objects d).command ≢ 0)
          × (x ≡ command_callback (demo.objects d).command temp label))
removed_not_called_example =
    removed_not_called demo 1 temp label (property_set 22 temp label) demo-IsValid

remove_client_lem_example :
    let (s', ret) = remove_client demo 1 in
    ((d : ℕ) → Has d s'.clients ↔ (Has d demo.clients × (d ≢ 1)))
    × ((type : FollowType) (k : Bytes) (d : ℕ)
        → Has d (followers k (table type s')) ↔ (Has d (followers k (table type demo)) × (d ≢ 1)))
    × ((ret ≡ pos 1) ↔ Has 1 demo.clients)
remove_client_lem_example = remove_client_lem demo 1 demo-IsValid

set_runs :
    call_property_set demo (some temp) (some label)
    ≡ (pos 0, property_set 21 temp label ∷ property_set 22 temp label ∷ [])
unfolding call_property_set find same
set_runs = refl

call_property_get-InBounds_example :
    Succeeds
      (InBounds replies 4)
      (call_property_get replies demo (some temp) (some (0 ∷ 0 ∷ 0 ∷ 0 ∷ [])) 4)
call_property_get-InBounds_example =
    call_property_get-InBounds replies demo temp (0 ∷ 0 ∷ 0 ∷ 0 ∷ []) 4 refl

-- 345 and then 12 leave 125.
get_runs :
    call_property_get replies demo (some temp) (some (0 ∷ 0 ∷ 0 ∷ 0 ∷ [])) 4
    ≡ some (pos 2, codes "125" ++ 0 ∷ [], property_get 21 temp ∷ property_get 22 temp ∷ [])
unfolding call_property_get find same memcpy
get_runs = refl

call_property_get_last_example :
    Succeeds
      (λ ((ret, out, calls) : ℤ × Bytes × List Call). (ret ≡ pos 2) × (take 2 out ≡ codes "12"))
      (call_property_get replies demo (some temp) (some (0 ∷ 0 ∷ 0 ∷ 0 ∷ [])) 4)
unfolding find same
call_property_get_last_example =
    call_property_get_last replies demo temp (0 ∷ 0 ∷ 0 ∷ 0 ∷ []) (codes "12") 4 2 (1 ∷ []) []
      (omega arith) refl refl tt (omega arith) refl

call_property_get_overlay_example :
    Succeeds
      (λ ((ret, out, calls) : ℤ × Bytes × List Call). (ret ≡ pos 2) × (out ≡ codes "125" ++ 0 ∷ []))
      (call_property_get replies demo (some temp) (some (0 ∷ 0 ∷ 0 ∷ 0 ∷ [])) 4)
unfolding find same
call_property_get_overlay_example =
    call_property_get_overlay replies demo temp (0 ∷ 0 ∷ 0 ∷ 0 ∷ []) (codes "345") (codes "12") 4 1
      2 refl refl (omega arith) (omega arith) refl refl (omega arith) (omega arith)

Reach-bound_example :
    count (record { service = (add_client new_service temp).0; passed = 0 }) + 0 ≤ 11
unfolding may_create new_service
Reach-bound_example = Reach-bound 1 (
    Race.Reach.next (Race.Reach.next Race.Reach.start (Race.Step.tests refl (omega arith)))
      (Race.Step.adds temp 0 refl))

limit_exceeded_example : (r : Racing) × Race.Reach 2 r × (count r ≡ 11)
limit_exceeded_example = limit_exceeded 1
