-- ===== src/Examples/Waits.antt =====
-- The wait of the shadow's thread: a third client connects and registers its property callback.
use java_iotwrap.Common.{ℕ, ◌≡◌, ◌↔◌, refl, true, some, codes, pos, arith}
use java_iotwrap.Service.{
  Service, create_client, may_create, add_client, wait_for_client, client_active, store,
}
use java_iotwrap.Service.Session.{regist_property_cb}
use java_iotwrap.Service.Invariant.{IsObject}
use java_iotwrap.Service.Reach.{creates, regists_property}
use java_iotwrap.Service.Wake.{begin, next, wait_lem}
use java_iotwrap.Examples.Data.{demo}

abbrev joined : Service
joined = (create_client (wait_for_client demo) (codes "three")).0

abbrev active : Service
active = client_active (record joined {
  objects = store joined.objects 3 (record (joined.objects 3) { property = 33 });
})

is_object : IsObject joined 3
unfolding create_client may_create wait_for_client add_client
is_object = omega arith

registers : regist_property_cb joined 3 33 ≡ some (active, pos 0)
unfolding create_client may_create wait_for_client add_client regist_property_cb client_active
registers = refl

wait_lem_example : (active.waiting ≡ true) ↔ (◌≡◌ {A = ℕ} 1 0 × ◌≡◌ {A = ℕ} 0 0)
wait_lem_example =
    wait_lem demo (
      next (next begin (creates (codes "three")) tt) (regists_property 3 33 is_object registers) tt)
