-- ===== src/Examples/Clients.antt =====
-- The client library at work, against the shadow with two attributes.
use java_iotwrap.Common.{
  ◌≡◌, refl, inl, inr, true, false, [], ◌∷◌, some, ◌==◌, if◌then◌else◌, codes, pos, minus_one,
}
use java_iotwrap.Service.{may_create}
use java_iotwrap.ClientJni
use java_iotwrap.ClientJni.{
  Remote, Tries, PropertyInfo, ClientJni, err_proxy_null, new_client_jni, init, try_count, connect,
  conn_service, post_follow,
}
use java_iotwrap.ClientJni.Connect.{Answers}
use java_iotwrap.ClientJni.Keys
use java_iotwrap.ClientJni.Keys.{IsValid, Reach-NamesAreValid}
use java_iotwrap.ClientJni.Replay.{service_remote}
use java_iotwrap.Shadow.{Shadow}
use java_iotwrap.Shadow.Subclass.{shadow_backend}
use java_iotwrap.Examples.Data.{temp, label, reset, demo, names_sdk, all_memory}

abbrev pub remote : Remote Shadow
remote = service_remote (shadow_backend (names_sdk true) all_memory)

abbrev pub library : ClientJni
library = record {
  client_id = codes "three";
  property_list = record { key = label; type = pos 2; size = pos 10 } ∷ [];
  command_list = reset ∷ [];
  command_cb = 31;
  property_cb = 32;
  proxy = 0;
  listening = false;
}

-- The service is there from the second try on, and is connected from the third on.
abbrev pub tries : Tries
tries = record {
  lookup = λ i. if i == 0 then false else true;
  status = λ i. if i == 1 then minus_one else pos 0;
}

pub may_create_runs : may_create demo ≡ true
unfolding may_create
may_create_runs = refl

pub try_count_runs : try_count (pos 250) ≡ some 3
unfolding try_count
try_count_runs = refl

pub answers : Answers tries 3 0 false
answers = inr (inr (inl (refl, refl)))

Reach-NamesAreValid_example :
    IsValid
      (ClientJni.follow_command
        (ClientJni.follow_property new_client_jni temp (pos 1) (pos 4)).0
        reset).0
Reach-NamesAreValid_example = Reach-NamesAreValid remote (
    Keys.Reach.next
      (Keys.Reach.next Keys.Reach.start (Keys.Step.follows_property temp (pos 1) (pos 4)))
      (Keys.Step.follows_command reset))

-- serviceDied's own time-out does not fit.
