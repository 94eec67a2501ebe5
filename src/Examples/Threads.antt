-- ===== src/Examples/Threads.antt =====
-- A run of the shadow's thread: the third call of IOT_Shadow_Construct gives a handle, the cloud
-- changes the property "temp" and sends a command in the first turn, and the second one refreshes.
use java_iotwrap.Common.{ℕ, [], ◌∷◌, Option, some, ◌==◌, if◌then◌else◌, Bytes, codes, same}
use java_iotwrap.Service.{wait_for_client, client_active}
use java_iotwrap.Shadow.{AttrType, int32, string, Shadow}
use java_iotwrap.Shadow.Thread.{changed, commanded, Turn}
use java_iotwrap.Examples.Data.{temp, label, replies, demo_shadow}

abbrev type_of : Bytes → AttrType
type_of k = if same k label then string else int32

abbrev handle : ℕ → ℕ
handle i = if i == 2 then 7 else 0

-- A client registers its property callback, and the wait ends.
abbrev wake : Shadow → Option Shadow
wake d = some (record d { service = client_active d.service })

abbrev woken : Shadow
woken = record demo_shadow {
  service = client_active (wait_for_client demo_shadow.service);
  shadow = 7;
}

abbrev first : Turn
first = record {
  events =
      changed temp (1 ∷ 2 ∷ 0 ∷ 0 ∷ []) ∷ commanded (codes "{\"command\":\"reset\",\"n\":1}") ∷ [];
  now = 100;
  later = 100;
  answer = replies;
}

abbrev second : Turn
second = record { events = []; now = 30000; later = 30001; answer = replies }
