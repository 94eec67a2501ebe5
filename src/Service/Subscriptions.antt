-- ===== src/Service/Subscriptions.antt =====
-- An abstract description of the service of jni/server/IOT_Service.cpp: who is connected, who follows
-- what, which names were ever followed, and the callbacks, as functions, and how an event changes them.
-- No order, no vector and no map is left of the tables.
use java_iotwrap.Common.{
  ℕ, Bool, true, false, List, [], ◌∷◌, Option, none, some, ◌==◌, ◌&&◌, if◌then◌else◌, Bytes, same,
}
use java_iotwrap.StdMap.{find}
use java_iotwrap.Service.{Service, FollowType, follow_property, follow_command, contains}
use java_iotwrap.Service.Follow.{followers, table}

pub record Subscriptions : Type 0 where
  pub connected : ℕ → Bool
  pub follows : FollowType → Bytes → ℕ → Bool
  pub known : FollowType → Bytes → Bool
  pub command : ℕ → ℕ
  pub property : ℕ → ℕ

pub data Event : Type 0 where
  joined left : ℕ → Event
  followed : FollowType → Bytes → ℕ → Event
  gave_command gave_property : ℕ → ℕ → Event

abbrev pub nobody : Subscriptions
nobody = record {
  connected = λ a. false;
  follows = λ type key a. false;
  known = λ type key. false;
  command = λ a. 0;
  property = λ a. 0;
}

-- Whether two kinds of following are one of the two that the service keeps.
abbrev pub same_type : FollowType → FollowType → Bool
same_type follow_property follow_property = true
same_type follow_command follow_command = true
same_type t u = false

-- A function with one value set, and with one value set where it is 0.
abbrev pub put {ℓ} : {A : Type ℓ} → (ℕ → A) → ℕ → A → ℕ → A
put f c v a = if a == c then v else f a

abbrev put_first : (ℕ → ℕ) → ℕ → ℕ → ℕ → ℕ
put_first f c v = if f c == 0 then put f c v else f

abbrev pub apply : Event → Subscriptions → Subscriptions
apply (joined c) r = record r {
  connected = put r.connected c true;
  command = put r.command c 0;
  property = put r.property c 0;
}
apply (left c) r = record r {
  connected = put r.connected c false;
  follows = λ type key. put (r.follows type key) c false;
}
apply (followed type key c) r = record r {
  follows =
      λ u j. if same_type type u && same j key then put (r.follows u j) c true else r.follows u j;
  known = λ u j. if same_type type u && same j key then true else r.known u j;
}
apply (gave_command c cb) r = record r { command = put_first r.command c cb }
apply (gave_property c cb) r = record r { property = put_first r.property c cb }

-- What a list of events, the last one first, makes of a description.
abbrev pub after : List Event → Subscriptions → Subscriptions
after [] r = r
after (e ∷ es) r = apply e (after es r)

abbrev pub is_some {ℓ} : {A : Type ℓ} → Option A → Bool
is_some none = false
is_some (some a) = true

-- What is seen of a service.
abbrev pub view : Service → Subscriptions
view s = record {
  connected = λ a. contains a s.clients;
  follows = λ type key a. contains a (followers key (table type s));
  known = λ type key. is_some (find key (table type s));
  command = λ a. (s.objects a).command;
  property = λ a. (s.objects a).property;
}
