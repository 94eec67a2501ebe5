-- ===== src/Service/Views.antt =====
-- Each operation of jni/server/IOT_Service.cpp as its event on the abstract description.
use mathlib.Core.Path.{fun_ext}
use mathlib.Core.Option
use mathlib.Core.Option.{some-injective}
use java_iotwrap.Common.{
  ℕ, ◌≡◌, refl, ap, ◌∙◌, inl, inr, true, false, List, [], ◌∷◌, ◌++◌, Option, none, some, Bool-cases,
  arith, ◌==◌, ◌&&◌, if◌then◌else◌, Bytes, same, Distinct,
}
use java_iotwrap.StdMap.{find}
use java_iotwrap.Service.Vectors.{contains-Has}
use java_iotwrap.Service.Invariant.{IsObject, IsValid}
use java_iotwrap.Service.Follow.{
  followers, table, follow_in-find, find-remove_follower, followers-remove_follower,
  table-remove_client, followers-Distinct, table-valid,
}
use java_iotwrap.Service.Subscriptions.{
  joined, left, followed, same_type, put, apply, is_some, view,
}
use java_iotwrap.Service.{
  Service, FollowType, follow_property, follow_command, follow_other, add_client, add_following,
  remove_client, remove_follower, Followers, remove_at, contains, add_target,
}

contains-last :
    (a c : ℕ) (xs : List ℕ) → contains a (xs ++ c ∷ []) ≡ (if a == c then true else contains a xs)
unfolding contains
contains-last a c [] = ground arith
contains-last a c (x ∷ xs) = ground (arith, contains-last a c xs)

contains-add_target :
    (a c : ℕ) (xs : List ℕ)
    → contains a (add_target c xs) ≡ (if a == c then true else contains a xs)
unfolding add_target
contains-add_target a c xs = elim (Bool-cases (contains c xs)) [
  | inl t ↦ elim (Bool-cases (a == c)) [
    | inl e ↦ let q : a ≡ c = ground arith in rw (t, e) (ap (λ x. contains x xs) q ∙ t)
    | inr e ↦ rw (t, e) refl
  ]
  | inr t ↦ rw t (contains-last a c xs)
]

contains-remove_at :
    (a c : ℕ) (xs : List ℕ)
    → Distinct xs
    → contains a (remove_at c xs) ≡ (if a == c then false else contains a xs)
unfolding contains remove_at
contains-remove_at a c [] h = ground arith
contains-remove_at a c (x ∷ xs) h =
    ground (arith, contains-remove_at a c xs h.1, contains-Has a xs, h.0)

-- Services with the same tables, clients and objects are seen as the same.
pub table-same :
    (s t : Service)
    → t.key_follow ≡ s.key_follow
    → t.cmd_follow ≡ s.cmd_follow
    → (type : FollowType) → table type t ≡ table type s
table-same s t h k follow_property = h
table-same s t h k follow_command = k
table-same s t h k follow_other = refl

pub view-add_client :
    (s : Service) (name : Bytes)
    → view (add_client s name).0 ≡ apply (joined s.next_client) (view s)
unfolding add_client
view-add_client s name i =
    let tables = table-same s (add_client s name).0 refl refl in
    record {
      connected = fun_ext (λ a. contains-last a s.next_client s.clients) i;
      follows = λ type key a. contains a (followers key (tables type i));
      known = λ type key. is_some (find key (tables type i));
      command = fun_ext made_command i;
      property = fun_ext made_property i;
    }
  where
    made_command :
        (a : ℕ)
        → ((add_client s name).0.objects a).command
          ≡ put (λ b. (s.objects b).command) s.next_client 0 a
    made_command a = ground arith

    made_property :
        (a : ℕ)
        → ((add_client s name).0.objects a).property
          ≡ put (λ b. (s.objects b).property) s.next_client 0 a
    made_property a = ground arith

-- addFollowing of a name, in the two tables.
find-add_following :
    (s : Service) (type u : FollowType) (k j : Bytes) (c : ℕ)
    → IsValid s
    → find j (table u (add_following s type (some k) c).0) ≡ (
        if same_type type u && same j k
        then some (some (add_target c (followers j (table u s))))
        else find j (table u s))
unfolding add_following
find-add_following s follow_property follow_property k j c v =
    (follow_in-find (IsObject s) s.key_follow k j c v.keys).0
find-add_following s follow_property follow_command k j c v = refl
find-add_following s follow_property follow_other k j c v = refl
find-add_following s follow_command follow_property k j c v = refl
find-add_following s follow_command follow_command k j c v =
    (follow_in-find (IsObject s) s.cmd_follow k j c v.cmds).0
find-add_following s follow_command follow_other k j c v = refl
find-add_following s follow_other follow_property k j c v = refl
find-add_following s follow_other follow_command k j c v = refl
find-add_following s follow_other follow_other k j c v = refl

rest-add_following :
    (s : Service) (type : FollowType) (k : Bytes) (c : ℕ)
    → let t = (add_following s type (some k) c).0 in
      (t.clients ≡ s.clients) × (t.objects ≡ s.objects)
unfolding add_following
rest-add_following s follow_property k c = (refl, refl)
rest-add_following s follow_command k c = (refl, refl)
rest-add_following s follow_other k c = (refl, refl)

pub view-add_following :
    (s : Service) (type : FollowType) (k : Bytes) (c : ℕ)
    → IsValid s
    → view (add_following s type (some k) c).0 ≡ apply (followed type k c) (view s)
view-add_following s type k c v i =
    let (same_clients, same_objects) = rest-add_following s type k c in
    record {
      connected = λ a. contains a (same_clients i);
      follows = fun_ext (λ u. fun_ext (λ j. fun_ext (λ a. follows_now u j a))) i;
      known = fun_ext (λ u. fun_ext (λ j. known_now u j)) i;
      command = λ a. (same_objects i a).command;
      property = λ a. (same_objects i a).property;
    }
  where
    follows_now :
        (u : FollowType) (j : Bytes) (a : ℕ)
        → contains a (followers j (table u (add_following s type (some k) c).0))
          ≡ (apply (followed type k c) (view s)).follows u j a
    follows_now u j a =
        rw (find-add_following s type u k j c v) (elim (Bool-cases (same_type type u && same j k)) [
          | inl t ↦ rw t (contains-add_target a c (followers j (table u s)))
          | inr t ↦ rw t refl
        ])

    known_now :
        (u : FollowType) (j : Bytes)
        → is_some (find j (table u (add_following s type (some k) c).0))
          ≡ (apply (followed type k c) (view s)).known u j
    known_now u j =
        rw (find-add_following s type u k j c v) (elim (Bool-cases (same_type type u && same j k)) [
          | inl t ↦ rw t refl
          | inr t ↦ rw t refl
        ])

is_some-remove_follower :
    (c : ℕ) (k : Bytes) (m : Followers)
    → is_some (find k (remove_follower c m)) ≡ is_some (find k m)
is_some-remove_follower c k m = rw (find-remove_follower c k m) (go (find k m))
  where
    go :
        (o : Option (Option (List ℕ)))
        → is_some (Option.map (Option.map (remove_at c)) o) ≡ is_some o
    go none = refl
    go (some v) = refl

pub view-remove_client :
    (s : Service) (c : ℕ) → IsValid s → view (remove_client s c).0 ≡ apply (left c) (view s)
view-remove_client s c v i = record {
  connected = fun_ext connected_now i;
  follows = fun_ext (λ u. fun_ext (λ j. fun_ext (λ a. follows_now u j a))) i;
  known = fun_ext (λ u. fun_ext (λ j. known_now u j)) i;
  command = λ a. (same_objects i a).command;
  property = λ a. (same_objects i a).property;
}
  where
    same_objects : (remove_client s c).0.objects ≡ s.objects
    same_objects = unfold remove_client in refl

    connected_now :
        (a : ℕ)
        → contains a (remove_client s c).0.clients ≡ put (λ b. contains b s.clients) c false a
    connected_now a = unfold remove_client in (contains-remove_at a c s.clients v.distinct)

    follows_now :
        (u : FollowType) (j : Bytes) (a : ℕ)
        → contains a (followers j (table u (remove_client s c).0))
          ≡ put (λ b. contains b (followers j (table u s))) c false a
    follows_now u j a =
        rw (table-remove_client u s c, followers-remove_follower c j (table u s))
          (contains-remove_at a c (followers j (table u s))
            (followers-Distinct (IsObject s) j (table u s) (table-valid u s v)))

    known_now :
        (u : FollowType) (j : Bytes)
        → is_some (find j (table u (remove_client s c).0)) ≡ is_some (find j (table u s))
    known_now u j = rw (table-remove_client u s c) (is_some-remove_follower c j (table u s))
