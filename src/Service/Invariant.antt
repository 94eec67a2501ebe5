-- ===== src/Service/Invariant.antt =====
-- The invariant of the service's tables, for every sequence of calls of jni/server/IOT_Service.cpp:
-- no vector of followers is NULL, no client stands twice in a vector, and all are objects that were made.
use mathlib.Core.Option
use java_iotwrap.Common.{
  ℕ, ◌+◌, ◌≤◌, ◌<◌, ◌≡◌, ◌≢◌, subst, inl, inr, List, [], ◌∷◌, Option, none, some, arith, leb,
  Bool-cases, Bytes, length, length-append, All, All-append, Has, Distinct, same,
}
use java_iotwrap.StdMap.{insert, modify}
use java_iotwrap.Service.Vectors.{
  Has-remove_at, remove_at-Distinct, not-Has-remove_at, append-Distinct, add_target-Distinct,
  add_target-All, All-remove_at, All-of_Has, Has-of_All,
}
use java_iotwrap.Service.{
  Followers, Service, FollowType, follow_property, follow_command, follow_other, max_clients,
  may_create, add_client, create_client, remove_at, remove_follower, remove_client, add_target,
  follow_in, add_following,
}

-- A vector of followers: not NULL, with no client twice, and all of them in `P`.
abbrev pub EntryIsValid : (ℕ → Type 0) → Option (List ℕ) → Type 0
EntryIsValid P none = ⊥
EntryIsValid P (some xs) = Distinct xs × All P xs

abbrev pub FollowersAreValid : (ℕ → Type 0) → Followers → Type 0
FollowersAreValid P [] = Unit
FollowersAreValid P ((k, v) ∷ m) = EntryIsValid P v × FollowersAreValid P m

-- The address of a client object that createClient has made.
abbrev pub IsObject : Service → ℕ → Type 0
IsObject s c = (0 < c) × (c < s.next_client)

-- What holds between two calls.
pub record IsValid (s : Service) : Type 0 where
  pub keys : FollowersAreValid (IsObject s) s.key_follow
  pub cmds : FollowersAreValid (IsObject s) s.cmd_follow
  pub distinct : Distinct s.clients
  pub allocated : All (IsObject s) s.clients
  pub started : 0 < s.next_client

EntryIsValid-mono :
    (P Q : ℕ → Type 0)
    → ((a : ℕ) → P a → Q a)
    → (v : Option (List ℕ)) → EntryIsValid P v
    → EntryIsValid Q v
EntryIsValid-mono P Q f none h = h
EntryIsValid-mono P Q f (some xs) h = (h.0, All-of_Has Q xs λ a m. f a (Has-of_All P a xs h.1 m))

pub FollowersAreValid-mono :
    (P Q : ℕ → Type 0)
    → ((a : ℕ) → P a → Q a)
    → (m : Followers) → FollowersAreValid P m
    → FollowersAreValid Q m
FollowersAreValid-mono P Q f [] h = tt
FollowersAreValid-mono P Q f ((k, v) ∷ m) h =
    (EntryIsValid-mono P Q f v h.0, FollowersAreValid-mono P Q f m h.1)

-- A client that is gone from the vectors: the rest is in `P` and differs from it.
remove_at-EntryIsValid :
    (c : ℕ) (P : ℕ → Type 0) (v : Option (List ℕ))
    → EntryIsValid P v
    → EntryIsValid (λ x. P x × (x ≢ c)) (Option.map (remove_at c) v)
remove_at-EntryIsValid c P none h = h
remove_at-EntryIsValid c P (some xs) h = (remove_at-Distinct c xs h.0, All-of_Has _ _ stays)
  where
    stays : (a : ℕ) → Has a (remove_at c xs) → P a × (a ≢ c)
    stays a m = (
      Has-of_All P a xs h.1 (Has-remove_at a c xs m),
      λ e. not-Has-remove_at c xs h.0 (subst (λ x. Has x (remove_at c xs)) e m),
    )

pub remove_follower-valid :
    (c : ℕ) (P : ℕ → Type 0) (m : Followers)
    → FollowersAreValid P m
    → FollowersAreValid (λ x. P x × (x ≢ c)) (remove_follower c m)
unfolding remove_follower
remove_follower-valid c P [] h = tt
remove_follower-valid c P ((k, v) ∷ m) h =
    (remove_at-EntryIsValid c P v h.0, remove_follower-valid c P m h.1)

insert-valid :
    (P : ℕ → Type 0) (k : Bytes) (m : Followers)
    → FollowersAreValid P m
    → FollowersAreValid P (insert k (some []) m)
unfolding insert
insert-valid P k [] h = ((tt, tt), tt)
insert-valid P k ((j, v) ∷ m) h = ground (arith, insert-valid P k m h.1)

modify-valid :
    (P : ℕ → Type 0) (k : Bytes) (c : ℕ) (m : Followers)
    → P c
    → FollowersAreValid P m
    → FollowersAreValid P (modify k (Option.map (add_target c)) m)
unfolding modify
modify-valid P k c [] p h = tt
modify-valid P k c ((j, v) ∷ m) p h = elim (Bool-cases (same k j)) [
  | inl e ↦ rw e (entry v h.0, h.1)
  | inr e ↦ rw e (h.0, modify-valid P k c m p h.1)
]
  where
    entry : (v : Option (List ℕ)) → EntryIsValid P v → EntryIsValid P (Option.map (add_target c) v)
    entry none h = h
    entry (some xs) h = (add_target-Distinct c xs h.0, add_target-All P c xs p h.1)

pub follow_in-valid :
    (P : ℕ → Type 0) (m : Followers) (k : Bytes) (c : ℕ)
    → P c
    → FollowersAreValid P m
    → FollowersAreValid P (follow_in m k c).0
unfolding follow_in
follow_in-valid P m k c p h =
    ground
      (arith, insert-valid P k m, modify-valid P k c m, modify-valid P k c (insert k (some []) m))

pub length-remove_at : (c : ℕ) (xs : List ℕ) → length (remove_at c xs) ≤ length xs
unfolding remove_at
length-remove_at c [] = omega arith
length-remove_at c (x ∷ xs) = ground (arith, length-remove_at c xs)

add_client-IsValid : (s : Service) (n : Bytes) → IsValid s → IsValid (add_client s n).0
unfolding add_client
add_client-IsValid s n v = record {
  keys = FollowersAreValid-mono (IsObject s) _ more s.key_follow v.keys;
  cmds = FollowersAreValid-mono (IsObject s) _ more s.cmd_follow v.cmds;
  distinct = append-Distinct s.next_client s.clients fresh v.distinct;
  allocated = All-append _ s.clients _ older ((v.started, omega arith), tt);
  started = omega arith;
}
  where
    more : (a : ℕ) → IsObject s a → (0 < a) × (a < s.next_client + 1)
    more a h = omega (arith, h)

    fresh : ¬ Has s.next_client s.clients
    fresh h = absurd (omega (arith, (Has-of_All _ _ s.clients v.allocated h).1))

    older : All (λ c. (0 < c) × (c < s.next_client + 1)) s.clients
    older = All-of_Has _ s.clients λ a m. more a (Has-of_All _ a s.clients v.allocated m)

-- `createClient` keeps the invariant, on both of its branches, and the limit.
pub create_client-IsValid : (s : Service) (n : Bytes) → IsValid s → IsValid (create_client s n).0
unfolding create_client may_create
create_client-IsValid s n v = elim (Bool-cases (leb max_clients (length s.clients))) [
  | inl e ↦ rw e v
  | inr e ↦ rw e (add_client-IsValid s n v)
]

pub create_client-bounded :
    (s : Service) (n : Bytes)
    → length s.clients ≤ max_clients
    → length (create_client s n).0.clients ≤ max_clients
unfolding create_client may_create add_client
create_client-bounded s n h = elim (Bool-cases (leb max_clients (length s.clients))) [
  | inl e ↦ rw e h
  | inr e ↦ rw e (ground (arith, length-append s.clients (s.next_client ∷ [])))
]

pub remove_client-IsValid : (s : Service) (c : ℕ) → IsValid s → IsValid (remove_client s c).0
unfolding remove_client
remove_client-IsValid s c v = record {
  keys = kept s.key_follow v.keys;
  cmds = kept s.cmd_follow v.cmds;
  distinct = remove_at-Distinct c s.clients v.distinct;
  allocated = All-remove_at _ c s.clients v.allocated;
  started = v.started;
}
  where
    kept :
        (m : Followers)
        → FollowersAreValid (IsObject s) m
        → FollowersAreValid (IsObject s) (remove_follower c m)
    kept m h =
        FollowersAreValid-mono (λ x. IsObject s x × (x ≢ c)) (IsObject s) (λ a k. k.0)
          (remove_follower c m) (remove_follower-valid c (IsObject s) m h)

pub add_following-IsValid :
    (s : Service) (type : FollowType) (key : Option Bytes) (c : ℕ)
    → IsObject s c
    → IsValid s
    → IsValid (add_following s type key c).0
unfolding add_following
add_following-IsValid s type none c p v = v
add_following-IsValid s follow_property (some k) c p v = record {
  keys = follow_in-valid (IsObject s) s.key_follow k c p v.keys;
  cmds = v.cmds;
  distinct = v.distinct;
  allocated = v.allocated;
  started = v.started;
}
add_following-IsValid s follow_command (some k) c p v = record {
  keys = v.keys;
  cmds = follow_in-valid (IsObject s) s.cmd_follow k c p v.cmds;
  distinct = v.distinct;
  allocated = v.allocated;
  started = v.started;
}
add_following-IsValid s follow_other (some k) c p v = v

-- The same tables: the objects and the waiting thread may differ.
pub record SameTables (s t : Service) : Type 0 where
  pub clients : t.clients ≡ s.clients
  pub keys : t.key_follow ≡ s.key_follow
  pub cmds : t.cmd_follow ≡ s.cmd_follow
  pub next : t.next_client ≡ s.next_client

pub SameTables-IsValid : {s t : Service} → SameTables s t → IsValid s → IsValid t
SameTables-IsValid {s} {t} e v = record {
  keys = rw (e.next, e.keys) v.keys;
  cmds = rw (e.next, e.cmds) v.cmds;
  distinct = rw e.clients v.distinct;
  allocated = rw (e.clients, e.next) v.allocated;
  started = rw e.next v.started;
}
