-- ===== src/Service/Reach.antt =====
-- Every history of jni/server/IOT_Service.cpp: each call to the service or to one of its clients is
-- a step. A client that calls is an object that createClient has made; it need not be connected any
-- more, since no operation tests that.
use java_iotwrap.Common.{
  ℕ, ◌≤◌, ◌≡◌, ◌≢◌, inl, inr, List, [], ◌∷◌, ◌++◌, Option, none, some, arith, Bool-cases, Bytes, ℤ,
  length, Has,
}
use java_iotwrap.Service.Vectors.{Has-remove_at_ne}
use java_iotwrap.Service.Invariant.{
  IsObject, IsValid, FollowersAreValid, FollowersAreValid-mono, remove_follower-valid,
  follow_in-valid, create_client-bounded, length-remove_at, SameTables, SameTables-IsValid,
  create_client-IsValid, remove_client-IsValid, add_following-IsValid,
}
use java_iotwrap.Service.Session.{regist_command_cb, regist_property_cb, binder_died}
use java_iotwrap.Service.{
  Service, Followers, FollowType, follow_property, follow_command, follow_other, max_clients,
  may_create, add_client, remove_client, remove_at, remove_follower, new_service, create_client,
  add_following, wait_for_client, client_active,
}

pub data Step (s : Service) : Service → Type 0 where
  creates : (name : Bytes) → Step s (create_client s name).0
  follows :
      (type : FollowType) (key : Option Bytes) (c : ℕ)
      → IsObject s c
      → Step s (add_following s type key c).0
  regists_command : (c cb : ℕ) → IsObject s c → Step s (regist_command_cb s c cb).0
  regists_property :
      (c cb : ℕ) {t : Service} {ret : ℤ}
      → IsObject s c
      → regist_property_cb s c cb ≡ some (t, ret)
      → Step s t
  dies : (c : ℕ) → Step s (binder_died s c)
  waits : Step s (wait_for_client s)

pub data Reach : Service → Type 0 where
  start : Reach new_service
  next : {s t : Service} → Reach s → Step s t → Reach t

new_service-IsValid : IsValid new_service
unfolding new_service
new_service-IsValid = omega arith

pub regist_command_cb-SameTables :
    (s : Service) (c cb : ℕ) → SameTables s (regist_command_cb s c cb).0
unfolding regist_command_cb
regist_command_cb-SameTables s c cb = ground arith

pub regist_property_cb-SameTables :
    (s : Service) (c cb : ℕ) {t : Service} {ret : ℤ}
    → regist_property_cb s c cb ≡ some (t, ret)
    → SameTables s t
unfolding regist_property_cb client_active
regist_property_cb-SameTables s c cb h = ground arith

wait_for_client-SameTables : (s : Service) → SameTables s (wait_for_client s)
unfolding wait_for_client
wait_for_client-SameTables s = ground arith

pub Step-IsValid : {s t : Service} → Step s t → IsValid s → IsValid t
unfolding binder_died
Step-IsValid {s} (creates name) v = create_client-IsValid s name v
Step-IsValid {s} (follows type key c p) v = add_following-IsValid s type key c p v
Step-IsValid {s} (regists_command c cb p) v =
    SameTables-IsValid (regist_command_cb-SameTables s c cb) v
Step-IsValid {s} (regists_property c cb p e) v =
    SameTables-IsValid (regist_property_cb-SameTables s c cb e) v
Step-IsValid {s} (dies c) v = remove_client-IsValid s c v
Step-IsValid {s} waits v = SameTables-IsValid (wait_for_client-SameTables s) v

Has-append_left : (a : ℕ) (xs ys : List ℕ) → Has a xs → Has a (xs ++ ys)
Has-append_left a (x ∷ xs) ys (inl e) = inl e
Has-append_left a (x ∷ xs) ys (inr h) = inr (Has-append_left a xs ys h)
Has-append_left a [] ys h = absurd h

Step-bounded :
    {s t : Service} → Step s t → length s.clients ≤ max_clients → length t.clients ≤ max_clients
unfolding binder_died remove_client add_following wait_for_client
Step-bounded {s} (creates name) h = create_client-bounded s name h
Step-bounded {s} (follows type none c p) h = h
Step-bounded {s} (follows follow_property (some k) c p) h = h
Step-bounded {s} (follows follow_command (some k) c p) h = h
Step-bounded {s} (follows follow_other (some k) c p) h = h
Step-bounded {s} (regists_command c cb p) h = rw ((regist_command_cb-SameTables s c cb).clients) h
Step-bounded {s} (regists_property c cb p e) h =
    rw ((regist_property_cb-SameTables s c cb e).clients) h
Step-bounded {s} (dies c) h = omega (arith, h, length-remove_at c s.clients)
Step-bounded {s} waits h = h

-- In every state that the service can reach by whole calls, where a client that calls is an object that
-- createClient has made, connected or not: no vector of followers is NULL or holds a client twice,
-- every follower is an object that createClient has made, the connected clients are different, not NULL
-- and made by createClient, and there are at most ten of them.
pub Reach-IsValid : {s : Service} → Reach s → IsValid s × (length s.clients ≤ max_clients)
unfolding new_service
Reach-IsValid start = (new_service-IsValid, omega arith)
Reach-IsValid (next r st) = let (v, n) = Reach-IsValid r in (Step-IsValid st v, Step-bounded st n)

-- The client that follows something is connected.
abbrev CallerIsConnected : {s t : Service} → Step s t → Type 0
CallerIsConnected {s} (follows type key c p) = Has c s.clients
CallerIsConnected _ = Unit

abbrev pub CallersAreConnected : {s : Service} → Reach s → Type 0
CallersAreConnected start = Unit
CallersAreConnected (next r st) = CallersAreConnected r × CallerIsConnected st

abbrev TablesAreConnected : Service → Type 0
TablesAreConnected s =
    FollowersAreValid (λ x. Has x s.clients) s.key_follow
    × FollowersAreValid (λ x. Has x s.clients) s.cmd_follow

create_client-connected :
    (s : Service) (name : Bytes)
    → TablesAreConnected s
    → TablesAreConnected (create_client s name).0
unfolding create_client add_client
create_client-connected s name (k, c) = elim (Bool-cases (may_create s)) [
  | inl t ↦ rw t (more s.key_follow k, more s.cmd_follow c)
  | inr t ↦ rw t (k, c)
]
  where
    more :
        (m : Followers)
        → FollowersAreValid (λ x. Has x s.clients) m
        → FollowersAreValid (λ x. Has x (s.clients ++ s.next_client ∷ [])) m
    more =
        FollowersAreValid-mono (λ x. Has x s.clients) (λ x. Has x (s.clients ++ s.next_client ∷ []))
          (λ a. Has-append_left a s.clients (s.next_client ∷ []))

binder_died-connected :
    (s : Service) (c : ℕ) → TablesAreConnected s → TablesAreConnected (binder_died s c)
unfolding binder_died remove_client
binder_died-connected s c (k, d) = (left s.key_follow k, left s.cmd_follow d)
  where
    left :
        (m : Followers)
        → FollowersAreValid (λ x. Has x s.clients) m
        → FollowersAreValid (λ x. Has x (remove_at c s.clients)) (remove_follower c m)
    left m h =
        FollowersAreValid-mono (λ x. Has x s.clients × (x ≢ c)) (λ x. Has x (remove_at c s.clients))
          (λ a (p, n). Has-remove_at_ne a c s.clients n p) (remove_follower c m)
          (remove_follower-valid c (λ x. Has x s.clients) m h)

SameTables-connected :
    {s t : Service} → SameTables s t → TablesAreConnected s → TablesAreConnected t
SameTables-connected e (k, c) = (rw (e.clients, e.keys) k, rw (e.clients, e.cmds) c)

Step-connected :
    {s t : Service} (st : Step s t)
    → CallerIsConnected st
    → TablesAreConnected s
    → TablesAreConnected t
unfolding add_following
Step-connected {s} (creates name) p h = create_client-connected s name h
Step-connected {s} (follows type none c o) p h = h
Step-connected {s} (follows follow_property (some k) c o) p h =
    (follow_in-valid (λ x. Has x s.clients) s.key_follow k c p h.0, h.1)
Step-connected {s} (follows follow_command (some k) c o) p h =
    (h.0, follow_in-valid (λ x. Has x s.clients) s.cmd_follow k c p h.1)
Step-connected {s} (follows follow_other (some k) c o) p h = h
Step-connected {s} (regists_command c cb o) p h =
    SameTables-connected (regist_command_cb-SameTables s c cb) h
Step-connected {s} (regists_property c cb o e) p h =
    SameTables-connected (regist_property_cb-SameTables s c cb e) h
Step-connected {s} (dies c) p h = binder_died-connected s c h
Step-connected {s} waits p h = SameTables-connected (wait_for_client-SameTables s) h

-- After a history of whole calls in which every client that follows something is connected at that time,
-- every follower of a property or a command is a connected client.
pub Reach-connected :
    {s : Service} (r : Reach s)
    → CallersAreConnected r
    → FollowersAreValid (λ x. Has x s.clients) s.key_follow
      × FollowersAreValid (λ x. Has x s.clients) s.cmd_follow
unfolding new_service
Reach-connected start u = (tt, tt)
Reach-connected (next r st) (u, p) = Step-connected st p (Reach-connected r u)
