-- ===== src/Service.antt =====
-- jni/server/IOT_Service.h and IOT_Service.cpp: the service's clients and who follows what.
-- An `sp<IOTClient>`, an `sp<IIOTCommandCB>` and an `sp<IIOTPropertyCB>` is an address, 0 for NULL;
-- `objects` is the memory of the IOTClient objects, and `next_client` the next address to hand out.
-- A `Vector *` is an `Option`, `none` for NULL. A `const char *` that the code tests for NULL is an
-- `Option` too.
pub mod Calls
pub mod Session
pub mod Vectors
pub mod Follow
pub mod Delivery
pub mod Removal
pub mod PropertyGet
pub mod ShortAnswers
pub mod LastAnswer
pub mod Race
pub mod Reach
pub mod Wake
pub mod Subscriptions
pub mod Views
pub mod CallbackViews
pub mod Refines
pub mod Memory
pub mod Invariant
use mathlib.Core.Option
use java_iotwrap.Common.{
  ℕ, zero, suc, ◌+◌, Bool, true, false, List, [], ◌∷◌, ◌++◌, Option, none, some, leb, ◌==◌,
  if◌then◌else◌, Bytes, ℤ, pos, minus_one, length, map,
}
use java_iotwrap.StdMap.{StdMap, find, insert, modify}

-- class IOTClient: the fields that the service reads.
pub record Client : Type 0 where
  pub name : Bytes
  pub command : ℕ
  pub property : ℕ

abbrev pub Followers : Type 0
Followers = StdMap (Option (List ℕ))

-- `waiting` holds while the shadow thread is blocked in `m_condition.wait`.
pub record Service : Type 0 where
  pub clients : List ℕ
  pub key_follow : Followers
  pub cmd_follow : Followers
  pub objects : ℕ → Client
  pub next_client : ℕ
  pub waiting : Bool

abbrev pub max_clients : ℕ
max_clients = 10

-- What a constructor of IOTClient leaves: no callback yet.
abbrev new_client : Bytes → Client
new_client n = record { name = n; command = 0; property = 0 }

-- A write to the object at address `c`.
abbrev pub store : (ℕ → Client) → ℕ → Client → ℕ → Client
store m c v a = if a == c then v else m a

-- IOTService::IOTService.
unfoldable pub new_service : Service
new_service = record {
  clients = [];
  key_follow = [];
  cmd_follow = [];
  objects = λ _. new_client [];
  next_client = 1;
  waiting = false;
}

-- createClient's test, made before the lock is taken.
unfoldable pub may_create : Service → Bool
may_create s = if leb max_clients (length s.clients) then false else true

-- The rest of createClient, under the lock.
unfoldable pub add_client : Service → Bytes → Service × ℕ
add_client s name = (
  record s {
    clients = s.clients ++ s.next_client ∷ [];
    objects = store s.objects s.next_client (new_client name);
    next_client = s.next_client + 1;
  },
  s.next_client,
)

-- IOTService::createClient; 0 is the NULL that a full service returns.
unfoldable pub create_client : Service → Bytes → Service × ℕ
unfolding may_create add_client
create_client s name = if may_create s then add_client s name else (s, 0)

-- The loops that stop at the first position that holds the client, `removeAt(i)`.
unfoldable pub remove_at : ℕ → List ℕ → List ℕ
remove_at c [] = []
remove_at c (x ∷ xs) = if x == c then xs else x ∷ remove_at c xs

unfoldable pub contains : ℕ → List ℕ → Bool
contains c [] = false
contains c (x ∷ xs) = if x == c then true else contains c xs

-- removeClient's walk over one of the maps.
unfoldable pub remove_follower : ℕ → Followers → Followers
unfolding remove_at
remove_follower c [] = []
remove_follower c ((k, v) ∷ m) = (k, Option.map (remove_at c) v) ∷ remove_follower c m

-- IOTService::removeClient.
unfoldable pub remove_client : Service → ℕ → Service × ℤ
unfolding remove_follower remove_at contains
remove_client s c = (
  record s {
    key_follow = remove_follower c s.key_follow;
    cmd_follow = remove_follower c s.cmd_follow;
    clients = remove_at c s.clients;
  },
  if contains c s.clients then pos 1 else pos 0,
)

-- The end of addFollowing: a client that is in the vector is not added again.
unfoldable pub add_target : ℕ → List ℕ → List ℕ
unfolding contains
add_target c xs = if contains c xs then xs else xs ++ c ∷ []

-- A case of addFollowing's switch: the entry is made where it is missing.
unfoldable pub ensure_entry : Bytes → Followers → Followers
ensure_entry k m = elim (find k m) [ none ↦ insert k (some []) m | some v ↦ m ]

unfoldable pub follow_in : Followers → Bytes → ℕ → Followers × ℤ
unfolding ensure_entry add_target
follow_in m k c =
    let m' = ensure_entry k m in
    elim (find k m') [
      | some (some xs) ↦ (modify k (Option.map (add_target c)) m', pos 0)
      | _ ↦ (m', minus_one)
    ]

-- FOLLOW_TYPE_PROPERTY, FOLLOW_TYPE_COMMAND, and any other `int`.
pub data FollowType : Type 0 where
  follow_property follow_command follow_other : FollowType

-- IOTService::addFollowing.
unfoldable pub add_following : Service → FollowType → Option Bytes → ℕ → Service × ℤ
unfolding follow_in
add_following s type none c = (s, minus_one)
add_following s follow_property (some k) c =
    let (m, ret) = follow_in s.key_follow k c in (record s { key_follow = m }, ret)
add_following s follow_command (some k) c =
    let (m, ret) = follow_in s.cmd_follow k c in (record s { cmd_follow = m }, ret)
add_following s follow_other (some k) c = (s, minus_one)

-- IOTService::waitForClient, up to the point where the thread is blocked.
unfoldable pub wait_for_client : Service → Service
wait_for_client s = record s { waiting = true }

-- IOTService::clientActive: the signal wakes the thread that waits, and is lost if none does.
unfoldable pub client_active : Service → Service
client_active s = record s { waiting = false }
