-- ===== src/Service/Follow.antt =====
-- The tables of followers of jni/server/IOT_Service.cpp seen as a function from keys to vectors:
-- what addFollowing and removeClient do to it.
use mathlib.Core.Option
use mathlib.Core.Option.{some-injective}
use java_iotwrap.Common.{
  ℕ, ◌≡◌, refl, subst, ◌≢◌, ◌↔◌, inl, inr, List, [], ◌∷◌, Option, none, some, arith, if◌then◌else◌,
  Bool-cases, Option-cases, Bytes, pos, Has, Distinct, same, same_iff, same_refl,
}
use java_iotwrap.StdMap.{find, insert}
use java_iotwrap.StdMap.Laws.{find-insert_new, find-modify}
use java_iotwrap.Service.Vectors.{
  not-Has-remove_at, Has-remove_at_ne, Has-remove_at, contains-Has, Has-contains,
}
use java_iotwrap.Service.Invariant.{IsObject, IsValid, EntryIsValid, FollowersAreValid}
use java_iotwrap.Service.{
  Followers, Service, FollowType, follow_property, follow_command, follow_other, remove_at,
  remove_follower, remove_client, add_target, ensure_entry, follow_in, add_following,
}

-- The vector of a table's entry; no entry and NULL give the empty one.
abbrev vector : Option (Option (List ℕ)) → List ℕ
vector none = []
vector (some none) = []
vector (some (some xs)) = xs

abbrev pub followers : Bytes → Followers → List ℕ
followers k m = vector (find k m)

find-valid :
    (P : ℕ → Type 0) (k : Bytes) (m : Followers) (v : Option (List ℕ))
    → FollowersAreValid P m
    → find k m ≡ some v
    → EntryIsValid P v
unfolding find
find-valid P k [] v h e = cc
find-valid P k ((j, w) ∷ m) v h e = elim (Bool-cases (same k j)) [
  | inl t ↦ subst (EntryIsValid P) (some-injective _ _ (rw t at e)) h.0
  | inr t ↦ find-valid P k m v h.1 (rw t at e)
]

-- An entry that is found is a vector.
pub find-eq-vector :
    (P : ℕ → Type 0) (k : Bytes) (m : Followers)
    → FollowersAreValid P m
    → find k m ≢ none
    → find k m ≡ some (some (followers k m))
find-eq-vector P k m h n = go (find k m) refl
  where
    go : (o : Option (Option (List ℕ))) → find k m ≡ o → o ≡ some (some (vector o))
    go none e = absurd (n e)
    go (some none) e = absurd (find-valid P k m none h e)
    go (some (some xs)) e = refl

-- After addFollowing the client is in the key's vector, once; every other entry is as it was.
pub follow_in-find :
    (P : ℕ → Type 0) (m : Followers) (k j : Bytes) (c : ℕ)
    → FollowersAreValid P m
    → (find j (follow_in m k c).0
        ≡ (if same j k then some (some (add_target c (followers j m))) else find j m))
      × ((follow_in m k c).1 ≡ pos 0)
unfolding follow_in ensure_entry
follow_in-find P m k j c h = elim (Option-cases (find k m)) [
  | inl e ↦ ground (
    arith,
    same_iff j k,
    same_refl k,
    find-insert_new k k (some []) m,
    find-insert_new k j (some []) m,
    find-modify k j (Option.map (add_target c)) (insert k (some []) m),
  )
  | inr (v, e) ↦
      ground
        (arith, same_iff j k, find-eq-vector P k m h, find-modify k j (Option.map (add_target c)) m)
]

pub find-remove_follower :
    (c : ℕ) (k : Bytes) (m : Followers)
    → find k (remove_follower c m) ≡ Option.map (Option.map (remove_at c)) (find k m)
unfolding find remove_follower
find-remove_follower c k [] = refl
find-remove_follower c k ((j, v) ∷ m) = ground (arith, find-remove_follower c k m)

abbrev pub table : FollowType → Service → Followers
table follow_property s = s.key_follow
table follow_command s = s.cmd_follow
table follow_other s = []

pub table-valid :
    (type : FollowType) (s : Service) → IsValid s → FollowersAreValid (IsObject s) (table type s)
table-valid follow_property s v = v.keys
table-valid follow_command s v = v.cmds
table-valid follow_other s v = tt

followers-follow_in :
    (P : ℕ → Type 0) (m : Followers) (k j : Bytes) (c : ℕ)
    → FollowersAreValid P m
    → followers j (follow_in m k c).0
      ≡ (if same j k then add_target c (followers j m) else followers j m)
followers-follow_in P m k j c h = ground (arith, follow_in-find P m k j c h)

-- addFollowing of a property or a command succeeds, adds the client to the vector of that key and
-- type unless it is there, and leaves every other vector and the list of clients as they were.
pub add_following_lem :
    (s : Service) (type : FollowType) (k : Bytes) (c : ℕ)
    → type ≢ follow_other
    → IsValid s
    → let (s', ret) = add_following s type (some k) c in
      (ret ≡ pos 0)
      × ((j : Bytes)
          → followers j (table type s') ≡ (
              if same j k
              then add_target c (followers j (table type s))
              else followers j (table type s)))
      × ((u : FollowType) → u ≢ type → table u s' ≡ table u s)
      × (s'.clients ≡ s.clients)
unfolding add_following
add_following_lem s follow_property k c n v = (
  (follow_in-find (IsObject s) s.key_follow k k c v.keys).1,
  (λ j. followers-follow_in (IsObject s) s.key_follow k j c v.keys),
  others,
  refl,
)
  where
    others :
        (u : FollowType)
        → u ≢ follow_property
        → table u (add_following s follow_property (some k) c).0 ≡ table u s
    others follow_property h = absurd (h refl)
    others follow_command h = refl
    others follow_other h = refl
add_following_lem s follow_command k c n v = (
  (follow_in-find (IsObject s) s.cmd_follow k k c v.cmds).1,
  (λ j. followers-follow_in (IsObject s) s.cmd_follow k j c v.cmds),
  others,
  refl,
)
  where
    others :
        (u : FollowType)
        → u ≢ follow_command
        → table u (add_following s follow_command (some k) c).0 ≡ table u s
    others follow_property h = refl
    others follow_command h = absurd (h refl)
    others follow_other h = refl
add_following_lem s follow_other k c n v = absurd (n refl)

pub followers-remove_follower :
    (c : ℕ) (k : Bytes) (m : Followers)
    → followers k (remove_follower c m) ≡ remove_at c (followers k m)
unfolding remove_at
followers-remove_follower c k m = rw (find-remove_follower c k m) (go (find k m))
  where
    go :
        (o : Option (Option (List ℕ)))
        → vector (Option.map (Option.map (remove_at c)) o) ≡ remove_at c (vector o)
    go none = refl
    go (some none) = refl
    go (some (some xs)) = refl

pub table-remove_client :
    (type : FollowType) (s : Service) (c : ℕ)
    → table type (remove_client s c).0 ≡ remove_follower c (table type s)
unfolding remove_client
table-remove_client follow_property s c = refl
table-remove_client follow_command s c = refl
table-remove_client follow_other s c = refl

pub followers-Distinct :
    (P : ℕ → Type 0) (k : Bytes) (m : Followers) → FollowersAreValid P m → Distinct (followers k m)
followers-Distinct P k m h = go (find k m) refl
  where
    go : (o : Option (Option (List ℕ))) → find k m ≡ o → Distinct (vector o)
    go none e = tt
    go (some none) e = tt
    go (some (some xs)) e = (find-valid P k m (some xs) h e).0

remove_at_iff :
    (c d : ℕ) (xs : List ℕ) → Distinct xs → Has d (remove_at c xs) ↔ (Has d xs × (d ≢ c))
remove_at_iff c d xs u = (
  (λ h. (
    Has-remove_at d c xs h,
    λ e. not-Has-remove_at c xs u (subst (λ x. Has x (remove_at c xs)) e h),
  )),
  (λ h. Has-remove_at_ne d c xs h.1 h.0),
)

-- In a state that meets the invariant (no vector of followers is NULL, neither a vector nor the
-- list of clients holds a client twice, and all are objects that createClient has made), removeClient takes the client out of the list and out of every vector of both tables, keeps every
-- other client wherever it stood, and returns 1 exactly when the client was connected.
pub remove_client_lem :
    (s : Service) (c : ℕ)
    → IsValid s
    → let (s', ret) = remove_client s c in
      ((d : ℕ) → Has d s'.clients ↔ (Has d s.clients × (d ≢ c)))
      × ((type : FollowType) (k : Bytes) (d : ℕ)
          → Has d (followers k (table type s')) ↔ (Has d (followers k (table type s)) × (d ≢ c)))
      × ((ret ≡ pos 1) ↔ Has c s.clients)
unfolding remove_client
remove_client_lem s c v = (
  (λ d. remove_at_iff c d s.clients v.distinct),
  (λ type k d.
      rw (table-remove_client type s c, followers-remove_follower c k (table type s))
        (remove_at_iff c d (followers k (table type s))
          (followers-Distinct (IsObject s) k _ (table-valid type s v)))),
  ((λ e. contains-Has c s.clients (ground arith)), λ h. rw (Has-contains c s.clients h)),
)
